-- ===== src/Base/Text.antt =====
-- Texts: concatenation, and the decimal digits that an f-string prints of an int.
use Prim.Native.Nat.{ℕ, zero, suc, ◌/◌, ◌%◌}
use Prim.Native.String.{String, ◌++◌}
use Prim.Native.String.append
use Prim.Native.Char.{Char, code}
use mathlib.Core.Path.{◌≡◌, refl, ap, ◌∙◌}
use mathlib.Core.Logic.{inl, inr}
use mathlib.Core.Bool.{Bool, true, false, not, ◌&&◌, ◌||◌}
use native.Mathlib.Omega.{arith}
use agentic_cartoon_demo.Base.Tests.{if◌then◌else◌, ltb, leb, eqb, ◌=str=◌, Bool-cases, str_iff}

infixr 65 ◌+str+◌
abbrev pub ◌+str+◌ : String → String → String
s +str+ t = ◌++◌ s t

digit : ℕ → String
digit zero = "0"
digit (suc zero) = "1"
digit (suc (suc zero)) = "2"
digit (suc (suc (suc zero))) = "3"
digit (suc (suc (suc (suc zero)))) = "4"
digit (suc (suc (suc (suc (suc zero))))) = "5"
digit (suc (suc (suc (suc (suc (suc zero)))))) = "6"
digit (suc (suc (suc (suc (suc (suc (suc zero))))))) = "7"
digit (suc (suc (suc (suc (suc (suc (suc (suc zero)))))))) = "8"
digit (suc (suc (suc (suc (suc (suc (suc (suc (suc _))))))))) = "9"

-- A number has at most as many digits as its value plus one, which is the fuel.
show_from : ℕ → ℕ → String
show_from zero n = ""
show_from (suc fuel) n =
    let high = show_from fuel (n / 10) in if ltb n 10 then digit n else high +str+ digit (n % 10)

unfoldable pub show_nat : ℕ → String
unfolding show_from digit
show_nat n = show_from (suc n) n

-- `str.isspace` of one character.
unfoldable pub is_space : ℕ → Bool
is_space c =
    leb 9 c && leb c 13
    || (leb 28 c && leb c 32
        || (eqb c 133
            || (eqb c 160
                || (eqb c 5760
                    || (leb 8192 c && leb c 8202
                        || (eqb c 8232
                            || (eqb c 8233 || (eqb c 8239 || (eqb c 8287 || eqb c 12288)))))))))

left_strip : String → String
unfolding is_space
left_strip String.[] = ""
left_strip (String.◌∷◌ c s) =
    let rest = left_strip s in if is_space (code c) then rest else String.◌∷◌ c s

right_strip : String → String
unfolding is_space
right_strip String.[] = ""
right_strip (String.◌∷◌ c s) =
    let rest = right_strip s in
    if is_space (code c) && (rest =str= "") then "" else String.◌∷◌ c rest

-- `str.strip()`
unfoldable pub strip : String → String
unfolding left_strip right_strip
strip s = right_strip (left_strip s)

-- `s <= t` on texts: by their code points, the first difference deciding.
unfoldable pub text_leb : String → String → Bool
text_leb String.[] t = true
text_leb (String.◌∷◌ c s) String.[] = false
text_leb (String.◌∷◌ c s) (String.◌∷◌ d t) =
    let rest = text_leb s t in
    if ltb (code c) (code d) then true else if eqb (code c) (code d) then rest else false

pub text_leb_total : (s t : String) → text_leb s t ≡ false → text_leb t s ≡ true
unfolding text_leb
text_leb_total String.[] String.[] h = refl
text_leb_total String.[] (String.◌∷◌ d t) h = ground arith
text_leb_total (String.◌∷◌ c s) String.[] h = refl
text_leb_total (String.◌∷◌ c s) (String.◌∷◌ d t) h = ground (arith, text_leb_total s t)

pub text_leb_trans :
    (s t u : String) → text_leb s t ≡ true → text_leb t u ≡ true → text_leb s u ≡ true
unfolding text_leb
text_leb_trans String.[] t u h k = refl
text_leb_trans (String.◌∷◌ c s) String.[] u h k = ground arith
text_leb_trans (String.◌∷◌ c s) (String.◌∷◌ d t) String.[] h k = ground arith
text_leb_trans (String.◌∷◌ c s) (String.◌∷◌ d t) (String.◌∷◌ e u) h k =
    ground (arith, text_leb_trans s t u)

-- No character is a space.
unfoldable pub is_visible : String → Bool
unfolding is_space
is_visible String.[] = true
is_visible (String.◌∷◌ c s) = not (is_space (code c)) && is_visible s

visible-append :
    (s t : String) → is_visible s ≡ true → is_visible t ≡ true → is_visible (◌++◌ s t) ≡ true
unfolding is_visible
visible-append String.[] t h k = ap is_visible (append.nil t) ∙ k
visible-append (String.◌∷◌ c s) t h k =
    ap is_visible (append.cons c s t) ∙ ground (arith, h, visible-append s t)

digit-visible : (n : ℕ) → (is_visible (digit n) ≡ true) × ((digit n =str= "") ≡ false)
unfolding is_visible digit is_space
digit-visible zero = (refl, refl)
digit-visible (suc zero) = (refl, refl)
digit-visible (suc (suc zero)) = (refl, refl)
digit-visible (suc (suc (suc zero))) = (refl, refl)
digit-visible (suc (suc (suc (suc zero)))) = (refl, refl)
digit-visible (suc (suc (suc (suc (suc zero))))) = (refl, refl)
digit-visible (suc (suc (suc (suc (suc (suc zero)))))) = (refl, refl)
digit-visible (suc (suc (suc (suc (suc (suc (suc zero))))))) = (refl, refl)
digit-visible (suc (suc (suc (suc (suc (suc (suc (suc zero)))))))) = (refl, refl)
digit-visible (suc (suc (suc (suc (suc (suc (suc (suc (suc _))))))))) = (refl, refl)

cons-nonempty : (c : Char) (s : String) → (String.◌∷◌ c s =str= "") ≡ false
cons-nonempty c s = elim (Bool-cases (String.◌∷◌ c s =str= "")) [
  | inl e ↦ let same = (str_iff (String.◌∷◌ c s) "").0 e in cc
  | inr e ↦ e
]

append-nonempty : (s t : String) → (t =str= "") ≡ false → (◌++◌ s t =str= "") ≡ false
append-nonempty String.[] t h = ap (λ u. u =str= "") (append.nil t) ∙ h
append-nonempty (String.◌∷◌ c s) t h =
    ap (λ u. u =str= "") (append.cons c s t) ∙ cons-nonempty c (◌++◌ s t)

show_from-visible : (fuel n : ℕ) → is_visible (show_from fuel n) ≡ true
unfolding show_from is_visible
show_from-visible zero n = refl
show_from-visible (suc fuel) n =
    let rest = show_from-visible fuel (n / 10) in
    elim (Bool-cases (ltb n 10)) [
      | inl e ↦ rw e ((digit-visible n).0)
      | inr e ↦ rw e (
          visible-append (show_from fuel (n / 10)) (digit (n % 10)) rest (digit-visible (n % 10)).0)
    ]

pub show_nat-nonempty : (n : ℕ) → (show_nat n =str= "") ≡ false
unfolding show_nat show_from
show_nat-nonempty n = elim (Bool-cases (ltb n 10)) [
  | inl e ↦ rw e ((digit-visible n).1)
  | inr e ↦
      rw e (append-nonempty (show_from n (n / 10)) (digit (n % 10)) (digit-visible (n % 10)).1)
]

left_strip-visible : (s : String) → is_visible s ≡ true → left_strip s ≡ s
unfolding left_strip is_visible
left_strip-visible String.[] h = refl
left_strip-visible (String.◌∷◌ c s) h = ground arith

right_strip-visible : (s : String) → is_visible s ≡ true → right_strip s ≡ s
unfolding right_strip is_visible
right_strip-visible String.[] h = refl
right_strip-visible (String.◌∷◌ c s) h = ground (arith, right_strip-visible s)

pub strip-visible : (s : String) → is_visible s ≡ true → strip s ≡ s
unfolding strip
strip-visible s v = ap right_strip (left_strip-visible s v) ∙ right_strip-visible s v

-- A decimal numeral has no space to strip.
pub strip-show_nat : (n : ℕ) → strip (show_nat n) ≡ show_nat n
unfolding show_nat
strip-show_nat n = strip-visible (show_from (suc n) n) (show_from-visible (suc n) n)
