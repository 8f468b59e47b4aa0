-- ===== src/Base/Sorting.antt =====
-- `sorted` and `list.sort`: a stable insertion sort by a Boolean order.
use mathlib.Core.Bool.{Bool, true, false}
use mathlib.Core.Path.{◌≡◌}
use mathlib.Core.Logic.{inl, inr}
use mathlib.Core.List.{List, [], ◌∷◌, Perm}
use mathlib.Core.List.Perm
use agentic_cartoon_demo.Base.Tests.{if◌then◌else◌, Bool-cases}
use agentic_cartoon_demo.Base.Lists.{All}

module _ {ℓ} {A : Type ℓ} (leq : A → A → Bool) where
  unfoldable pub insert_sorted : A → List A → List A
  insert_sorted x [] = x ∷ []
  insert_sorted x (y ∷ ys) =
      let later = y ∷ insert_sorted x ys in if leq x y then x ∷ y ∷ ys else later

  unfoldable pub sort : List A → List A
  unfolding insert_sorted
  sort [] = []
  sort (x ∷ xs) = insert_sorted x (sort xs)

  -- Each item is in order with every later one.
  abbrev pub IsOrdered : List A → Type ℓ
  IsOrdered [] = Unit
  IsOrdered (x ∷ xs) = All (λ y. leq x y ≡ true) xs × IsOrdered xs

  insert-perm : (x : A) (xs : List A) → Perm (insert_sorted x xs) (x ∷ xs)
  unfolding insert_sorted
  insert-perm x [] = Perm.rfl
  insert-perm x (y ∷ ys) = elim (Bool-cases (leq x y)) [
    | inl e ↦ rw e Perm.rfl
    | inr e ↦ rw e (Perm.trans (Perm.cons y (insert-perm x ys)) (Perm.swap x y ys))
  ]

  pub sort-perm : (xs : List A) → Perm (sort xs) xs
  unfolding sort
  sort-perm [] = Perm.rfl
  sort-perm (x ∷ xs) = Perm.trans (insert-perm x (sort xs)) (Perm.cons x (sort-perm xs))

  -- What holds of every item holds of every item of the sorted list.
  insert-All {κ} :
      (P : A → Type κ) (x : A) (xs : List A) → P x → All P xs → All P (insert_sorted x xs)
  unfolding insert_sorted
  insert-All P x [] h k = (h, tt)
  insert-All P x (y ∷ ys) h k = elim (Bool-cases (leq x y)) [
    | inl e ↦ rw e (h, k)
    | inr e ↦ rw e (k.0, insert-All P x ys h k.1)
  ]

  pub sort-All {κ} : (P : A → Type κ) (xs : List A) → All P xs → All P (sort xs)
  unfolding sort
  sort-All P [] h = tt
  sort-All P (x ∷ xs) h = insert-All P x (sort xs) h.0 (sort-All P xs h.1)

  module _ (total : (x y : A) → leq x y ≡ false → leq y x ≡ true)
      (trans : (x y z : A) → leq x y ≡ true → leq y z ≡ true → leq x z ≡ true) where
    above :
        (x y : A) (ys : List A)
        → leq x y ≡ true
        → All (λ z. leq y z ≡ true) ys
        → All (λ z. leq x z ≡ true) ys
    above x y [] h k = tt
    above x y (z ∷ zs) h k = (trans x y z h k.0, above x y zs h k.1)

    insert-IsOrdered : (x : A) (xs : List A) → IsOrdered xs → IsOrdered (insert_sorted x xs)
    unfolding insert_sorted
    insert-IsOrdered x [] h = (tt, tt)
    insert-IsOrdered x (y ∷ ys) h = elim (Bool-cases (leq x y)) [
      | inl e ↦ rw e ((e, above x y ys e h.0), h)
      | inr e ↦
          rw e (insert-All (λ z. leq y z ≡ true) x ys (total x y e) h.0, insert-IsOrdered x ys h.1)
    ]

    pub sort-IsOrdered : (xs : List A) → IsOrdered (sort xs)
    unfolding sort
    sort-IsOrdered [] = tt
    sort-IsOrdered (x ∷ xs) = insert-IsOrdered x (sort xs) (sort-IsOrdered xs)
