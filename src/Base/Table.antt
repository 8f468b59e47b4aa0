-- ===== src/Base/Table.antt =====
-- A database table whose rows carry their primary key, a text: the rows in the order of insertion.
use Prim.Native.String.{String}
use mathlib.Core.Path.{◌≡◌, refl}
use mathlib.Core.Option
use mathlib.Core.Option.{Option, none, some}
use mathlib.Core.List.{List, [], ◌∷◌, ◌++◌}
use native.Mathlib.Omega.{arith}
use agentic_cartoon_demo.Base.Tests.{if◌then◌else◌, ◌=str=◌, str_iff, or_else}

module _ {ℓ} {A : Type ℓ} (key : A → String) where
  -- `SELECT … WHERE key = k`
  unfoldable pub find : String → List A → Option A
  find k [] = none
  find k (r ∷ rs) = if key r =str= k then some r else find k rs

  -- `UPDATE … WHERE key = k`
  unfoldable pub replace : String → (A → A) → List A → List A
  replace k f [] = []
  replace k f (r ∷ rs) = (if key r =str= k then f r else r) ∷ replace k f rs

  pub find-key : (k : String) (rs : List A) (r : A) → find k rs ≡ some r → key r ≡ k
  unfolding find
  find-key k [] r h = ground arith
  find-key k (s ∷ rs) r h = ground (arith, str_iff (key s) k, find-key k rs r)

  pub find-append :
      (k : String) (rs ss : List A) → find k (rs ++ ss) ≡ or_else (find k rs) (find k ss)
  unfolding find
  find-append k [] ss = refl
  find-append k (r ∷ rs) ss = ground (arith, find-append k rs ss)

  -- An update that keeps the key changes what is found under that key, and nothing else.
  pub find-replace :
      (k j : String) (f : A → A) (rs : List A)
      → ((r : A) → key r ≡ k → key (f r) ≡ k)
      → find j (replace k f rs) ≡ (if k =str= j then Option.map f (find j rs) else find j rs)
  unfolding find replace
  find-replace k j f [] keeps = ground arith
  find-replace k j f (r ∷ rs) keeps = ground (
    arith,
    keeps r,
    str_iff (key r) k,
    str_iff (key r) j,
    str_iff k j,
    find-replace k j f rs keeps,
  )

  pub replace-append :
      (k : String) (f : A → A) (rs ss : List A)
      → replace k f (rs ++ ss) ≡ replace k f rs ++ replace k f ss
  unfolding replace
  replace-append k f [] ss = refl
  replace-append k f (r ∷ rs) ss = ground (arith, replace-append k f rs ss)

  pub replace-none : (k : String) (f : A → A) (rs : List A) → find k rs ≡ none → replace k f rs ≡ rs
  unfolding find replace
  replace-none k f [] h = refl
  replace-none k f (r ∷ rs) h = ground (arith, replace-none k f rs)
