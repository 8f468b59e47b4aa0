-- ===== src/Persistence/Session/Keeps.antt =====
-- A relation between the database before and after every run, whether it returns or raises.
use agentic_cartoon_demo.Exceptions.{Result, ok, err}
use agentic_cartoon_demo.Persistence.Session.{Db, Action, and_then, ◌>>=◌}

module _ (R : Db → Db → Type 0) where
  abbrev pub Keeps {ℓ} : {A : Type ℓ} → Action A → Type 0
  Keeps m = (db : Db) → R db (m db).1

  module _ (stays : (db : Db) → R db db) (compose : (a b c : Db) → R a b → R b c → R a c) where
    and_then-Keeps {ℓ κ} :
        {A : Type ℓ} {B : Type κ} (db : Db) (r : Result A) (f : A → Action B) (mid : Db)
        → R db mid
        → ((a : A) → Keeps (f a))
        → R db (and_then r f mid).1
    and_then-Keeps db (ok a) f mid h k = compose db mid (f a mid).1 h (k a mid)
    and_then-Keeps db (err e) f mid h k = h

    -- A sequence keeps what its parts keep.
    pub >>=-Keeps {ℓ κ} :
        {A : Type ℓ} {B : Type κ} (m : Action A) (f : A → Action B)
        → Keeps m
        → ((a : A) → Keeps (f a))
        → Keeps (m >>= f)
    >>=-Keeps m f h k db = and_then-Keeps db (m db).0 f (m db).1 (h db) k
