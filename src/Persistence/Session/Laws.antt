-- ===== src/Persistence/Session/Laws.antt =====
-- Inversion of a run, and what a transaction leaves behind.
use agentic_cartoon_demo.Base.{◌≡◌, refl, ap, ◌∙◌, Bool, true, false, arith}
use agentic_cartoon_demo.Exceptions.{Exception, Result, ok, err}
use agentic_cartoon_demo.Persistence.Session.{
  Db, Action, pure, begin, and_then, ◌>>=◌, ◌>>◌, transaction, finish_transaction, raise_unless,
}

and_then-ok {ℓ κ} :
    {A : Type ℓ} {B : Type κ} (r : Result A) (f : A → Action B) (mid : Db) {b : B} {after : Db}
    → and_then r f mid ≡ (ok b, after)
    → (a : A) × (r ≡ ok a) × (f a mid ≡ (ok b, after))
and_then-ok (ok a) f mid h = (a, refl, h)
and_then-ok (err e) f mid h = cc

-- A sequence that returns has run both of its parts.
pub >>=-ok {ℓ κ} :
    {A : Type ℓ} {B : Type κ} (m : Action A) (f : A → Action B) (db : Db) {b : B} {after : Db}
    → (m >>= f) db ≡ (ok b, after)
    → (a : A) × (mid : Db) × (m db ≡ (ok a, mid)) × (f a mid ≡ (ok b, after))
>>=-ok m f db h =
    let (a, returned, rest) = and_then-ok (m db).0 f (m db).1 h in
    (a, (m db).1, ap (λ r. (r, (m db).1)) returned, rest)

pub pure-ok {ℓ} :
    {A : Type ℓ} (a : A) (db : Db) {b : A} {after : Db}
    → pure a db ≡ (ok b, after)
    → (a ≡ b) × (db ≡ after)
pure-ok a db h = (cc, cc)

-- A guard in front of a run that returns was met, and has changed nothing.
pub guard-ok {ℓ} :
    {B : Type ℓ} (c : Bool) (e : Exception) (k : Action B) (db : Db) {b : B} {after : Db}
    → (raise_unless c e >> k) db ≡ (ok b, after)
    → (c ≡ true) × (k db ≡ (ok b, after))
guard-ok true e k db h = (refl, h)
guard-ok false e k db h = cc

finish-ok {ℓ} :
    {A : Type ℓ} (before : Db) (r : Result A) (mid : Db) {a : A} {after : Db}
    → finish_transaction before r mid ≡ (ok a, after)
    → (r ≡ ok a) × (after ≡ record mid { in_transaction = false })
finish-ok before (ok a) mid h = (cc, cc)
finish-ok before (err e) mid h = (cc, cc)

finish-err {ℓ} :
    {A : Type ℓ} (before : Db) (r : Result A) (mid : Db) {e : Exception} {after : Db}
    → finish_transaction before r mid ≡ (err e, after)
    → after ≡ record before { requests = after.requests }
finish-err before (ok a) mid h = cc
finish-err before (err e) mid h = ground arith

module _ {ℓ} {A : Type ℓ} (body : Action A) (db : Db) where
  begin-ok :
      (nested : Bool) {a : A} {after : Db}
      → begin nested body db ≡ (ok a, after)
      → (inner : Db) × (body (record db { in_transaction = true }) ≡ (ok a, inner))
        × (after ≡ record inner { in_transaction = false })
  begin-ok true h = cc
  begin-ok false h =
      let run = body (record db { in_transaction = true }) in
      let (returned, closed) = finish-ok db run.0 run.1 h in
      (run.1, ap (λ r. (r, run.1)) returned, closed)

  begin-err :
      (nested : Bool) {e : Exception} {after : Db}
      → begin nested body db ≡ (err e, after)
      → after ≡ record db { requests = after.requests }
  begin-err true h = ground arith
  begin-err false h =
      let run = body (record db { in_transaction = true }) in finish-err db run.0 run.1 h

  -- A transaction that returns has run its body to the end, inside.
  pub transaction-ok :
      {a : A} {after : Db}
      → transaction body db ≡ (ok a, after)
      → (inner : Db) × (body (record db { in_transaction = true }) ≡ (ok a, inner))
        × (after ≡ record inner { in_transaction = false })
  unfolding transaction
  transaction-ok h = begin-ok db.in_transaction h

  -- One that raises has changed no table.
  pub transaction-err :
      {e : Exception} {after : Db}
      → transaction body db ≡ (err e, after)
      → after ≡ record db { requests = after.requests }
  unfolding transaction
  transaction-err h = begin-err db.in_transaction h

-- To run a sequence: its first part returns, or it raises.
pub >>=-step {ℓ κ} :
    {A : Type ℓ} {B : Type κ} (m : Action A) (f : A → Action B) (db : Db) {a : A} {mid : Db}
    {r : Result B × Db}
    → m db ≡ (ok a, mid)
    → f a mid ≡ r
    → (m >>= f) db ≡ r
>>=-step m f db h k = ap (λ p. and_then p.0 f p.1) h ∙ k

pub >>=-err {ℓ κ} :
    {A : Type ℓ} {B : Type κ} (m : Action A) (f : A → Action B) (db : Db) {e : Exception} {mid : Db}
    → m db ≡ (err e, mid)
    → (m >>= f) db ≡ (err e, mid)
>>=-err m f db h = ap (λ p. and_then p.0 f p.1) h

pub guard-step {ℓ} :
    {B : Type ℓ} (c : Bool) (e : Exception) (k : Action B) (db : Db)
    → c ≡ true
    → (raise_unless c e >> k) db ≡ k db
guard-step true e k db h = refl
guard-step false e k db h = cc

pub guard-err {ℓ} :
    {B : Type ℓ} (c : Bool) (e : Exception) (k : Action B) (db : Db)
    → c ≡ false
    → (raise_unless c e >> k) db ≡ (err e, db)
guard-err true e k db h = cc
guard-err false e k db h = refl
