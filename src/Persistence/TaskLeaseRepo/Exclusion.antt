-- ===== src/Persistence/TaskLeaseRepo/Exclusion.antt =====
-- The leases that a task can have: persistence/repos/task_lease.py.
use agentic_cartoon_demo.Base.{
  ℕ, ◌+◌, ◌≤◌, ◌≡◌, refl, subst, inl, inr, Bool, true, false, not, ◌||◌, Bool-cases, String, List,
  [], ◌∷◌, ◌++◌, Option, none, some, Option-cases, is_some, if◌then◌else◌, ltb, find, filter, map,
  count, count-append, ◌=str=◌, str_iff, arith,
}
use agentic_cartoon_demo.Exceptions.{ok}
use agentic_cartoon_demo.Persistence.Types.{TaskLease}
use agentic_cartoon_demo.Persistence.Session.{Db}
use agentic_cartoon_demo.Persistence.TaskLeaseRepo.{
  lease_key, lease_task, is_live, delete_expired, put_lease, insert_lease, try_acquire, renew,
  renew_row, release,
}

abbrev pub is_for : String → TaskLease → Bool
is_for task_id l = l.task_id =str= task_id

-- No task has two leases.
abbrev pub IsExclusive : Db → Type 0
IsExclusive db = (task_id : String) → count (is_for task_id) db.task_leases ≤ 1

count-filter : (p q : TaskLease → Bool) (ls : List TaskLease) → count p (filter q ls) ≤ count p ls
count-filter p q [] = omega arith
count-filter p q (l ∷ ls) = ground (arith, count-filter p q ls)

count-map :
    (p : TaskLease → Bool) (f : TaskLease → TaskLease) (ls : List TaskLease)
    → ((l : TaskLease) → p (f l) ≡ p l)
    → count p (map f ls) ≡ count p ls
count-map p f [] h = refl
count-map p f (l ∷ ls) h = ground (arith, h l, count-map p f ls h)

count-none :
    (task_id : String) (ls : List TaskLease)
    → find lease_task task_id ls ≡ none
    → count (is_for task_id) ls ≡ 0
unfolding find
count-none task_id [] h = refl
count-none task_id (l ∷ ls) h = ground (arith, count-none task_id ls)

-- A lease that is put into the table of the others, when its task has none.
put-IsExclusive :
    (l : TaskLease) (db : Db)
    → IsExclusive db
    → find lease_task l.task_id db.task_leases ≡ none
    → IsExclusive (record db { task_leases = db.task_leases ++ l ∷ [] })
put-IsExclusive l db h free task_id = elim (Bool-cases (l.task_id =str= task_id)) [
  | inl e ↦
      let same = (str_iff l.task_id task_id).0 e in
      let none_ =
        count-none task_id db.task_leases
          (subst (λ i. find lease_task i db.task_leases ≡ none) same free) in
      ground (arith, e, none_, count-append (is_for task_id) db.task_leases (l ∷ []))
  | inr e ↦
      let before = h task_id in
      ground (arith, e, before, count-append (is_for task_id) db.task_leases (l ∷ []))
]

put_lease-IsExclusive :
    (taken : Bool) (l : TaskLease) (db : Db)
    → IsExclusive db
    → (taken ≡ false → find lease_task l.task_id db.task_leases ≡ none)
    → IsExclusive (put_lease taken l db).1
put_lease-IsExclusive true l db h free = h
put_lease-IsExclusive false l db h free = put-IsExclusive l db h (free refl)

insert_lease-IsExclusive :
    (l : TaskLease) (db : Db) → IsExclusive db → IsExclusive (insert_lease l db).1
insert_lease-IsExclusive l db h =
    put_lease-IsExclusive
      (is_some (find lease_key l.lease_id db.task_leases)
        || is_some (find lease_task l.task_id db.task_leases))
      l db h
      (λ free. elim (Option-cases (find lease_task l.task_id db.task_leases)) [
        | inl none_ ↦ none_
        | inr (m, there) ↦ elim (Bool-cases (is_some (find lease_key l.lease_id db.task_leases))) [
          | inl e ↦ absurd (ground (arith, free, e))
          | inr e ↦ absurd (ground (arith, free, e, there))
        ]
      ])

renew_row-IsExclusive :
    (o : Option TaskLease) (expires_at t : ℕ) (db : Db)
    → IsExclusive db
    → IsExclusive (renew_row o expires_at t db).1
renew_row-IsExclusive none expires_at t db h task_id = h task_id
renew_row-IsExclusive (some l) expires_at t db h task_id = elim (Bool-cases (ltb t l.expires_at)) [
  | inl e ↦
      let before = h task_id in
      let f = λ (m : TaskLease).
        if m.lease_id =str= l.lease_id then record m { expires_at = expires_at } else m in
      let same =
        count-map (is_for task_id) f db.task_leases (renewed l.lease_id expires_at task_id) in
      ground (arith, e, before, same)
  | inr e ↦ let before = h task_id in ground (arith, e, before)
]
  where
    renewed :
        (id : String) (expires_at : ℕ) (task_id : String) (m : TaskLease)
        → is_for task_id (if m.lease_id =str= id then record m { expires_at = expires_at } else m)
          ≡ is_for task_id m
    renewed id expires_at task_id m = elim (Bool-cases (m.lease_id =str= id)) [
      | inl e ↦ ground (arith, e)
      | inr e ↦ ground (arith, e)
    ]

-- Acquiring, renewing and releasing keep every task at one lease at most, whatever the clock says and
-- whichever of the calls return or raise.
pub leases-IsExclusive :
    (db : Db)
    → IsExclusive db
    → ((task_id worker_id : String) (ttl : ℕ)
        → IsExclusive (try_acquire task_id worker_id ttl db).1)
      × ((lease_id : String) (ttl : ℕ) → IsExclusive (renew lease_id ttl db).1)
      × ((lease_id : String) → IsExclusive (release lease_id db).1)
unfolding try_acquire delete_expired renew release
leases-IsExclusive db h = (
  (λ task_id worker_id ttl.
      let t = db.environment.utcnow db.requests in
      insert_lease-IsExclusive
        (record {
          lease_id = db.environment.uuid4 (db.requests + 1);
          task_id = task_id;
          worker_id = worker_id;
          acquired_at = db.environment.utcnow (db.requests + 1 + 1);
          expires_at = db.environment.utcnow (db.requests + 1 + 1) + ttl;
        })
        (record db {
          task_leases = filter (is_live task_id t) db.task_leases;
          requests = db.requests + 1 + 1 + 1;
        })
        (λ k. omega (arith, h k, count-filter (is_for k) (is_live task_id t) db.task_leases))),
  (λ lease_id ttl.
      renew_row-IsExclusive (find lease_key lease_id db.task_leases)
        (db.environment.utcnow db.requests + ttl) (db.environment.utcnow (db.requests + 1))
        (record db { requests = db.requests + 1 + 1 }) h),
  (λ lease_id k.
      omega (
        arith,
        h k,
        count-filter (is_for k) (λ l. not (l.lease_id =str= lease_id)) db.task_leases,
      )),
)

find-filter :
    (q : TaskLease → Bool) (task_id : String) (ls : List TaskLease) (l : TaskLease)
    → find lease_task task_id ls ≡ some l
    → q l ≡ true
    → is_some (find lease_task task_id (filter q ls)) ≡ true
unfolding find
find-filter q task_id [] l h k = cc
find-filter q task_id (m ∷ ls) l h k = elim (Bool-cases (m.task_id =str= task_id)) [
  | inl e ↦ ground (arith, e, h, k)
  | inr e ↦
      let later = find-filter q task_id ls l (ground (arith, e, h)) k in
      elim (Bool-cases (q m)) [
        | inl f ↦ ground (arith, e, f, later)
        | inr f ↦ ground (arith, e, f, later)
      ]
]

put_lease-refused :
    (taken : Bool) (l : TaskLease) (db : Db) → taken ≡ true → (put_lease taken l db).0 ≡ ok none
put_lease-refused true l db h = refl
put_lease-refused false l db h = cc

-- While a task's lease has not expired, by the clock's answer to the call, no worker acquires the
-- task: `try_acquire` returns None.
pub try_acquire-refused :
    (task_id worker_id : String) (ttl : ℕ) (db : Db) (l : TaskLease)
    → find lease_task task_id db.task_leases ≡ some l
    → ltb l.expires_at (db.environment.utcnow db.requests) ≡ false
    → (try_acquire task_id worker_id ttl db).0 ≡ ok none
unfolding try_acquire delete_expired
try_acquire-refused task_id worker_id ttl db l found valid =
    let t = db.environment.utcnow db.requests in
    let kept : is_live task_id t l ≡ true = elim (Bool-cases (l.task_id =str= task_id)) [
      | inl e ↦ ground (arith, e, valid)
      | inr e ↦ ground (arith, e)
    ] in
    let there = find-filter (is_live task_id t) task_id db.task_leases l found kept in
    put_lease-refused
      (is_some (
          find lease_key (db.environment.uuid4 (db.requests + 1))
            (filter (is_live task_id t) db.task_leases))
        || is_some (find lease_task task_id (filter (is_live task_id t) db.task_leases)))
      (record {
        lease_id = db.environment.uuid4 (db.requests + 1);
        task_id = task_id;
        worker_id = worker_id;
        acquired_at = db.environment.utcnow (db.requests + 1 + 1);
        expires_at = db.environment.utcnow (db.requests + 1 + 1) + ttl;
      })
      (record db {
        task_leases = filter (is_live task_id t) db.task_leases;
        requests = db.requests + 1 + 1 + 1;
      })
      (or-true _ there)
  where
    or-true : (a : Bool) {b : Bool} → b ≡ true → (a || b) ≡ true
    or-true true h = refl
    or-true false h = h
