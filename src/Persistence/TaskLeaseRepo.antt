-- ===== src/Persistence/TaskLeaseRepo.antt =====
-- persistence/repos/task_lease.py: one short-lived lease for each task in flight. The table has a
-- unique index on `task_id` and the primary key `lease_id`.
pub mod Exclusion
use agentic_cartoon_demo.Base.{
  ℕ, ◌+◌, Bool, true, false, not, ◌&&◌, ◌||◌, String, List, [], ◌∷◌, ◌++◌, Option, none, some,
  if◌then◌else◌, ltb, ◌=str=◌, find, is_some, filter, map,
}
use agentic_cartoon_demo.Exceptions.{ok, err, persistence_not_found}
use agentic_cartoon_demo.Persistence.Types.{TaskLease}
use agentic_cartoon_demo.Persistence.Session.{
  Db, Action, pure, raise, gets, modify, and_then, ◌>>=◌, ◌>>◌, now, new_uuid,
}

abbrev pub lease_key : TaskLease → String
lease_key l = l.lease_id

abbrev pub lease_task : TaskLease → String
lease_task l = l.task_id

-- DELETE … WHERE task_id = … AND expires_at < now
abbrev pub is_live : String → ℕ → TaskLease → Bool
is_live task_id t l = not (l.task_id =str= task_id && ltb l.expires_at t)

-- `_delete_expired`
unfoldable pub delete_expired : String → Action (Unit {0})
delete_expired task_id = do
  t ← now
  modify (λ db. record db { task_leases = filter (is_live task_id t) db.task_leases })

abbrev pub put_lease : Bool → TaskLease → Action (Option TaskLease)
put_lease true l = pure none
put_lease false l =
    modify (λ db. record db { task_leases = db.task_leases ++ l ∷ [] }) >> pure (some l)

-- The INSERT of `_insert_lease`; `none` is the UniqueViolation of either key.
abbrev pub insert_lease : TaskLease → Action (Option TaskLease)
insert_lease l = do
  taken ← gets (λ db.
      is_some (find lease_key l.lease_id db.task_leases)
      || is_some (find lease_task l.task_id db.task_leases))
  put_lease taken l

-- `try_acquire`. Lifetimes are whole microseconds.
unfoldable pub try_acquire : String → String → ℕ → Action (Option TaskLease)
unfolding find delete_expired
try_acquire task_id worker_id ttl = do
  delete_expired task_id
  lease_id ← new_uuid
  acquired_at ← now
  insert_lease (record {
    lease_id = lease_id;
    task_id = task_id;
    worker_id = worker_id;
    acquired_at = acquired_at;
    expires_at = acquired_at + ttl;
  })

-- `UPDATE … WHERE lease_id = … AND expires_at > now RETURNING`
abbrev pub renew_row : Option TaskLease → ℕ → ℕ → Action TaskLease
renew_row none expires_at t = raise persistence_not_found
renew_row (some l) expires_at t =
    if ltb t l.expires_at
    then (modify (λ db. record db {
      task_leases =
          map
            (λ (m : TaskLease).
              if m.lease_id =str= l.lease_id then record m { expires_at = expires_at } else m)
            db.task_leases;
    })
        >> pure (record l { expires_at = expires_at }))
    else raise persistence_not_found

unfoldable pub renew : String → ℕ → Action TaskLease
unfolding find
renew lease_id ttl = do
  t ← now
  t' ← now
  found ← gets (λ db. find lease_key lease_id db.task_leases)
  renew_row found (t + ttl) t'

unfoldable pub release : String → Action (Unit {0})
release lease_id =
    modify (λ db. record db {
      task_leases = filter (λ l. not (l.lease_id =str= lease_id)) db.task_leases;
    })

unfoldable pub get_active_lease : String → Action (Option TaskLease)
unfolding find
get_active_lease task_id = do
  t ← now
  gets (λ db. find lease_task task_id (filter (λ l. ltb t l.expires_at) db.task_leases))
