-- ===== src/Worker/Delivery/Released.antt =====
-- The release of the lease: worker/loop.py.
use agentic_cartoon_demo.Base.{
  ◌≡◌, refl, ap, ◌∙◌, inl, inr, not, Bool-cases, String, List, [], ◌∷◌, filter, none, some, find,
  ◌=str=◌, arith,
}
use agentic_cartoon_demo.Config.{WorkflowConfig}
use agentic_cartoon_demo.Exceptions.{ok}
use agentic_cartoon_demo.Persistence.Types.{TaskRecord, TaskLease, WorkflowRecord}
use agentic_cartoon_demo.Persistence.Session.{Db}
use agentic_cartoon_demo.Persistence.Session.Laws.{>>=-step}
use agentic_cartoon_demo.Persistence.WorkflowRepo.{Repo}
use agentic_cartoon_demo.Persistence.TaskLeaseRepo.{try_acquire, release, lease_key}
use agentic_cartoon_demo.Worker.Types.{PendingDelivery}
use agentic_cartoon_demo.Worker.Delivery.{
  Loop, try_except, work, on_exception, under_lease, process_task,
}

find-released :
    (lease_id : String) (leases : List TaskLease)
    → find lease_key lease_id (filter (λ l. not (l.lease_id =str= lease_id)) leases) ≡ none
unfolding find
find-released lease_id [] = refl
find-released lease_id (l ∷ ls) =
    let rest = find-released lease_id ls in
    elim (Bool-cases (l.lease_id =str= lease_id)) [
      | inl e ↦ ground (arith, e, rest)
      | inr e ↦ ground (arith, e, rest)
    ]

-- A lease that is acquired for a task is released however its processing ends, whether it returns
-- or raises: the lease is not stored any more.
pub process_task-released :
    (repo : Repo) (config : WorkflowConfig) (loop : Loop) (delivery : PendingDelivery)
    (task : TaskRecord) (workflow : WorkflowRecord) (db : Db) (lease : TaskLease) (mid : Db)
    → try_acquire delivery.message.task_id loop.worker_id loop.ttl db ≡ (ok (some lease), mid)
    → find lease_key lease.lease_id
        (process_task repo config loop delivery task workflow db).1.task_leases
      ≡ none
unfolding process_task release
process_task-released repo config loop delivery task workflow db lease mid acquired =
    let under = under_lease repo config loop delivery task workflow in
    let run =
      >>=-step (try_acquire delivery.message.task_id loop.worker_id loop.ttl) under db acquired
        refl in
    let body =
      try_except (work repo config loop delivery task workflow)
        (on_exception repo config loop delivery task workflow) in
    ap (λ p. find lease_key lease.lease_id p.1.task_leases) run
    ∙ find-released lease.lease_id (body mid).1.task_leases
