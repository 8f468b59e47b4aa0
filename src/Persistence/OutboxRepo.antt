-- ===== src/Persistence/OutboxRepo.antt =====
-- persistence/repos/outbox.py: the transactional outbox.
pub mod Effects
use agentic_cartoon_demo.Base.{
  ℕ, Bool, true, false, not, String, List, [], ◌∷◌, ◌++◌, Option, none, some, if◌then◌else◌, leb,
  find, replace, is_some, filter, take,
}
use agentic_cartoon_demo.Exceptions.{ok, err, persistence_not_found, persistence_connection}
use agentic_cartoon_demo.Persistence.Types.{OutboxEntry, OutboxInsertSpec, OutboxStatus}
use agentic_cartoon_demo.Persistence.Session.{
  Db, Action, pure, raise, gets, modify, and_then, ◌>>=◌, ◌>>◌, raise_unless, now, new_uuid,
  require_active_transaction,
}

abbrev pub outbox_key : OutboxEntry → String
outbox_key e = e.outbox_id

abbrev pub is_pending : OutboxEntry → Bool
is_pending e = elim e.status [ OutboxStatus.pending ↦ true | OutboxStatus.published ↦ false ]

unfoldable pub insert : OutboxInsertSpec → Action OutboxEntry
unfolding find
insert spec = do
  require_active_transaction
  outbox_id ← new_uuid
  t ← now
  taken ← gets (λ db. is_some (find outbox_key outbox_id db.outbox))
  raise_unless (not taken) persistence_connection
  let entry : OutboxEntry = record {
    outbox_id = outbox_id;
    workflow_id = spec.workflow_id;
    task_id = spec.task_id;
    task_type = spec.task_type;
    payload_reference = spec.payload_reference;
    idempotency_key = spec.idempotency_key;
    status = OutboxStatus.pending;
    created_at = t;
    published_at = none;
  }
  modify (λ db. record db { outbox = db.outbox ++ entry ∷ [] })
  pure entry

-- `ORDER BY created_at ASC`, rows of one instant in the order of insertion.
abbrev pub insert_by_age : OutboxEntry → List OutboxEntry → List OutboxEntry
insert_by_age e [] = e ∷ []
insert_by_age e (x ∷ xs) =
    let later = x ∷ insert_by_age e xs in
    if leb e.created_at x.created_at then e ∷ x ∷ xs else later

abbrev pub by_age : List OutboxEntry → List OutboxEntry
by_age [] = []
by_age (e ∷ es) = insert_by_age e (by_age es)

unfoldable pub fetch_unpublished : ℕ → Action (List OutboxEntry)
fetch_unpublished limit = gets (λ db. take limit (by_age (filter is_pending db.outbox)))

-- `_update_published`: the UPDATE of a row that is still PENDING.
abbrev pub publish : ℕ → OutboxEntry → OutboxEntry
publish t e = record e { status = OutboxStatus.published; published_at = some t }

-- What `mark_published` does with the row that `_fetch_entry` found. The tests of a row that
-- another session publishes or deletes in between are in the same method: no such session is
-- modelled.
abbrev pub mark_row : Option OutboxEntry → ℕ → Action OutboxEntry
mark_row none t = raise persistence_not_found
mark_row (some e) t =
    if is_pending e
    then (modify (λ db. record db { outbox = replace outbox_key e.outbox_id (publish t) db.outbox })
        >> pure (publish t e))
    else pure e

unfoldable pub mark_published : String → ℕ → Action OutboxEntry
unfolding find replace
mark_published outbox_id published_at = do
  found ← gets (λ db. find outbox_key outbox_id db.outbox)
  mark_row found published_at
