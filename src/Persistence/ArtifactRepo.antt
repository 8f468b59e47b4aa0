-- ===== src/Persistence/ArtifactRepo.antt =====
-- persistence/repos/artifact.py: artifact metadata, their contents, and the audit records of AI
-- invocations.
pub mod RoundTrip
pub mod Duplicate
mod Tests
use agentic_cartoon_demo.Base.{
  ℕ, ◌≡◌, ◌↔◌, Bool, true, false, not, ◌&&◌, ◌||◌, String, List, [], ◌∷◌, ◌++◌, Option, none, some,
  map, if◌then◌else◌, leb, eqb, ◌=str=◌, filter, find, is_some, sort, insert_sorted,
}
use mathlib.Core.Bool.{decide, decide_iff}
use agentic_cartoon_demo.Exceptions.{
  Result, ok, err, persistence_duplicate, persistence_not_found, persistence_connection,
}
use agentic_cartoon_demo.Persistence.Types.{
  JsonValue, ArtifactRecord, ArtifactType, ArtifactCreateSpec, ArtifactContent,
  AiInvocationInsertSpec, AiInvocationRecord,
}
use agentic_cartoon_demo.Persistence.Session.{
  Db, Action, pure, raise, gets, modify, and_then, ◌>>=◌, ◌>>◌, raise_unless, now, new_uuid,
  require_active_transaction,
}
use agentic_cartoon_demo.Persistence.WorkflowRepo.{workflow_key}

unfoldable pub ArtifactType-discrete : Discrete ArtifactType
ArtifactType-discrete = hlevel

unfoldable pub artifact_type_eq : ArtifactType → ArtifactType → Bool
unfolding decide ArtifactType-discrete
artifact_type_eq a b = decide (ArtifactType-discrete a b)

pub artifact_type_eq_iff : (a b : ArtifactType) → (artifact_type_eq a b ≡ true) ↔ (a ≡ b)
unfolding artifact_type_eq
artifact_type_eq_iff a b = decide_iff (ArtifactType-discrete a b)

-- The primary keys.
abbrev pub artifact_key : ArtifactRecord → String
artifact_key a = a.artifact_id

abbrev pub content_key : ArtifactContent → String
content_key c = c.artifact_id

abbrev pub invocation_key : AiInvocationRecord → String
invocation_key i = i.invocation_id

-- The row is of the workflow and of the type.
abbrev pub is_of_type : String → ArtifactType → ArtifactRecord → Bool
is_of_type workflow_id type a =
    a.workflow_id =str= workflow_id && artifact_type_eq a.artifact_type type

-- `UPDATE artifacts SET is_active = FALSE WHERE … AND is_active = TRUE`
abbrev pub deactivate : String → ArtifactType → ArtifactRecord → ArtifactRecord
deactivate workflow_id type a =
    if is_of_type workflow_id type a && a.is_active then record a { is_active = false } else a

unfoldable pub deactivate_active : String → ArtifactType → Action (Unit {0})
deactivate_active workflow_id type =
    modify (λ db. record db { artifacts = map (deactivate workflow_id type) db.artifacts })

-- A row that the new one may not stand beside: of the same identifier, of the same version, or
-- active like it (the UNIQUE constraint and the partial unique index).
abbrev pub collides : ArtifactRecord → ArtifactRecord → Bool
collides new a =
    a.artifact_id =str= new.artifact_id
    || is_of_type new.workflow_id new.artifact_type a
      && (eqb a.version new.version || a.is_active && new.is_active)

abbrev pub has_collision : ArtifactRecord → List ArtifactRecord → Bool
has_collision new [] = false
has_collision new (a ∷ rest) = collides new a || has_collision new rest

-- The INSERT statements of `_insert_artifact_rows`.
unfoldable pub insert_artifact : ArtifactRecord → Action (Unit {0})
unfolding find
insert_artifact new = do
  collision ← gets (λ db. has_collision new db.artifacts)
  raise_unless (not collision) persistence_duplicate
  known ← gets (λ db. is_some (find workflow_key new.workflow_id db.workflows))
  raise_unless known persistence_connection
  modify (λ db. record db { artifacts = db.artifacts ++ new ∷ [] })

unfoldable pub insert_content : ArtifactContent → Action (Unit {0})
unfolding find
insert_content c = do
  taken ← gets (λ db. is_some (find content_key c.artifact_id db.artifact_content))
  raise_unless (not taken) persistence_duplicate
  modify (λ db. record db { artifact_content = db.artifact_content ++ c ∷ [] })

-- `_insert_artifact_rows`
unfoldable pub insert_artifact_rows : Bool → ArtifactRecord → JsonValue → Action (Unit {0})
unfolding deactivate_active insert_artifact insert_content
insert_artifact_rows deactivate_first new content = do
  (if deactivate_first then deactivate_active new.workflow_id new.artifact_type else pure tt)
  insert_artifact new
  insert_content (record { artifact_id = new.artifact_id; content = content })

-- `with self._borrow_connection()`: the session's connection in a transaction, else one of the pool,
-- whose statements are committed together or not at all.
abbrev pub settle {ℓ} : {A : Type ℓ} → (inside : Bool) → Db → Result A → Db → Result A × Db
settle true before r after = (r, after)
settle false before (ok a) after = (ok a, after)
settle false before (err e) after = (err e, record before { requests = after.requests })

abbrev pub borrow_connection {ℓ} : {A : Type ℓ} → Action A → Action A
borrow_connection m db = let (r, after) = m db in settle db.in_transaction db r after

abbrev pub artifact_record : ArtifactCreateSpec → String → ℕ → ArtifactRecord
artifact_record spec artifact_id t = record {
  artifact_id = artifact_id;
  workflow_id = spec.workflow_id;
  artifact_type = spec.artifact_type;
  name = spec.name;
  version = spec.version;
  logical_version = spec.logical_version;
  is_active = spec.is_active;
  created_at = t;
}

-- What is written in the two branches of `create_artifact`.
abbrev pub write_artifact : Bool → ArtifactRecord → JsonValue → Action (Unit {0})
write_artifact true new content = insert_artifact_rows true new content
write_artifact false new content = borrow_connection (insert_artifact_rows false new content)

abbrev pub store_artifact : ArtifactCreateSpec → ArtifactRecord → Action ArtifactRecord
store_artifact spec new = write_artifact spec.is_active new spec.content >> pure new

unfoldable pub create_artifact : ArtifactCreateSpec → Action ArtifactRecord
unfolding insert_artifact_rows
create_artifact spec = do
  (if spec.is_active then require_active_transaction else pure tt)
  artifact_id ← new_uuid
  t ← now
  store_artifact spec (artifact_record spec artifact_id t)

unfoldable pub get_artifact : String → Action (Option ArtifactRecord)
unfolding find
get_artifact artifact_id = gets (λ db. find artifact_key artifact_id db.artifacts)

abbrev pub content_or_raise : Option ArtifactContent → Action JsonValue
content_or_raise none = raise persistence_not_found
content_or_raise (some c) = pure c.content

unfoldable pub get_artifact_content : String → Action JsonValue
unfolding find
get_artifact_content artifact_id = do
  found ← gets (λ db. find content_key artifact_id db.artifact_content)
  content_or_raise found

-- The WHERE clause of `list_artifacts`.
abbrev pub is_listed : String → Option ArtifactType → Bool → ArtifactRecord → Bool
is_listed workflow_id none active_only a =
    a.workflow_id =str= workflow_id && (not active_only || a.is_active)
is_listed workflow_id (some type) active_only a =
    is_of_type workflow_id type a && (not active_only || a.is_active)

-- Rows of one version, of which `ORDER BY version` promises no order, stay in that of insertion.
unfoldable pub list_artifacts : String → Option ArtifactType → Bool → Action (List ArtifactRecord)
unfolding sort insert_sorted
list_artifacts workflow_id artifact_type active_only = gets (λ db.
    sort (λ a b. leb a.version b.version)
      (filter (is_listed workflow_id artifact_type active_only) db.artifacts))

-- `records[0] if records else None`
abbrev pub first {ℓ} : {A : Type ℓ} → List A → Option A
first [] = none
first (a ∷ _) = some a

unfoldable pub get_active_artifact : String → ArtifactType → Action (Option ArtifactRecord)
unfolding list_artifacts artifact_type_eq
get_active_artifact workflow_id type = do
  records ← list_artifacts workflow_id (some type) true
  pure (first records)

unfoldable pub append_ai_invocation : AiInvocationInsertSpec → Action AiInvocationRecord
unfolding find
append_ai_invocation spec = do
  invocation_id ← new_uuid
  taken ← gets (λ db. is_some (find invocation_key invocation_id db.ai_invocations))
  raise_unless (not taken) persistence_connection
  let row : AiInvocationRecord = record { invocation_id = invocation_id; invocation = spec }
  modify (λ db. record db { ai_invocations = db.ai_invocations ++ row ∷ [] })
  pure row

abbrev pub is_invoked_by : String → Option String → AiInvocationRecord → Bool
is_invoked_by workflow_id none i = i.invocation.workflow_id =str= workflow_id
is_invoked_by workflow_id (some task_id) i =
    i.invocation.workflow_id =str= workflow_id && (i.invocation.task_id =str= task_id)

unfoldable pub list_ai_invocations : String → Option String → Action (List AiInvocationRecord)
unfolding sort insert_sorted
list_ai_invocations workflow_id task_id = gets (λ db.
    sort (λ a b. leb a.invocation.started_at b.invocation.started_at)
      (filter (is_invoked_by workflow_id task_id) db.ai_invocations))
