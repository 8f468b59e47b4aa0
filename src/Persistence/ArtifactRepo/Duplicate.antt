-- ===== src/Persistence/ArtifactRepo/Duplicate.antt =====
-- persistence/repos/artifact.py: an artifact whose version is taken.
use agentic_cartoon_demo.Base.{
  ◌≡◌, ap, ◌+◌, Any, inl, inr, Bool, true, false, String, List, [], ◌∷◌, map, str_iff, arith,
}
use agentic_cartoon_demo.Exceptions.{err, persistence_duplicate}
use agentic_cartoon_demo.Persistence.Types.{
  JsonValue, ArtifactRecord, ArtifactType, ArtifactCreateSpec,
}
use agentic_cartoon_demo.Persistence.Session.{Db}
use agentic_cartoon_demo.Persistence.Session.Laws.{>>=-err}
use agentic_cartoon_demo.Persistence.ArtifactRepo.{
  artifact_type_eq_iff, deactivate, deactivate_active, has_collision, insert_artifact,
  insert_content, insert_artifact_rows, write_artifact, artifact_record, create_artifact,
}

abbrev pub HasVersion : ArtifactCreateSpec → ArtifactRecord → Type 0
HasVersion spec a =
    (a.workflow_id ≡ spec.workflow_id)
    × (a.artifact_type ≡ spec.artifact_type)
    × (a.version ≡ spec.version)

SameVersion : ArtifactRecord → ArtifactRecord → Type 0
SameVersion new a =
    (a.workflow_id ≡ new.workflow_id)
    × (a.artifact_type ≡ new.artifact_type)
    × (a.version ≡ new.version)

collision :
    (new : ArtifactRecord) (as_ : List ArtifactRecord)
    → Any (SameVersion new) as_
    → has_collision new as_ ≡ true
unfolding SameVersion
collision new [] h = absurd h
collision new (a ∷ as_) (inl h) = ground (
  arith,
  h.0,
  h.1,
  h.2,
  str_iff a.workflow_id new.workflow_id,
  artifact_type_eq_iff a.artifact_type new.artifact_type,
)
collision new (a ∷ as_) (inr h) = ground (arith, collision new as_ h)

deactivated :
    (new : ArtifactRecord) (id : String) (type : ArtifactType) (as_ : List ArtifactRecord)
    → Any (SameVersion new) as_
    → Any (SameVersion new) (map (deactivate id type) as_)
unfolding SameVersion
deactivated new id type [] h = h
deactivated new id type (a ∷ as_) (inl h) = inl (ground arith, ground arith, ground arith)
deactivated new id type (a ∷ as_) (inr h) = inr (deactivated new id type as_ h)

insert-duplicate :
    (new : ArtifactRecord) (db : Db)
    → Any (SameVersion new) db.artifacts
    → insert_artifact new db ≡ (err persistence_duplicate, db)
unfolding insert_artifact
insert-duplicate new db h = ground (arith, collision new db.artifacts h)

rows-duplicate :
    (b : Bool) (new : ArtifactRecord) (content : JsonValue) (db : Db)
    → Any (SameVersion new) db.artifacts
    → (insert_artifact_rows b new content db).0 ≡ err persistence_duplicate
unfolding insert_artifact_rows deactivate_active
rows-duplicate true new content db h =
    ap (λ p. p.0)
      (>>=-err (insert_artifact new)
        (λ _. insert_content (record { artifact_id = new.artifact_id; content = content }))
        (record db { artifacts = map (deactivate new.workflow_id new.artifact_type) db.artifacts })
        (insert-duplicate new
          (record db {
            artifacts = map (deactivate new.workflow_id new.artifact_type) db.artifacts;
          })
          (deactivated new new.workflow_id new.artifact_type db.artifacts h)))
rows-duplicate false new content db h =
    ap (λ p. p.0)
      (>>=-err (insert_artifact new)
        (λ _. insert_content (record { artifact_id = new.artifact_id; content = content })) db
        (insert-duplicate new db h))

write-duplicate :
    (b : Bool) (new : ArtifactRecord) (content : JsonValue) (db : Db)
    → db.in_transaction ≡ true
    → Any (SameVersion new) db.artifacts
    → (write_artifact b new content db).0 ≡ err persistence_duplicate
write-duplicate true new content db inside h = rows-duplicate true new content db h
write-duplicate false new content db inside h =
    ground (arith, inside, rows-duplicate false new content db h)

-- Inside a transaction, an artifact of a workflow, a type and a version that is there already
-- cannot be created, be it active or not: PersistenceDuplicateError.
pub create_artifact-duplicate :
    (spec : ArtifactCreateSpec) (db : Db)
    → db.in_transaction ≡ true
    → Any (HasVersion spec) db.artifacts
    → (create_artifact spec db).0 ≡ err persistence_duplicate
unfolding create_artifact SameVersion
create_artifact-duplicate spec db inside there =
    let new =
      artifact_record spec (db.environment.uuid4 db.requests)
        (db.environment.utcnow (db.requests + 1)) in
    ground (
      arith,
      inside,
      write-duplicate spec.is_active new spec.content (record db { requests = db.requests + 1 + 1 })
          inside there,
    )
