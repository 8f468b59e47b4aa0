-- ===== src/Persistence/ArtifactRepo/RoundTrip.antt =====
-- persistence/repos/artifact.py: an artifact that was created is found again.
use agentic_cartoon_demo.Base.{
  ◌≡◌, refl, ap, ◌∙◌, sym, subst₂, ◌+◌, leb, insert_sorted, if◌then◌else◌, Bool, true, false,
  String, List, [], ◌∷◌, ◌++◌, none, some, map, filter, find, find-append, sort, str_refl, arith,
}
use agentic_cartoon_demo.Exceptions.{ok}
use agentic_cartoon_demo.Persistence.Types.{
  JsonValue, ArtifactRecord, ArtifactType, ArtifactCreateSpec, ArtifactContent,
}
use agentic_cartoon_demo.Persistence.Session.{
  Db, pure, ◌>>=◌, ◌>>◌, now, new_uuid, require_active_transaction,
}
use agentic_cartoon_demo.Persistence.Session.Laws.{>>=-ok, pure-ok}
use agentic_cartoon_demo.Persistence.ArtifactRepo.{
  artifact_type_eq_iff, artifact_key, content_key, deactivate, deactivate_active, has_collision,
  insert_artifact, insert_content, insert_artifact_rows, write_artifact, store_artifact,
  artifact_record, create_artifact, get_artifact, get_artifact_content, is_listed, list_artifacts,
  get_active_artifact, first,
}

insert_artifact-ok :
    (new : ArtifactRecord) (db : Db) {r : Unit {0}} {after : Db}
    → insert_artifact new db ≡ (ok r, after)
    → (has_collision new db.artifacts ≡ false)
      × (after ≡ record db { artifacts = db.artifacts ++ new ∷ [] })
unfolding insert_artifact
insert_artifact-ok new db h = (ground arith, ground arith)

insert_content-ok :
    (c : ArtifactContent) (db : Db) {r : Unit {0}} {after : Db}
    → insert_content c db ≡ (ok r, after)
    → (find content_key c.artifact_id db.artifact_content ≡ none)
      × (after ≡ record db { artifact_content = db.artifact_content ++ c ∷ [] })
unfolding insert_content
insert_content-ok c db h = (ground arith, ground arith)

-- No row is active for the workflow and the type once they are deactivated.
none_active :
    (id : String) (type : ArtifactType) (as_ : List ArtifactRecord)
    → filter (is_listed id (some type) true) (map (deactivate id type) as_) ≡ []
none_active id type [] = refl
none_active id type (a ∷ as_) = ground (arith, none_active id type as_)

-- What a creation leaves behind.
pub record IsStored (db after : Db) (spec : ArtifactCreateSpec) (a : ArtifactRecord) : Type 0 where
  pub same_workflow : a.workflow_id ≡ spec.workflow_id
  pub same_type : a.artifact_type ≡ spec.artifact_type
  pub active : a.is_active ≡ true
  pub new_artifact :
      has_collision a (map (deactivate a.workflow_id a.artifact_type) db.artifacts) ≡ false
  pub new_content : find content_key a.artifact_id db.artifact_content ≡ none
  pub artifacts_ :
      after.artifacts ≡ map (deactivate a.workflow_id a.artifact_type) db.artifacts ++ a ∷ []
  pub content_ :
      after.artifact_content
      ≡ db.artifact_content ++ record { artifact_id = a.artifact_id; content = spec.content } ∷ []

insert_rows-ok :
    (new : ArtifactRecord) (content : JsonValue) (db : Db) {r : Unit {0}} {after : Db}
    → insert_artifact_rows true new content db ≡ (ok r, after)
    → let old = map (deactivate new.workflow_id new.artifact_type) db.artifacts in
      let row : ArtifactContent = record { artifact_id = new.artifact_id; content = content } in
      (has_collision new old ≡ false)
      × (find content_key new.artifact_id db.artifact_content ≡ none)
      × (after ≡ record db {
        artifacts = old ++ new ∷ [];
        artifact_content = db.artifact_content ++ row ∷ [];
      })
unfolding insert_artifact_rows deactivate_active
insert_rows-ok new content db h =
    let old = map (deactivate new.workflow_id new.artifact_type) db.artifacts in
    let row : ArtifactContent = record { artifact_id = new.artifact_id; content = content } in
    let start : Db = record db { artifacts = old } in
    let (_, mid, h₁, k₁) = >>=-ok (insert_artifact new) (λ _. insert_content row) start h in
    let (free, e) = insert_artifact-ok new start h₁ in
    let (unused, f) = insert_content-ok row mid k₁ in
    (
      free,
      ap (λ (d : Db). find content_key new.artifact_id d.artifact_content) (sym e) ∙ unused,
      cc (e, f),
    )

required :
    (b : Bool) (db : Db) {r : Unit {0}} {after : Db}
    → (if b then require_active_transaction else pure tt) db ≡ (ok r, after)
    → after ≡ db
required b db h = ground arith

create_artifact-IsStored :
    (spec : ArtifactCreateSpec) (db : Db) {a : ArtifactRecord} {after : Db}
    → spec.is_active ≡ true
    → create_artifact spec db ≡ (ok a, after)
    → IsStored db after spec a
unfolding create_artifact
create_artifact-IsStored spec db {a = a} {after = after} active h =
    let (_, mid, h₁, k₁) =
      >>=-ok (if spec.is_active then require_active_transaction else pure tt)
        (λ _. new_uuid >>= λ id. now >>= λ t. store_artifact spec (artifact_record spec id t)) db
        h in
    let e = required spec.is_active db h₁ in
    let id = db.environment.uuid4 db.requests in
    let new = artifact_record spec id (db.environment.utcnow (db.requests + 1)) in
    let asked : Db = record db { requests = db.requests + 1 + 1 } in
    let stored =
      ap (λ b. (write_artifact b new spec.content >> pure new) asked) (sym active)
      ∙ ap
          (λ (d : Db).
            (new_uuid >>= λ id. now >>= λ t. store_artifact spec (artifact_record spec id t)) d)
          (sym e)
      ∙ k₁ in
    let (_, end, h₂, k₂) =
      >>=-ok (insert_artifact_rows true new spec.content) (λ _. pure new) asked stored in
    let (free, unused, wrote) = insert_rows-ok new spec.content asked h₂ in
    let (same, ended) = pure-ok new end k₂ in
    subst₂ (λ x d. IsStored db d spec x) same ended
      (record {
        same_workflow = refl;
        same_type = refl;
        active = active;
        new_artifact = free;
        new_content = unused;
        artifacts_ = ap (λ (d : Db). d.artifacts) wrote;
        content_ = ap (λ (d : Db). d.artifact_content) wrote;
      })

fresh-find :
    (new : ArtifactRecord) (as_ : List ArtifactRecord)
    → has_collision new as_ ≡ false
    → find artifact_key new.artifact_id (as_ ++ new ∷ []) ≡ some new
unfolding find
fresh-find new [] h = ground (arith, str_refl new.artifact_id)
fresh-find new (a ∷ as_) h = ground (arith, fresh-find new as_)

filter-append :
    (p : ArtifactRecord → Bool) (xs ys : List ArtifactRecord)
    → filter p (xs ++ ys) ≡ filter p xs ++ filter p ys
filter-append p [] ys = refl
filter-append p (x ∷ xs) ys = ground (arith, filter-append p xs ys)

module _ (spec : ArtifactCreateSpec) (db after : Db) (a : ArtifactRecord)
    (s : IsStored db after spec a) where
  listed : filter (is_listed a.workflow_id (some a.artifact_type) true) after.artifacts ≡ a ∷ []
  listed =
      let p = is_listed a.workflow_id (some a.artifact_type) true in
      let old = map (deactivate a.workflow_id a.artifact_type) db.artifacts in
      ap (filter p) s.artifacts_
      ∙ filter-append p old (a ∷ [])
      ∙ ground (
        arith,
        none_active a.workflow_id a.artifact_type db.artifacts,
        s.active,
        str_refl a.workflow_id,
        (artifact_type_eq_iff a.artifact_type a.artifact_type).1 refl,
      )

  active_found : get_active_artifact a.workflow_id a.artifact_type after ≡ (ok (some a), after)
  unfolding get_active_artifact list_artifacts sort insert_sorted
  active_found = ap (λ l. (ok (first (sort (λ x y. leb x.version y.version) l)), after)) listed

  artifact_found : get_artifact a.artifact_id after ≡ (ok (some a), after)
  unfolding get_artifact
  artifact_found =
      ap (λ o. (ok o, after))
        (ap (find artifact_key a.artifact_id) s.artifacts_
          ∙ fresh-find a (map (deactivate a.workflow_id a.artifact_type) db.artifacts)
              s.new_artifact)

  content_found : get_artifact_content a.artifact_id after ≡ (ok spec.content, after)
  unfolding get_artifact_content find
  content_found =
      let row : ArtifactContent = record { artifact_id = a.artifact_id; content = spec.content } in
      ground (
        arith,
        s.content_,
        s.new_content,
        find-append content_key a.artifact_id db.artifact_content (row ∷ []),
        str_refl a.artifact_id,
      )

-- A creation of an active artifact that returns is read back: it is then the active artifact of its
-- workflow and type, it is found under its identifier, and its content is the one that was given.
pub create_artifact-found :
    (spec : ArtifactCreateSpec) (db : Db) {a : ArtifactRecord} {after : Db}
    → spec.is_active ≡ true
    → create_artifact spec db ≡ (ok a, after)
    → (get_active_artifact spec.workflow_id spec.artifact_type after ≡ (ok (some a), after))
      × (get_artifact a.artifact_id after ≡ (ok (some a), after))
      × (get_artifact_content a.artifact_id after ≡ (ok spec.content, after))
create_artifact-found spec db {a = a} {after = after} active h =
    let s = create_artifact-IsStored spec db active h in
    (
      subst₂ (λ id type. get_active_artifact id type after ≡ (ok (some a), after)) s.same_workflow
          s.same_type (active_found spec db after a s),
      artifact_found spec db after a s,
      content_found spec db after a s,
    )
