-- ===== src/TaskQueue/Validation.antt =====
-- task_queue/validation.py. The parsers of the standard library are parameters.
use agentic_cartoon_demo.Base.{
  ℕ, String, ◌+str+◌, List, [], ◌∷◌, ◌++◌, Option, none, some, if◌then◌else◌, ltb, eqb, ◌=str=◌,
  strip,
}
use Prim.Native.Char.{code}
use agentic_cartoon_demo.Config.{TaskType}
use agentic_cartoon_demo.Worker.Types.{TaskMessage}

-- `int` of a text, where an int below 0 counts as 0, which the code refuses all the same; the text of
-- a datetime in UTC as `strftime` prints it; and the datetime that `fromisoformat` reads, in UTC,
-- which is none for a ValueError and for a datetime without a zone.
pub record Formats : Type 0 where
  pub int_of_text : String → Option ℕ
  pub strftime : ℕ → String
  pub fromisoformat : String → Option ℕ

-- A message, or the `missing_fields` of InvalidTaskMessageError.
pub data Checked {ℓ} (A : Type ℓ) : Type ℓ where
  valid : A → Checked A
  invalid : (missing_fields : List String) → Checked A

-- `_non_empty`
abbrev pub non_empty : Option String → Option String
non_empty none = none
non_empty (some value) = if strip value =str= "" then none else some (strip value)

-- `missing.append(name)` where the field is None.
abbrev pub missing_if {ℓ} : {A : Type ℓ} → Option A → String → List String
missing_if none name = name ∷ []
missing_if (some _) name = []

-- `TaskType(raw)`
abbrev pub task_type_of : String → Option TaskType
task_type_of s =
    if s =str= "COLLECT"
    then some TaskType.collect
    else if s =str= "SELECT_TOPIC"
    then some TaskType.select_topic
    else if s =str= "GENERATE_SCENARIO"
    then some TaskType.generate_scenario
    else if s =str= "REVIEW_SCENARIO"
    then some TaskType.review_scenario
    else none

abbrev pub parsed_task_type : Option String → Option TaskType
parsed_task_type none = none
parsed_task_type (some raw) = task_type_of raw

abbrev pub at_least_one : Option ℕ → Option ℕ
at_least_one none = none
at_least_one (some n) = if ltb n 1 then none else some n

-- `.replace("Z", "+00:00")`
unfoldable pub replace_z : String → String
replace_z String.[] = ""
replace_z (String.◌∷◌ c s) =
    let rest = replace_z s in if eqb (code c) 90 then "+00:00" +str+ rest else String.◌∷◌ c rest

module _ (formats : Formats) where
  abbrev pub parsed_attempt : Option String → Option ℕ
  parsed_attempt none = none
  parsed_attempt (some raw) = at_least_one (formats.int_of_text raw)

  -- `_parse_created_at`
  abbrev pub parse_created_at : Option String → Option ℕ
  parse_created_at none = none
  parse_created_at (some raw) = formats.fromisoformat (replace_z raw)

-- The end of `validate_decoded`: the message, when no field is missing.
abbrev pub decoded_message :
    Option String
    → Option String
    → Option String
    → Option TaskType
    → Option ℕ
    → Option ℕ
    → (missing : List String) → Checked TaskMessage
decoded_message (some task_id) (some workflow_id) (some payload_reference) (some task_type)
      (some attempt) (some created_at) missing =
    valid (record {
      task_id = task_id;
      workflow_id = workflow_id;
      task_type = task_type;
      attempt = attempt;
      created_at = created_at;
      payload_reference = payload_reference;
    })
decoded_message _ _ _ _ _ _ missing = invalid missing

-- `validate_decoded`
unfoldable pub validate_decoded :
    Formats
    → (task_id workflow_id task_type_raw attempt_raw created_at_raw payload_reference : Option
        String)
    → Checked TaskMessage
unfolding strip replace_z
validate_decoded formats task_id workflow_id task_type_raw attempt_raw created_at_raw
      payload_reference =
    let parsed_task_id = non_empty task_id in
    let parsed_workflow_id = non_empty workflow_id in
    let parsed_payload_reference = non_empty payload_reference in
    let task_type = parsed_task_type (non_empty task_type_raw) in
    let attempt = parsed_attempt formats (non_empty attempt_raw) in
    let created_at = parse_created_at formats (non_empty created_at_raw) in
    decoded_message parsed_task_id parsed_workflow_id parsed_payload_reference task_type attempt
      created_at
      (missing_if parsed_task_id "task_id"
        ++ (missing_if parsed_workflow_id "workflow_id"
            ++ (missing_if parsed_payload_reference "payload_reference"
                ++ (missing_if task_type "task_type"
                    ++ (missing_if attempt "attempt" ++ missing_if created_at "created_at")))))

-- The fields that `validate` finds missing; a datetime of the model has a zone.
abbrev pub missing_fields : TaskMessage → List String
missing_fields m =
    missing_if (non_empty (some m.task_id)) "task_id"
    ++ (missing_if (non_empty (some m.workflow_id)) "workflow_id"
        ++ (missing_if (non_empty (some m.payload_reference)) "payload_reference"
            ++ (if ltb m.attempt 1 then "attempt" ∷ [] else [])))

abbrev pub or_missing : List String → TaskMessage → Checked TaskMessage
or_missing [] m = valid m
or_missing (f ∷ fs) m = invalid (f ∷ fs)

-- `validate`
unfoldable pub validate : TaskMessage → Checked TaskMessage
unfolding strip
validate m = or_missing (missing_fields m) m
