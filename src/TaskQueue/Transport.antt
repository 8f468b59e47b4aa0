-- ===== src/TaskQueue/Transport.antt =====
-- A message that the queue took is the one that a worker is handed: task_queue/serializer.py.
use agentic_cartoon_demo.Base.{
  ℕ, ◌≡◌, refl, ap, ◌∙◌, inl, inr, false, Bool-cases, String, show_nat, strip, strip-show_nat,
  show_nat-nonempty, List, Option, none, some, find, ltb, if◌then◌else◌, ◌=str=◌, arith,
}
use agentic_cartoon_demo.Config.{TaskType, task_type_value}
use agentic_cartoon_demo.Worker.Types.{TaskMessage}
use agentic_cartoon_demo.TaskQueue.Validation.{
  Formats, valid, non_empty, parsed_task_type, at_least_one, replace_z, parsed_attempt,
  parse_created_at, decoded_message, validate_decoded, validate,
}
use agentic_cartoon_demo.TaskQueue.Serializer.{RedisFieldMap, get, field_map, encode, decode}

-- The message with its texts stripped.
abbrev pub stripped : TaskMessage → TaskMessage
stripped m = record m {
  task_id = strip m.task_id;
  workflow_id = strip m.workflow_id;
  payload_reference = strip m.payload_reference;
}

-- What the validation of a message that is valid has found.
record IsWhole (m : TaskMessage) : Type 0 where
  task_id_ : (strip m.task_id =str= "") ≡ false
  workflow_id_ : (strip m.workflow_id =str= "") ≡ false
  reference_ : (strip m.payload_reference =str= "") ≡ false
  attempt_ : ltb m.attempt 1 ≡ false

encoded :
    (formats : Formats) (m : TaskMessage) {fields : RedisFieldMap}
    → encode formats m ≡ valid fields
    → (fields ≡ field_map formats m) × IsWhole m
unfolding encode validate
encoded formats m {fields = fields} h = elim (Bool-cases (strip m.task_id =str= "")) [
  | inl e ↦ absurd (ground (arith, e, h))
  | inr a ↦ elim (Bool-cases (strip m.workflow_id =str= "")) [
    | inl e ↦ absurd (ground (arith, a, e, h))
    | inr b ↦ elim (Bool-cases (strip m.payload_reference =str= "")) [
      | inl e ↦ absurd (ground (arith, a, b, e, h))
      | inr c ↦ elim (Bool-cases (ltb m.attempt 1)) [
        | inl e ↦ absurd (ground (arith, a, b, c, e, h))
        | inr d ↦ (
          ground (arith, a, b, c, d, h),
          record { task_id_ = a; workflow_id_ = b; reference_ = c; attempt_ = d },
        )
      ]
    ]
  ]
]

type-found : (t : TaskType) → parsed_task_type (non_empty (some (task_type_value t))) ≡ some t
unfolding task_type_value strip
type-found TaskType.collect = refl
type-found TaskType.select_topic = refl
type-found TaskType.generate_scenario = refl
type-found TaskType.review_scenario = refl

-- A text that is not empty and has no space at its ends.
kept : (s : String) → strip s ≡ s → (s =str= "") ≡ false → non_empty (some s) ≡ some s
kept s h k = ground (arith, h, k)

all_found :
    (m : TaskMessage) (task_id workflow_id reference : Option String) (type : Option TaskType)
    (attempt created_at : Option ℕ) (missing : List String)
    → task_id ≡ some m.task_id
    → workflow_id ≡ some m.workflow_id
    → reference ≡ some m.payload_reference
    → type ≡ some m.task_type
    → attempt ≡ some m.attempt
    → created_at ≡ some m.created_at
    → decoded_message task_id workflow_id reference type attempt created_at missing ≡ valid m
all_found m task_id workflow_id reference type attempt created_at missing a b c d e f =
    rw a (rw b (rw c (rw d (rw e (rw f refl)))))

-- A message that `encode` takes is what `decode` reads from its fields, but for the spaces at the
-- ends of its two identifiers and of its reference, where `int` reads the decimal numeral of its
-- attempt, and `fromisoformat` reads what `strftime` prints of its date, a text that is not empty and
-- has no space at its ends.
pub decode-encode :
    (formats : Formats) (m : TaskMessage) (fields : RedisFieldMap)
    → formats.int_of_text (show_nat m.attempt) ≡ some m.attempt
    → formats.fromisoformat (replace_z (formats.strftime m.created_at)) ≡ some m.created_at
    → strip (formats.strftime m.created_at) ≡ formats.strftime m.created_at
    → (formats.strftime m.created_at =str= "") ≡ false
    → encode formats m ≡ valid fields
    → decode formats fields ≡ valid (stripped m)
unfolding decode get find validate_decoded
decode-encode formats m fields reads dated plain printed h =
    let (e, w) = encoded formats m h in
    let type = type-found m.task_type in
    let attempt =
      kept (show_nat m.attempt) (strip-show_nat m.attempt) (show_nat-nonempty m.attempt) in
    let date = kept (formats.strftime m.created_at) plain printed in
    let ids = λ (s : String) (filled : (strip s =str= "") ≡ false).
      ap (λ b. if b then none else some (strip s)) filled in
    rw e (
      all_found (stripped m) _ _ _ _ _ _ _ (ids m.task_id w.task_id_)
        (ids m.workflow_id w.workflow_id_) (ids m.payload_reference w.reference_) type
        (ap (parsed_attempt formats) attempt
          ∙ ap at_least_one reads
          ∙ ap (λ b. if b then none else some m.attempt) w.attempt_)
        (ap (parse_created_at formats) date ∙ dated))
