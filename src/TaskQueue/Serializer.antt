-- ===== src/TaskQueue/Serializer.antt =====
-- task_queue/serializer.py. The trace context, which telemetry reads, and the decoding of bytes are
-- left out: a map of fields has texts only.
use agentic_cartoon_demo.Base.{String, show_nat, List, [], ◌∷◌, Option, none, some, find}
use agentic_cartoon_demo.Config.{task_type_value}
use agentic_cartoon_demo.Worker.Types.{TaskMessage}
use agentic_cartoon_demo.TaskQueue.Validation.{
  Formats, Checked, valid, invalid, validate, validate_decoded,
}

-- `RedisFieldMap`
abbrev pub RedisFieldMap : Type 0
RedisFieldMap = List (String × String)

abbrev pub value_of : Option (String × String) → Option String
value_of none = none
value_of (some (_, v)) = some v

-- `normalized.get(name)`
unfoldable pub get : String → RedisFieldMap → Option String
unfolding find
get name fields = value_of (find (λ p. p.0) name fields)

-- The dict of `encode`.
abbrev pub field_map : Formats → TaskMessage → RedisFieldMap
field_map formats m =
    ("task_id", m.task_id)
    ∷ ("workflow_id", m.workflow_id)
    ∷ ("task_type", task_type_value m.task_type)
    ∷ ("attempt", show_nat m.attempt)
    ∷ ("created_at", formats.strftime m.created_at)
    ∷ ("payload_reference", m.payload_reference)
    ∷ []

abbrev pub encode_checked : Formats → Checked TaskMessage → Checked RedisFieldMap
encode_checked formats (valid m) = valid (field_map formats m)
encode_checked formats (invalid missing) = invalid missing

-- `encode`
unfoldable pub encode : Formats → TaskMessage → Checked RedisFieldMap
unfolding validate task_type_value show_nat
encode formats m = encode_checked formats (validate m)

-- `decode`
unfoldable pub decode : Formats → RedisFieldMap → Checked TaskMessage
unfolding get validate_decoded
decode formats fields =
    validate_decoded formats (get "task_id" fields) (get "workflow_id" fields)
      (get "task_type" fields) (get "attempt" fields) (get "created_at" fields)
      (get "payload_reference" fields)
