-- ===== src/TaskQueue/Tests.antt =====
-- A message on its way through the queue.
use agentic_cartoon_demo.Base.{
  ◌≡◌, refl, show_nat, strip, [], ◌∷◌, some, none, ◌=str=◌, if◌then◌else◌,
}
use agentic_cartoon_demo.Config.{TaskType}
use agentic_cartoon_demo.Worker.Types.{TaskMessage}
use agentic_cartoon_demo.TaskQueue.Validation.{Formats, valid, invalid, replace_z}
use agentic_cartoon_demo.TaskQueue.Serializer.{field_map, encode, decode}
use agentic_cartoon_demo.TaskQueue.Transport.{stripped, decode-encode}

-- Formats that know one numeral and one date.
abbrev formats : Formats
formats = record {
  int_of_text = λ s. if s =str= "3" then some 3 else none;
  strftime = λ _. "2026-01-01T00:00:00.000000Z";
  fromisoformat = λ s. if s =str= "2026-01-01T00:00:00.000000+00:00" then some 7 else none;
}

abbrev message : TaskMessage
message = record {
  task_id = " task ";
  workflow_id = "wf";
  task_type = TaskType.review_scenario;
  attempt = 3;
  created_at = 7;
  payload_reference = "task";
}

decode_example : decode formats (field_map formats message) ≡ valid (stripped message)
unfolding show_nat replace_z strip encode
decode_example = decode-encode formats message (field_map formats message) refl refl refl refl refl

-- Without its attempt and with an empty task, both are named.
refused :
    decode formats (
      ("task_id", " ")
      ∷ ("workflow_id", "wf")
      ∷ ("task_type", "COLLECT")
      ∷ ("created_at", "2026-01-01T00:00:00.000000Z")
      ∷ ("payload_reference", "task")
      ∷ [])
    ≡ invalid ("task_id" ∷ "attempt" ∷ [])
unfolding decode
refused = refl
