-- ===== src/Api/Validation.antt =====
-- api/validation.py, with the limits of api/constants.py. `str.upper` is a parameter.
use agentic_cartoon_demo.Base.{
  ℕ, suc, Bool, true, false, not, ◌&&◌, ◌||◌, String, Option, none, some, if◌then◌else◌, ltb, leb,
  eqb, ◌=str=◌, strip,
}
use Prim.Native.Char.{code}
use agentic_cartoon_demo.Workflow.Types.{ApprovalAction}

-- The messages of ApiValidationError, and the `assert` on a missing identifier.
pub data Refusal : Type 0 where
  must_not_be_empty exceeds_maximum_length contains_invalid_characters : Refusal
  not_an_approval_action assertion_failed : Refusal

pub data Verdict {ℓ} (A : Type ℓ) : Type ℓ where
  accepted : A → Verdict A
  rejected : Refusal → Verdict A

abbrev pub and_check {ℓ κ} : {A : Type ℓ} {B : Type κ} → Verdict A → (A → Verdict B) → Verdict B
and_check (accepted a) f = f a
and_check (rejected r) f = rejected r

-- api/types.py
pub record InitiateWorkflowApiRequest : Type 0 where
  pub workflow_id : Option String
  pub correlation_id : Option String
  pub actor : Option String

pub record SubmitApprovalApiRequest : Type 0 where
  pub action : ApprovalAction
  pub actor : Option String
  pub idempotency_key : Option String

abbrev pub max_workflow_id_len : ℕ
max_workflow_id_len = 128

abbrev pub max_correlation_id_len : ℕ
max_correlation_id_len = 128

abbrev pub max_actor_len : ℕ
max_actor_len = 256

abbrev pub max_idempotency_key_len : ℕ
max_idempotency_key_len = 256

-- `len`
unfoldable pub text_length : String → ℕ
text_length String.[] = 0
text_length (String.◌∷◌ c s) = suc (text_length s)

-- The loop over the characters; it refuses the character 0 as well, for which the code looks first.
unfoldable pub is_printable : String → Bool
is_printable String.[] = true
is_printable (String.◌∷◌ c s) = not (ltb (code c) 32 || ltb 126 (code c)) && is_printable s

-- The letters, the digits, `_` and `-`.
abbrev pub is_id_char : ℕ → Bool
is_id_char c =
    leb 65 c && leb c 90
    || (leb 97 c && leb c 122 || (leb 48 c && leb c 57 || (eqb c 95 || eqb c 45)))

unfoldable pub all_id_chars : String → Bool
all_id_chars String.[] = true
all_id_chars (String.◌∷◌ c s) = is_id_char (code c) && all_id_chars s

-- `WORKFLOW_ID_PATTERN.match`, of a text without a newline at its end.
abbrev pub matches_id : String → Bool
matches_id s = not (s =str= "") && all_id_chars s

abbrev pub sanitize_stripped : String → ℕ → Bool → Verdict (Option String)
sanitize_stripped s max_len allow_empty =
    if s =str= ""
    then (if allow_empty then accepted (some s) else rejected must_not_be_empty)
    else if ltb max_len (text_length s)
    then rejected exceeds_maximum_length
    else if is_printable s
    then accepted (some s)
    else rejected contains_invalid_characters

-- `_sanitize_string`
unfoldable pub sanitize_string : Option String → ℕ → Bool → Verdict (Option String)
unfolding strip text_length is_printable
sanitize_string none max_len allow_empty = accepted none
sanitize_string (some value) max_len allow_empty =
    sanitize_stripped (strip value) max_len allow_empty

abbrev pub matching : Option String → Verdict String
matching none = rejected assertion_failed
matching (some s) = if matches_id s then accepted s else rejected contains_invalid_characters

-- `validate_workflow_id`
unfoldable pub validate_workflow_id : Option String → Verdict String
unfolding sanitize_string all_id_chars
validate_workflow_id raw = and_check (sanitize_string raw max_workflow_id_len false) matching

-- `… if workflow_id is not None else None`
abbrev pub optional_id : Option String → Verdict (Option String)
optional_id none = accepted none
optional_id (some raw) = and_check (validate_workflow_id (some raw)) (λ s. accepted (some s))

-- `validate_initiate_body`
unfoldable pub validate_initiate_body :
    (workflow_id correlation_id actor : Option String) → Verdict InitiateWorkflowApiRequest
unfolding validate_workflow_id sanitize_string
validate_initiate_body workflow_id correlation_id actor = and_check (optional_id workflow_id) (λ id.
    and_check (sanitize_string correlation_id max_correlation_id_len false) (λ correlation.
      and_check (sanitize_string actor max_actor_len false) (λ name.
        accepted (record { workflow_id = id; correlation_id = correlation; actor = name }))))

-- `validate_idempotency_header`
abbrev pub validate_idempotency_header : Option String → Verdict (Option String)
validate_idempotency_header raw = sanitize_string raw max_idempotency_key_len false

-- `ApprovalAction(…)`
abbrev pub approval_action : String → Verdict ApprovalAction
approval_action s =
    if s =str= "APPROVE"
    then accepted ApprovalAction.approve
    else if s =str= "REJECT"
    then accepted ApprovalAction.reject
    else if s =str= "REQUEST_REGENERATION"
    then accepted ApprovalAction.request_regeneration
    else rejected not_an_approval_action

-- The key of the body comes before the one of the header.
abbrev pub resolved_key : Option String → Option String → Option String
resolved_key none header_key = header_key
resolved_key (some key) header_key = some key

-- `validate_approval_body`
unfoldable pub validate_approval_body :
    (upper : String → String) (action : String)
    (actor idempotency_key header_idempotency_key : Option String)
    → Verdict SubmitApprovalApiRequest
unfolding sanitize_string strip
validate_approval_body upper action actor idempotency_key header_idempotency_key =
    and_check (approval_action (upper (strip action))) (λ parsed_action.
      and_check (sanitize_string actor max_actor_len false) (λ validated_actor.
        and_check (sanitize_string idempotency_key max_idempotency_key_len false) (λ body_key.
          and_check (validate_idempotency_header header_idempotency_key) (λ header_key.
            accepted (record {
              action = parsed_action;
              actor = validated_actor;
              idempotency_key = resolved_key body_key header_key;
            })))))
