-- ===== src/Api/Tests.antt =====
-- Identifiers and approvals that a client sends.
use agentic_cartoon_demo.Base.{◌≡◌, refl, some, none}
use agentic_cartoon_demo.Workflow.Types.{ApprovalAction}
use agentic_cartoon_demo.Api.Validation.{
  accepted, rejected, contains_invalid_characters, validate_workflow_id, validate_approval_body,
}
use agentic_cartoon_demo.Api.Accepted.{IsWorkflowId, validate_workflow_id-IsWorkflowId}

IsWorkflowId-example : IsWorkflowId "wf-1"
unfolding validate_workflow_id
IsWorkflowId-example = validate_workflow_id-IsWorkflowId (some " wf-1 ") "wf-1" refl

slash : validate_workflow_id (some "wf/1") ≡ rejected contains_invalid_characters
unfolding validate_workflow_id
slash = refl

body_key_first :
    validate_approval_body (λ s. s) " APPROVE" none (some "body") (some "header")
    ≡ accepted
        (record { action = ApprovalAction.approve; actor = none; idempotency_key = some "body" })
unfolding validate_approval_body
body_key_first = refl
