-- ===== src/Api/Accepted.antt =====
-- What is known of an identifier that the API accepts: api/validation.py.
use agentic_cartoon_demo.Base.{
  ℕ, ◌≤◌, ◌≡◌, refl, ap, ◌∙◌, sym, inl, inr, true, false, Bool-cases, String, strip, strip-visible,
  is_visible, Option, none, some, ltb, ◌=str=◌, arith,
}
use agentic_cartoon_demo.Api.Validation.{
  accepted, text_length, is_printable, all_id_chars, sanitize_stripped, sanitize_string, matching,
  max_workflow_id_len, and_check, validate_workflow_id,
}

-- What is known of an accepted identifier.
pub record IsWorkflowId (s : String) : Type 0 where
  pub filled : (s =str= "") ≡ false
  pub bounded : text_length s ≤ 128
  pub characters : all_id_chars s ≡ true
  pub again : validate_workflow_id (some s) ≡ accepted s

id_chars-visible : (s : String) → all_id_chars s ≡ true → is_visible s ≡ true
unfolding all_id_chars is_visible
id_chars-visible String.[] h = refl
id_chars-visible (String.◌∷◌ c s) h = ground (arith, id_chars-visible s)

checked :
    (t s : String)
    → and_check (sanitize_stripped t max_workflow_id_len false) matching ≡ accepted s
    → (t ≡ s)
      × ((t =str= "") ≡ false)
      × (ltb 128 (text_length t) ≡ false)
      × (is_printable t ≡ true)
      × (all_id_chars t ≡ true)
checked t s h = elim (Bool-cases (t =str= "")) [
  | inl e ↦ absurd (ground (arith, e, h))
  | inr a ↦ elim (Bool-cases (ltb 128 (text_length t))) [
    | inl e ↦ absurd (ground (arith, a, e, h))
    | inr b ↦ elim (Bool-cases (is_printable t)) [
      | inr e ↦ absurd (ground (arith, a, b, e, h))
      | inl c ↦ elim (Bool-cases (all_id_chars t)) [
        | inr e ↦ absurd (ground (arith, a, b, c, e, h))
        | inl d ↦ (ground (arith, a, b, c, d, h), a, b, c, d)
      ]
    ]
  ]
]

rechecked :
    (s : String)
    → (s =str= "") ≡ false
    → ltb 128 (text_length s) ≡ false
    → is_printable s ≡ true
    → all_id_chars s ≡ true
    → and_check (sanitize_stripped s max_workflow_id_len false) matching ≡ accepted s
rechecked s a b c d = ground (arith, a, b, c, d)

bound : (n : ℕ) → ltb 128 n ≡ false → n ≤ 128
bound n h = ground arith

-- An identifier that the API accepts is not empty, has 128 characters at most, each of them a letter,
-- a digit, an underscore or a hyphen, and is accepted again, as it is.
pub validate_workflow_id-IsWorkflowId :
    (raw : Option String) (s : String) → validate_workflow_id raw ≡ accepted s → IsWorkflowId s
unfolding validate_workflow_id sanitize_string
validate_workflow_id-IsWorkflowId none s h = cc
validate_workflow_id-IsWorkflowId (some raw) s h =
    let (e, a, b, c, d) = checked (strip raw) s h in
    let chars = ap all_id_chars (sym e) ∙ d in
    let filled = ap (λ t. t =str= "") (sym e) ∙ a in
    let short = ap (λ t. ltb 128 (text_length t)) (sym e) ∙ b in
    let plain = strip-visible s (id_chars-visible s chars) in
    record {
      filled = filled;
      bounded = bound (text_length s) short;
      characters = chars;
      again =
          ap (λ t. and_check (sanitize_stripped t max_workflow_id_len false) matching) plain
          ∙ rechecked s filled short (ap is_printable (sym e) ∙ c) chars;
    }
