-- ===== src/Core/Errors.antt =====
-- src/ragplan/core/errors.py, and the exceptions that the modelled code raises and catches.
-- The messages of exceptions are left out: no modelled code reads one.
use oss.Prelude.{ap, ◌∙◌, ◌⊎◌, inl, inr, Bool, true, false, ℕ, Option, none, some, ◌≡◌, refl}

pub data ErrorCode : Type 0 where
  invalid_request invalid_query plan_invariant_violation not_ready : ErrorCode
  dependency_unavailable mode_unavailable overloaded deadline_exceeded : ErrorCode
  model_incompatible corpus_inconsistent retrieval_failed internal_error : ErrorCode

pub data TimeoutOrigin : Type 0 where
  application_deadline backend_client : TimeoutOrigin

-- HTTP_STATUS_BY_ERROR
unfoldable pub http_status_by_error : ErrorCode → ℕ
http_status_by_error invalid_request = 422
http_status_by_error invalid_query = 422
http_status_by_error plan_invariant_violation = 422
http_status_by_error not_ready = 503
http_status_by_error dependency_unavailable = 503
http_status_by_error mode_unavailable = 503
http_status_by_error overloaded = 503
http_status_by_error deadline_exceeded = 504
http_status_by_error model_incompatible = 503
http_status_by_error corpus_inconsistent = 503
http_status_by_error retrieval_failed = 503
http_status_by_error internal_error = 500

-- RETRYABLE_BY_ERROR
unfoldable pub retryable_by_error : ErrorCode → Bool
retryable_by_error not_ready = true
retryable_by_error dependency_unavailable = true
retryable_by_error mode_unavailable = true
retryable_by_error overloaded = true
retryable_by_error deadline_exceeded = true
retryable_by_error retrieval_failed = true
retryable_by_error _ = false

-- RAGPlanError, without its message
pub record RagplanError : Type 0 where
  pub code : ErrorCode
  pub retryable : Bool
  pub timeout_origin : Option TimeoutOrigin

retryable_or : Option Bool → ErrorCode → Bool
unfolding retryable_by_error
retryable_or none code = retryable_by_error code
retryable_or (some b) code = b

-- RAGPlanError.__init__
unfoldable pub ragplan_error : ErrorCode → Option Bool → Option TimeoutOrigin → RagplanError
unfolding retryable_or
ragplan_error code retryable origin = record {
  code = code;
  retryable = retryable_or retryable code;
  timeout_origin = origin;
}

-- What `cancel(message)` hands to the cancelled task.
pub data CancelMessage : Type 0 where
  no_message client_disconnect_message engine_shutdown_message other_message : CancelMessage

pub data Exception : Type 0 where
  value_error type_error key_error circuit_open : Exception
  rag : RagplanError → Exception
  cancelled : CancelMessage → Exception
  other_exception : Exception

pub data Result {ℓ} (A : Type ℓ) : Type ℓ where
  ok : A → Result A
  raise : Exception → Result A

-- What follows a call is left out when the call raises.
infixl 5 ◌>>=◌ ◌>>◌
abbrev pub ◌>>=◌ {ℓ ℓ'} : {X : Type ℓ} {Y : Type ℓ'} → Result X → (X → Result Y) → Result Y
raise e >>= next = raise e
ok x >>= next = next x

-- `if test: raise error`
abbrev pub raise_if : Bool → Exception → Result (Unit {0})
raise_if false e = ok tt
raise_if true e = raise e

abbrev pub ◌>>◌ {ℓ} : {Y : Type ℓ} → Result (Unit {0}) → Result Y → Result Y
call >> rest = call >>= λ _. rest

-- A chain that returns has returned at its first call.
pub returned_first {ℓ ℓ'} :
    {X : Type ℓ} {Y : Type ℓ'} (next : X → Result Y) (call : Result X) (y : Y)
    → (call >>= next) ≡ ok y
    → (x : X) × (next x ≡ ok y) × (call ≡ ok x)
returned_first next (raise e) y h = absurd (cc)
returned_first next (ok x) y h = (x, h, refl)

pub Result-cases {ℓ} :
    {A : Type ℓ} (r : Result A) → ((e : Exception) × (r ≡ raise e)) ⊎ ((a : A) × (r ≡ ok a))
Result-cases (raise e) = inl (e, refl)
Result-cases (ok a) = inr (a, refl)

-- A guard that is passed: its test fails, and what follows it has returned.
pub guard_passed {ℓ} :
    {Y : Type ℓ} (test : Bool) (e : Exception) (rest : Result Y) (y : Y)
    → (raise_if test e >> rest) ≡ ok y
    → (test ≡ false) × (rest ≡ ok y)
guard_passed true e rest y h = absurd (cc)
guard_passed false e rest y h = (refl, h)

-- The same, for a proof that goes on with the value as a variable.
pub on_return {ℓ ℓ' κ} :
    {X : Type ℓ} {Y : Type ℓ'} {Q : Type κ} (next : X → Result Y) (call : Result X) (y : Y)
    → (call >>= next) ≡ ok y
    → ((x : X) → call ≡ ok x → next x ≡ ok y → Q)
    → Q
on_return next (raise e) y h k = absurd (cc)
on_return next (ok x) y h k = k x refl h

pub ok_injective {ℓ} : {A : Type ℓ} {a b : A} → ok a ≡ ok b → a ≡ b
ok_injective h = cc

-- A chain returns if its first call does and what follows does.
pub returns_then {ℓ ℓ'} :
    {X : Type ℓ} {Y : Type ℓ'} (next : X → Result Y) (call : Result X) (x : X)
    → call ≡ ok x
    → (y : Y) × (next x ≡ ok y)
    → (y : Y) × ((call >>= next) ≡ ok y)
returns_then next (raise e) x h k = absurd (cc)
returns_then next (ok x') x h (y, k) = (y, ap next (ok_injective h) ∙ k)
