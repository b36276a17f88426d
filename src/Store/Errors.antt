-- ===== src/Store/Errors.antt =====
-- backend/app/errors.py and `RuntimeContext` of backend/app/context.py. A message is left out: its
-- code and status identify it.
use groundloom.Base.{
  ℕ, String, Bool, true, false, Option, none, List, any, if◌then◌else◌, ◌≡◌, refl,
}
use groundloom.Content.BlockTypes.{mem}
use groundloom.Store.Rows.{Validation}

pub data ErrorCode : Type 0 where
  permission_denied resource_not_found internal_error invalid_state : ErrorCode
  invalid_proposal version_conflict model_output_invalid idempotency_conflict : ErrorCode
  forbidden conflict invalid_input unauthenticated : ErrorCode
  dependency_unavailable outbox_rejected source_not_ready invalid_cursor : ErrorCode

-- The code of an error as the source writes it.
abbrev pub code_text : ErrorCode → String
code_text permission_denied = "PERMISSION_DENIED"
code_text resource_not_found = "RESOURCE_NOT_FOUND"
code_text internal_error = "INTERNAL_ERROR"
code_text invalid_state = "INVALID_STATE"
code_text invalid_proposal = "INVALID_PROPOSAL"
code_text version_conflict = "VERSION_CONFLICT"
code_text model_output_invalid = "MODEL_OUTPUT_INVALID"
code_text idempotency_conflict = "IDEMPOTENCY_CONFLICT"
code_text forbidden = "FORBIDDEN"
code_text conflict = "CONFLICT"
code_text invalid_input = "INVALID_INPUT"
code_text unauthenticated = "UNAUTHENTICATED"
code_text dependency_unavailable = "DEPENDENCY_UNAVAILABLE"
code_text outbox_rejected = "OUTBOX_REJECTED"
code_text source_not_ready = "SOURCE_NOT_READY"
code_text invalid_cursor = "INVALID_CURSOR"

pub data Details : Type 0 where
  no_details : Details
  failed_validation : Validation → Details
  current_version : Option String → Details
  status_details : String → Details

pub record GroundloomError : Type 0 where
  pub code : ErrorCode
  pub status_code : ℕ
  pub details : Details

-- What a call raises: the domain's error, or one that Python, pydantic or the operating system raises.
pub data Raised : Type 0 where
  domain : GroundloomError → Raised
  type_error validation_error no_result_found os_error : Raised

abbrev pub error : ErrorCode → ℕ → Raised
error c n = domain (record { code = c; status_code = n; details = no_details })

pub data Result (A : Type 0) : Type 0 where
  err : Raised → Result A
  ok : A → Result A

abbrev pub is_ok : {A : Type 0} → Result A → Bool
is_ok (err e) = false
is_ok (ok a) = true

infixl 5 ◌>>◌ ◌>>=◌
-- What is raised leaves the function; what is returned goes to the next step.
abbrev pub ◌>>=◌ : {A B : Type 0} (call : Result A) (next : A → Result B) → Result B
err raised >>= next = err raised
ok value >>= next = next value

abbrev pub ◌>>◌ : {A B : Type 0} (call : Result A) (next : Result B) → Result B
call >> next = call >>= λ value. next

abbrev pub raise_if : Bool → Raised → Result (Unit {0})
raise_if b e = if b then err e else ok tt

abbrev pub or_raise : {A : Type 0} → Option A → Raised → Result A
or_raise none e = err e
or_raise (Option.some a) e = ok a

-- A chain that returns has returned at each of its steps.
pub >>=-eq-ok :
    {A B : Type 0} (call : Result A) (next : A → Result B) {result : B}
    → (call >>= next) ≡ ok result
    → (value : A) × (call ≡ ok value) × (next value ≡ ok result)
>>=-eq-ok (err raised) next returns = cc
>>=-eq-ok (ok value) next returns = (value, refl, returns)

pub raise_if-eq-ok :
    {B : Type 0} (t : Bool) (e : Raised) (k : Result B) {b : B}
    → (raise_if t e >> k) ≡ ok b
    → (t ≡ false) × (k ≡ ok b)
raise_if-eq-ok true e k h = cc
raise_if-eq-ok false e k h = (refl, h)

pub or_raise-eq-ok :
    {A : Type 0} (o : Option A) (e : Raised) {a : A} → or_raise o e ≡ ok a → o ≡ Option.some a
or_raise-eq-ok none e h = cc
or_raise-eq-ok (Option.some x) e h = cc

pub record RuntimeContext : Type 0 where
  pub user_id : String
  pub workspace_id : String
  pub roles : List String
  pub correlation_id : String

-- `not self.roles.intersection(allowed)` raises.
unfoldable pub require : RuntimeContext → List String → Result (Unit {0})
require ctx allowed =
    if any (λ r. mem r allowed) ctx.roles then ok tt else err (error permission_denied 403)
