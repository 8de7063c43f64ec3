-- ===== src/Errors.antt =====
-- src/errors.rs: the service's errors, and the status code that the HTTP layer answers with.
use sync_server.Prelude.{ℕ, String, Bool, true, false, ◌≡◌, refl}

-- The payloads of the database, pool and internal errors are other crates' values and left out.
pub data AppError : Type 0 where
  database pool not_found unauthorized forbidden : AppError
  bad_request conflict too_many_requests : String → AppError
  internal : AppError

-- `error_response`
unfoldable pub error_response : AppError → ℕ
error_response AppError.not_found = 404
error_response AppError.unauthorized = 401
error_response AppError.forbidden = 403
error_response (AppError.bad_request m) = 400
error_response (AppError.conflict m) = 409
error_response (AppError.too_many_requests m) = 429
error_response _ = 500

-- `panic` is a thread that panics, as `expect` and `unwrap` do.
pub data Result {ℓ} (A : Type ℓ) : Type ℓ where
  ok : A → Result A
  err : AppError → Result A
  panic : Result A

-- The `?` operator: what is left of a function after a step, where the step did not end it.
module _ {ℓ κ} {Value : Type ℓ} {Next : Type κ} where
  infixl 5 ◌>>=◌
  abbrev pub ◌>>=◌ : Result Value → (Value → Result Next) → Result Next
  panic >>= rest = panic
  ok value >>= rest = rest value
  err error >>= rest = err error

  -- Where the whole succeeds, the step did, and so does the rest on its value.
  pub >>=-eq-ok :
      (step : Result Value) (rest : Value → Result Next) {final : Next}
      → (step >>= rest) ≡ ok final
      → (value : Value) × (step ≡ ok value) × (rest value ≡ ok final)
  >>=-eq-ok panic rest done = cc
  >>=-eq-ok (ok value) rest done = (value, refl, done)
  >>=-eq-ok (err error) rest done = cc

  -- And the other way round.
  pub >>=-ok :
      (step : Result Value) (rest : Value → Result Next) {value : Value} {final : Next}
      → step ≡ ok value
      → rest value ≡ ok final
      → (step >>= rest) ≡ ok final
  >>=-ok step rest stepped done = rw stepped done

infixl 5 ◌>>◌
abbrev pub ◌>>◌ {ℓ} : {Next : Type ℓ} → Result (Unit {0}) → Result Next → Result Next
step >> rest = step >>= λ nothing. rest

-- `if test { return Err(AppError::BadRequest(message)) }`
abbrev pub reject_if : Bool → String → Result (Unit {0})
reject_if true message = err (AppError.bad_request message)
reject_if false message = ok tt
