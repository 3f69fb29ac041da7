-- ===== src/Errors.antt =====
-- crates/router-core/src/error.rs: the classes of failure and the error a caller is given. The message, and
-- the JSON body, which repeats what is here, are left out.
use Prim.Native.String.{String}
use rapidrouter.Prelude.{ℕ, Option, none, some}

pub data ErrorClass : Type 0 where
  invalid_request authentication permission not_found payload_too_large rate_limited
        insufficient_quota upstream_error no_capacity timeout :
      ErrorClass

unfoldable pub http_status : ErrorClass → ℕ
http_status invalid_request = 400
http_status authentication = 401
http_status permission = 403
http_status not_found = 404
http_status payload_too_large = 413
http_status rate_limited = 429
http_status insufficient_quota = 429
http_status upstream_error = 502
http_status no_capacity = 503
http_status timeout = 504

pub record GatewayError : Type 0 where
  pub class : ErrorClass
  pub param : Option String
  pub provider : Option String
  pub upstream_status : Option ℕ

unfoldable pub new_error : ErrorClass → GatewayError
new_error class = record { class = class; param = none; provider = none; upstream_status = none }

unfoldable pub with_param : GatewayError → String → GatewayError
with_param e param = record e { param = some param }

unfoldable pub with_provider : GatewayError → String → GatewayError
with_provider e provider = record e { provider = some provider }

unfoldable pub with_upstream_status : GatewayError → ℕ → GatewayError
with_upstream_status e status = record e { upstream_status = some status }
