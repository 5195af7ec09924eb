-- ===== src/Types/Errors.antt =====
-- src/core/errors.ts: the errors that cross component borders, and what is stored of them.
use watukuy.Base.{
  ℕ, Bool, true, false, String, Option, none, some, List, [], nat_eqb, is_some, ◌&&◌, ◌||◌,
  if◌then◌else◌, ◌==◌, string_eq,
}
use watukuy.Base.Decimal.{decimal}
use Prim.Native.String.{◌++◌}

pub data Source : Type 0 where
  ietf legacy vendor : Source

-- `limit`, `remaining` and `resetAt` are whole numbers here.
pub record RateLimitInfo : Type 0 where
  pub limit : Option ℕ
  pub remaining : Option ℕ
  pub reset_at : Option ℕ
  pub policy : Option String
  pub source : Source

pub record ErrorFrame : Type 0 where
  pub name : String
  pub message : String
  pub code : Option String
  pub status : Option ℕ

-- The chain of `cause` fields is the list `causes`, outermost first.
pub record SerializedError : Type 0 where
  pub frame : ErrorFrame
  pub causes : List ErrorFrame

-- What can be thrown at a caller, by the class of the error; `handler` is an error of the user's own
-- code. An `HttpError` has its message, its status, `retryAfterMs` and `rateLimit`.
pub data Error : Type 0 where
  config : String → Error
  lease_lost : String → String → ℕ → Error
  http : String → ℕ → Option ℕ → Option RateLimitInfo → Error
  store : String → Error
  validation : String → Error
  budget_timeout : String → ℕ → Error
  type_error : String → Error
  aborted : Error
  handler : String → Error

-- HttpError.isThrottle
unfoldable pub is_throttle : Error → Bool
is_throttle (http message status retry_after rate_limit) =
    nat_eqb status 429 || (nat_eqb status 503 && is_some retry_after)
is_throttle _ = false

-- `err instanceof LeaseLostError`
abbrev pub is_lease_lost : Error → Bool
is_lease_lost (lease_lost _ _ _) = true
is_lease_lost _ = false

abbrev frame_of : String → Option String → Option ℕ → String → ErrorFrame
frame_of name code status message = record {
  name = name;
  message = message;
  code = code;
  status = status;
}

-- `name`, `message`, `code` and `status` of an error.
unfoldable pub error_frame : Error → ErrorFrame
error_frame (config message) = frame_of "ConfigError" (some "CONFIG") none message
error_frame (lease_lost poller partition epoch) =
    frame_of "LeaseLostError" (some "LEASE_LOST") none (
      "lease lost for "
      ++ (poller
          ++ ("/"
              ++ ((if partition == "" then "-" else partition)
                  ++ (" (epoch " ++ (decimal epoch ++ "); another instance owns it now"))))))
error_frame (http message status retry_after rate_limit) =
    frame_of "HttpError" (some "HTTP") (some status) message
error_frame (store message) = frame_of "StoreError" (some "STORE") none message
error_frame (validation message) =
    frame_of "ValidationError" (some "VALIDATION") none
      ("item failed schema validation: " ++ message)
error_frame (budget_timeout budget waited) =
    frame_of "BudgetTimeoutError" (some "BUDGET_TIMEOUT") none
      ("budget '" ++ (budget ++ ("' had no tokens after waiting " ++ (decimal waited ++ "ms"))))
error_frame (type_error message) = frame_of "TypeError" none none message
error_frame aborted = frame_of "AbortError" none none "This operation was aborted"
error_frame (handler message) = frame_of "Error" none none message

-- serializeError, for errors without a `cause`
unfoldable pub serialize_error : Error → SerializedError
unfolding error_frame
serialize_error thrown = record { frame = error_frame thrown; causes = [] }
