-- ===== src/Login/Token.antt =====
-- What `VerifyLogin` uses of jwt-cpp and of the clock. Times are ticks of `system_clock`; an
-- operation that may throw answers `none` there.
use u_dara_chat.Base.Int.{ℤ}
use u_dara_chat.Base.{ℕ, Bool, List, Option, Text}

-- The error of the library's `verify`: a category and a code that the caller tells apart.
pub data VerifyError : Type 0 where
  signature_error token_expired other_error : VerifyError

pub record JwtLibrary : Type 1 where
  pub Token : Type 0
  pub decode : Text → Option Token
  pub get_algorithm : Token → Option Text
  pub claim_as_integer : Token → Text → Option ℤ
  pub get_issuer : Token → Option Text
  pub get_audience : Token → Option (List Text)
  pub get_issued_at : Token → Option ℕ
  pub get_expires_at : Token → Option ℕ
  -- `verify<LoginClock>` for HS256 with the secret, the issuer, the audience and the leeway, at a
  -- time; `none` is no error.
  pub verify : Text → Text → Text → ℕ → ℕ → Token → Option VerifyError
  pub claim_as_string : Token → Text → Option Text
  pub has_payload_claim : Token → Text → Bool
  -- The elements of an array claim, `none` for one that is no string.
  pub claim_as_array : Token → Text → Option (List (Option Text))

-- `std::chrono::seconds(1)` in ticks (nanoseconds).
abbrev pub second : ℕ
second = 1_000_000_000

-- `JwtTolerance`.
abbrev pub jwt_tolerance : ℕ
jwt_tolerance = 30

-- `maxSeconds`: the largest tick count in seconds, less the tolerance.
abbrev pub max_seconds : ℕ
max_seconds = 9_223_372_006
