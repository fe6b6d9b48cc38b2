-- ===== src/Login/Verify.antt =====
-- `dara::VerifyLogin`, check by check. An exception of the library ends it with the current stage
-- as the reason.
use u_dara_chat.Base.Int.{ℤ, pos, negsuc}
use u_dara_chat.Base.{
  ℕ, ◌+◌, ◌*◌, Bool, true, false, not, ◌||◌, List, [], ◌∷◌, ◌++◌, Option, none, some, Text, codes,
  text_eq, is_empty, starts_with, any_of, getlines, drop, ltb, leb, if◌then◌else◌,
}
use u_dara_chat.Login.Fields.{Fields, field, add_parts}
use u_dara_chat.Login.Token.{
  JwtLibrary, VerifyError, signature_error, token_expired, other_error, second, jwt_tolerance,
  max_seconds,
}

pub record AuthenticatedLogin : Type 0 where
  pub is_admin : Bool
  pub expires_at : ℕ
  pub character_name : Text
  pub zone : Text

-- `std::nullopt` comes with the reason that is left in `failureReason`.
pub data Result (A : Type 0) : Type 0 where
  accepted : A → Result A
  rejected : Text → Result A

infixl 5 ◌>>=◌ ◌>>◌
abbrev pub ◌>>=◌ : {A B : Type 0} → Result A → (A → Result B) → Result B
accepted a >>= f = f a
rejected r >>= f = rejected r

abbrev pub ◌>>◌ : {B : Type 0} → Result (Unit {0}) → Result B → Result B
m >> k = m >>= λ _. k

-- `if (!test) return reject(reason);`
abbrev pub require : Bool → Text → Result (Unit {0})
require true reason = accepted tt
require false reason = rejected reason

-- A call that may throw, at a stage.
abbrev pub or_throw : {A : Type 0} → Option A → Text → Result A
or_throw none stage = rejected stage
or_throw (some a) stage = accepted a

-- `!fields.count(k) || fields.at(k).empty()`.
unfoldable pub nonempty_field : Text → Fields → Text → Result Text
nonempty_field k m reason = do
  v ← or_throw (field k m) reason
  require (not (is_empty v)) reason
  accepted v

abbrev pub field_or_empty : Option Text → Text
field_or_empty none = []
field_or_empty (some v) = v

-- `value < 0 || value > maxSeconds`, negated.
abbrev pub in_range : ℤ → Bool
in_range (pos n) = leb n max_seconds
in_range (negsuc _) = false

-- The loop over the roles: whether one is `chat_admin`, if all are strings.
unfoldable pub admin_role : List (Option Text) → Result Bool
admin_role [] = accepted false
admin_role (none ∷ rs) = rejected (codes "Invalid JWT roles; expected an array of strings")
admin_role (some r ∷ rs) = do
  later ← admin_role rs
  accepted (text_eq r (codes "chat_admin") || later)

-- The message for an error of the library's own verification.
abbrev pub verify_reason : VerifyError → Text
verify_reason signature_error =
    codes
      "JWT signature verification failed; check that Unreal and chat use the same raw UTF-8 secret and token is unchanged"
verify_reason token_expired =
    codes "JWT timestamp validation failed; check optional nbf and server clocks"
verify_reason other_error = codes "JWT verification failed; check signature and optional nbf claim"

abbrev pub no_error : Option VerifyError → Result (Unit {0})
no_error none = accepted tt
no_error (some e) = rejected (verify_reason e)

-- Splitting the frame into its fields.
unfoldable pub login_fields : Text → Result Fields
login_fields message =
    or_throw (add_parts (getlines b';' (drop 8 message)) [])
      (codes "Malformed login field or duplicate field; expected key=value separated by semicolons")

module _ (jwt : JwtLibrary) where
  -- One round of the loop over `iat` and `exp`.
  unfoldable pub check_date : jwt.Token → Text → Result (Unit {0})
  check_date token claim = do
    let stage =
        codes "Missing or invalid JWT " ++ (claim ++ codes "; expected integer Unix seconds")
    value ← or_throw (jwt.claim_as_integer token claim) stage
    require (in_range value) (stage ++ codes " within supported range")

  -- The checks of the claims, up to the library's own verification.
  unfoldable pub check_claims : jwt.Token → ℕ → Result (Unit {0})
  check_claims token now = do
    algorithm ←
        or_throw (jwt.get_algorithm token)
          (codes "Missing or invalid JWT alg header; HS256 is required")
    require (text_eq algorithm (codes "HS256"))
        (codes "JWT algorithm rejected; only HS256 is allowed")
    check_date token (codes "iat")
    check_date token (codes "exp")
    issuer ←
        or_throw (jwt.get_issuer token)
          (codes "Missing or invalid JWT iss; expected dara-game-server")
    require (text_eq issuer (codes "dara-game-server"))
        (codes "Missing or invalid JWT iss; expected dara-game-server")
    audience ←
        or_throw (jwt.get_audience token) (codes "Missing or invalid JWT aud; expected dara-chat")
    require (any_of (text_eq (codes "dara-chat")) audience)
        (codes "Missing or invalid JWT aud; expected dara-chat")
    expires_at ←
        or_throw (jwt.get_expires_at token) (codes "Missing or invalid JWT aud; expected dara-chat")
    issued_at ←
        or_throw (jwt.get_issued_at token) (codes "Missing or invalid JWT aud; expected dara-chat")
    require (ltb issued_at expires_at) (codes "JWT exp must be later than iat")
    require (ltb now (expires_at + jwt_tolerance * second))
        (codes "JWT expired; obtain a new token from Unreal (30-second tolerance)")
    require (leb issued_at (now + jwt_tolerance * second))
        (codes "JWT iat is in the future; check game/chat server clocks (30-second tolerance)")

  -- The roles, where the token has any.
  unfoldable pub check_roles : jwt.Token → Result Bool
  check_roles token =
      let roles = (do
        rs ←
            or_throw (jwt.claim_as_array token (codes "roles"))
              (codes "Invalid JWT roles; expected an array of strings")
        admin_role rs) in
      if jwt.has_payload_claim token (codes "roles") then roles else accepted false

  unfoldable pub verify_login : Text → Text → ℕ → Result AuthenticatedLogin
  verify_login message secret now = do
    require (not (is_empty secret)) (codes "Server JWT secret is missing or empty")
    require (starts_with (codes "connect:") message) (codes "Expected connect: login text frame")
    fields ← login_fields message
    login_name ← nonempty_field (codes "name") fields (codes "Missing or empty login name")
    pass ← nonempty_field (codes "pass") fields (codes "Missing or empty JWT in pass field")
    token ←
        or_throw (jwt.decode pass)
          (codes "Malformed JWT; expected a compact header.payload.signature token")
    check_claims token now
    no_error
        (jwt.verify secret (codes "dara-game-server") (codes "dara-chat") jwt_tolerance now token)
    name ←
        or_throw (jwt.claim_as_string token (codes "characterName"))
          (codes "Missing or invalid JWT characterName; expected a nonempty string")
    require (not (is_empty name))
        (codes "Missing or invalid JWT characterName; expected a nonempty string")
    require (text_eq login_name name)
        (codes "Login name does not exactly match verified JWT characterName (case-sensitive)")
    is_admin ← check_roles token
    expires_at ← or_throw (jwt.get_expires_at token) (
        if jwt.has_payload_claim token (codes "roles")
        then codes "Invalid JWT roles; expected an array of strings"
        else codes "Missing or invalid JWT characterName; expected a nonempty string")
    accepted (record {
      is_admin = is_admin;
      expires_at = expires_at;
      character_name = name;
      zone = field_or_empty (field (codes "zone") fields);
    })
