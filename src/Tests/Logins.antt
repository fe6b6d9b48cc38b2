-- ===== src/Tests/Logins.antt =====
-- Login frames, with a JWT library that knows one token.
use u_dara_chat.Base.Int.{pos}
use u_dara_chat.Base.{
  ◌≡◌, refl, true, [], ◌∷◌, some, none, Text, codes, text_eq, starts_with, getlines, any_of,
  if◌then◌else◌,
}
use u_dara_chat.Chat.Message.{find_first}
use u_dara_chat.Login.Fields.{field, emplace, add_part, add_parts}
use u_dara_chat.Login.Roles.{HasAdminRole, verify_login_admin}
use u_dara_chat.Login.Soundness.{IsAuthentic, verify_login-IsAuthentic}
use u_dara_chat.Login.Token.{JwtLibrary}
use u_dara_chat.Login.Verify.{
  AuthenticatedLogin, accepted, nonempty_field, admin_role, login_fields, check_date, check_claims,
  check_roles, verify_login,
}

-- The payload `t` is a token for Ann, an administrator, from second 100 to second 200.
abbrev pub one_token : JwtLibrary
one_token = record {
  Token = Unit {0};
  decode = λ t. if text_eq t (codes "t") then some tt else none;
  get_algorithm = λ _. some (codes "HS256");
  claim_as_integer = λ _ _. some (pos 100);
  get_issuer = λ _. some (codes "dara-game-server");
  get_audience = λ _. some (codes "dara-chat" ∷ []);
  get_issued_at = λ _. some 100_000_000_000;
  get_expires_at = λ _. some 200_000_000_000;
  verify = λ _ _ _ _ _ _. none;
  claim_as_string = λ _ _. some (codes "Ann");
  has_payload_claim = λ _ _. true;
  claim_as_array = λ _ _. some (some (codes "chat_admin") ∷ []);
}

abbrev frame : Text
frame = codes "connect:name=Ann;zone=Z;pass=t"

abbrev secret : Text
secret = codes "s"

abbrev ann_login : AuthenticatedLogin
ann_login = record {
  is_admin = true;
  expires_at = 200_000_000_000;
  character_name = codes "Ann";
  zone = codes "Z";
}

ann_accepted : verify_login one_token frame secret 150_000_000_000 ≡ accepted ann_login
unfolding verify_login login_fields starts_with add_parts getlines add_part find_first emplace field
    text_eq nonempty_field check_claims check_date any_of check_roles admin_role
ann_accepted = refl

verify_login-IsAuthentic_example : IsAuthentic one_token frame secret 150_000_000_000 ann_login
verify_login-IsAuthentic_example =
    verify_login-IsAuthentic one_token frame secret 150_000_000_000 ann_accepted

verify_login_admin_example :
    HasAdminRole one_token
      (verify_login-IsAuthentic one_token frame secret 150_000_000_000 ann_accepted).token
verify_login_admin_example =
    verify_login_admin one_token frame secret 150_000_000_000 ann_login ann_accepted refl
