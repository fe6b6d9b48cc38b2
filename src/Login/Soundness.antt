-- ===== src/Login/Soundness.antt =====
-- What an accepted login proves of the frame, the token and the time.
use u_dara_chat.Base.{
  ℕ, ◌+◌, ◌*◌, ◌≤◌, ◌<◌, ◌≡◌, refl, ap, ◌∙◌, ◌≢◌, Bool, true, false, not, List, [], ◌∷◌, Option,
  none, some, Text, codes, text_eq, text_eq_iff, is_empty, is_empty_iff, starts_with, any_of, ltb,
  ltb→lt, leb→le, arith,
}
use u_dara_chat.Login.Fields.{Fields, field}
use u_dara_chat.Login.Token.{JwtLibrary, VerifyError, second, jwt_tolerance}
use u_dara_chat.Login.Verify.{
  AuthenticatedLogin, Result, accepted, rejected, ◌>>=◌, ◌>>◌, require, or_throw, nonempty_field,
  no_error, login_fields, check_date, check_claims, check_roles, verify_login,
}

pub bind-eq-accepted :
    {A B : Type 0} (m : Result A) (f : A → Result B) {b : B}
    → m >>= f ≡ accepted b
    → (a : A) × (m ≡ accepted a) × (f a ≡ accepted b)
bind-eq-accepted (accepted a) f e = (a, refl, e)
bind-eq-accepted (rejected r) f e = cc

require-eq-accepted :
    {B : Type 0} (t : Bool) (r : Text) (k : Result B) {b : B}
    → require t r >> k ≡ accepted b
    → (t ≡ true) × (k ≡ accepted b)
require-eq-accepted true r k e = (refl, e)
require-eq-accepted false r k e = cc

pub or_throw-eq-accepted :
    {A B : Type 0} (o : Option A) (s : Text) (f : A → Result B) {b : B}
    → or_throw o s >>= f ≡ accepted b
    → (a : A) × (o ≡ some a) × (f a ≡ accepted b)
or_throw-eq-accepted (some a) s f e = (a, refl, e)
or_throw-eq-accepted none s f e = cc

nonempty_field-eq :
    (k : Text) (m : Fields) (r : Text) {v : Text}
    → nonempty_field k m r ≡ accepted v
    → (field k m ≡ some v) × (v ≢ [])
unfolding nonempty_field
nonempty_field-eq k m r {v} e =
    let (a, found, rest) = or_throw-eq-accepted (field k m) r _ e in
    let (test, last) = require-eq-accepted (not (is_empty a)) r (accepted a) rest in
    ground (arith, is_empty_iff a)

-- The value of an accepted result, and `d` for a rejected one.
abbrev unwrap : AuthenticatedLogin → Result AuthenticatedLogin → AuthenticatedLogin
unwrap d (accepted l) = l
unwrap d (rejected r) = d

nonempty-ne-nil : (t : Text) → not (is_empty t) ≡ true → t ≢ []
nonempty-ne-nil [] e = cc
nonempty-ne-nil (c ∷ t) e = λ q. cc

require-accepted : (t : Bool) (r : Text) → require t r ≡ accepted tt → t ≡ true
require-accepted true r e = refl
require-accepted false r e = cc

no_error-none : (o : Option VerifyError) {u : Unit {0}} → no_error o ≡ accepted u → o ≡ none
no_error-none none e = refl
no_error-none (some x) e = cc

module _ (jwt : JwtLibrary) where
  -- The claims of a token that `VerifyLogin` goes on with.
  pub record ClaimsHold (token : jwt.Token) (now : ℕ) : Type 0 where
    pub algorithm : jwt.get_algorithm token ≡ some (codes "HS256")
    pub issuer : jwt.get_issuer token ≡ some (codes "dara-game-server")
    pub audience : List Text
    pub audience_is : jwt.get_audience token ≡ some audience
    pub for_chat : any_of (text_eq (codes "dara-chat")) audience ≡ true
    pub expires_at : ℕ
    pub issued_at : ℕ
    pub expires_is : jwt.get_expires_at token ≡ some expires_at
    pub issued_is : jwt.get_issued_at token ≡ some issued_at
    pub ordered : issued_at < expires_at
    pub not_expired : now < expires_at + jwt_tolerance * second
    pub not_future : issued_at ≤ now + jwt_tolerance * second

  check_claims-ClaimsHold :
      (token : jwt.Token) (now : ℕ)
      → check_claims jwt token now ≡ accepted tt
      → ClaimsHold token now
  unfolding check_claims
  check_claims-ClaimsHold token now e =
      let (alg, a1, e1) = or_throw-eq-accepted (jwt.get_algorithm token) _ _ e in
      let (a2, e2) = require-eq-accepted (text_eq alg (codes "HS256")) _ _ e1 in
      let (_, _, e3) = bind-eq-accepted (check_date jwt token (codes "iat")) _ e2 in
      let (_, _, e4) = bind-eq-accepted (check_date jwt token (codes "exp")) _ e3 in
      let (iss, a5, e5) = or_throw-eq-accepted (jwt.get_issuer token) _ _ e4 in
      let (a6, e6) = require-eq-accepted (text_eq iss (codes "dara-game-server")) _ _ e5 in
      let (aud, a7, e7) = or_throw-eq-accepted (jwt.get_audience token) _ _ e6 in
      let (a8, e8) = require-eq-accepted (any_of (text_eq (codes "dara-chat")) aud) _ _ e7 in
      let (exp, a9, e9) = or_throw-eq-accepted (jwt.get_expires_at token) _ _ e8 in
      let (iat, a10, e10) = or_throw-eq-accepted (jwt.get_issued_at token) _ _ e9 in
      let (a11, e11) = require-eq-accepted (ltb iat exp) _ _ e10 in
      let (a12, e12) = require-eq-accepted (ltb now (exp + jwt_tolerance * second)) _ _ e11 in
      record {
        algorithm = a1 ∙ ap some ((text_eq_iff alg _).0 a2);
        issuer = a5 ∙ ap some ((text_eq_iff iss _).0 a6);
        audience = aud;
        audience_is = a7;
        for_chat = a8;
        expires_at = exp;
        issued_at = iat;
        expires_is = a9;
        issued_is = a10;
        ordered = ltb→lt iat exp a11;
        not_expired = ltb→lt now _ a12;
        not_future = leb→le iat _ (require-accepted _ _ e12);
      }

  -- A login that was accepted, traced back to the frame, the token and the library's verdict.
  pub record IsAuthentic (message secret : Text) (now : ℕ) (login : AuthenticatedLogin)
      : Type 0 where
    pub fields : Fields
    pub pass : Text
    pub token : jwt.Token
    pub secret_ne_nil : secret ≢ []
    pub is_connect : starts_with (codes "connect:") message ≡ true
    pub fields_are : login_fields message ≡ accepted fields
    pub pass_is : field (codes "pass") fields ≡ some pass
    pub decoded : jwt.decode pass ≡ some token
    pub claims : ClaimsHold token now
    pub verified :
        jwt.verify secret (codes "dara-game-server") (codes "dara-chat") jwt_tolerance now token
        ≡ none
    pub name_signed : jwt.claim_as_string token (codes "characterName") ≡ some login.character_name
    pub name_ne_nil : login.character_name ≢ []
    pub name_claimed : field (codes "name") fields ≡ some login.character_name
    pub expiry_signed : jwt.get_expires_at token ≡ some login.expires_at
    pub roles : check_roles jwt token ≡ accepted login.is_admin

  -- Every accepted login is authentic: the secret is not empty, the frame has the prefix and a list
  -- of distinct `key=value` fields, the token of its `pass` field decodes, says HS256 and has the
  -- issuer, the audience and a period that holds the present with 30 seconds of tolerance, the
  -- library's verification with the secret has no error, and the character is the nonempty name
  -- that both the token and the frame's `name` field give.
  pub verify_login-IsAuthentic :
      (message secret : Text) (now : ℕ) {login : AuthenticatedLogin}
      → verify_login jwt message secret now ≡ accepted login
      → IsAuthentic message secret now login
  unfolding verify_login
  verify_login-IsAuthentic message secret now {login} e =
      let (b1, e1) = require-eq-accepted (not (is_empty secret)) _ _ e in
      let (b2, e2) = require-eq-accepted (starts_with (codes "connect:") message) _ _ e1 in
      let (fields, b3, e3) = bind-eq-accepted (login_fields message) _ e2 in
      let (login_name, b4, e4) = bind-eq-accepted (nonempty_field (codes "name") fields _) _ e3 in
      let (pass, b5, e5) = bind-eq-accepted (nonempty_field (codes "pass") fields _) _ e4 in
      let (token, b6, e6) = or_throw-eq-accepted (jwt.decode pass) _ _ e5 in
      let (u, b7, e7) = bind-eq-accepted (check_claims jwt token now) _ e6 in
      let (u', b8, e8) =
        bind-eq-accepted (no_error (jwt.verify secret _ _ jwt_tolerance now token)) _ e7 in
      let (name, b9, e9) =
        or_throw-eq-accepted (jwt.claim_as_string token (codes "characterName")) _ _ e8 in
      let (b10, e10) = require-eq-accepted (not (is_empty name)) _ _ e9 in
      let (b11, e11) = require-eq-accepted (text_eq login_name name) _ _ e10 in
      let (admin, b12, e12) = bind-eq-accepted (check_roles jwt token) _ e11 in
      let (exp, b13, e13) = or_throw-eq-accepted (jwt.get_expires_at token) _ _ e12 in
      let same = ap (unwrap login) e13 in
      let same_name : name ≡ login.character_name =
        ap (λ (l : AuthenticatedLogin). l.character_name) same in
      let claimed : login_name ≡ name = (text_eq_iff login_name name).0 b11 in
      record {
        fields = fields;
        pass = pass;
        token = token;
        secret_ne_nil = nonempty-ne-nil secret b1;
        is_connect = b2;
        fields_are = b3;
        pass_is = (nonempty_field-eq _ _ _ b5).0;
        decoded = b6;
        claims = check_claims-ClaimsHold token now b7;
        verified = no_error-none _ b8;
        name_signed = b9 ∙ ap some same_name;
        name_ne_nil = λ (q : login.character_name ≡ []). nonempty-ne-nil name b10 (same_name ∙ q);
        name_claimed = (nonempty_field-eq _ _ _ b4).0 ∙ ap some (claimed ∙ same_name);
        expiry_signed = b13 ∙ ap (λ (l : AuthenticatedLogin). some l.expires_at) same;
        roles = b12 ∙ ap (λ (l : AuthenticatedLogin). accepted l.is_admin) same;
      }
