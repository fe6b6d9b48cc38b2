-- ===== src/Login/Roles.antt =====
-- Where the administrator's right comes from.
use u_dara_chat.Base.{
  ◌≡◌, ◌∙◌, ap, Bool, true, false, List, [], ◌∷◌, Option, none, some, Text, codes, text_eq, any_of,
  ℕ, arith, Bool-cases, inl, inr,
}
use u_dara_chat.Login.Soundness.{bind-eq-accepted, or_throw-eq-accepted, verify_login-IsAuthentic}
use u_dara_chat.Login.Token.{JwtLibrary}
use u_dara_chat.Login.Verify.{AuthenticatedLogin, accepted, admin_role, check_roles, verify_login}

abbrev pub names_admin : Option Text → Bool
names_admin none = false
names_admin (some r) = text_eq r (codes "chat_admin")

admin_role-eq :
    (rs : List (Option Text)) {b : Bool} → admin_role rs ≡ accepted b → any_of names_admin rs ≡ b
unfolding admin_role any_of
admin_role-eq [] e = ground arith
admin_role-eq (none ∷ rs) e = cc
admin_role-eq (some r ∷ rs) e =
    let (later, q, last) = bind-eq-accepted (admin_role rs) _ e in
    ground (arith, admin_role-eq rs q)

module _ (jwt : JwtLibrary) where
  -- A signed list of roles, one of which is `chat_admin`.
  pub record HasAdminRole (token : jwt.Token) : Type 0 where
    pub roles : List (Option Text)
    pub roles_are : jwt.claim_as_array token (codes "roles") ≡ some roles
    pub has_admin : any_of names_admin roles ≡ true

  check_roles-HasAdminRole :
      (token : jwt.Token) → check_roles jwt token ≡ accepted true → HasAdminRole token
  unfolding check_roles
  check_roles-HasAdminRole token e =
      elim (Bool-cases (jwt.has_payload_claim token (codes "roles"))) [
        | inr h ↦ cc (rw h at e)
        | inl h ↦
            let (rs, q, last) =
              or_throw-eq-accepted (jwt.claim_as_array token (codes "roles")) _ _ (rw h at e) in
            record { roles = rs; roles_are = q; has_admin = admin_role-eq rs last }
      ]

  -- An accepted login has the administrator's right only if the verified token lists the role.
  pub verify_login_admin :
      (message secret : Text) (now : ℕ) (login : AuthenticatedLogin)
      → (ok : verify_login jwt message secret now ≡ accepted login) → login.is_admin ≡ true
      → HasAdminRole (verify_login-IsAuthentic jwt message secret now ok).token
  verify_login_admin message secret now login ok admin =
      let a = verify_login-IsAuthentic jwt message secret now ok in
      check_roles-HasAdminRole a.token (a.roles ∙ ap accepted admin)
