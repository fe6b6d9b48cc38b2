-- ===== src/Server/Authenticated.antt =====
-- Which frame of a run logged a socket in, and that nothing comes of the frames before it.
use u_dara_chat.Base.Decimal.{to_string}
use u_dara_chat.Base.{
  ℕ, ◌≡◌, refl, sym, ap, ◌∙◌, ◌≢◌, ◌⊎◌, true, false, ◌&&◌, List, [], ◌∷◌, Text, codes, starts_with,
  ◌==◌, ==_iff, arith, Bool-cases, inl, inr,
}
use u_dara_chat.Group.Count.{size}
use u_dara_chat.Group.NewId.{get_new_group_id}
use u_dara_chat.Login.Verify.{AuthenticatedLogin, accepted, verify_login}
use u_dara_chat.Server.Acts.{SameIdentity}
use u_dara_chat.Server.Entering.{other_data}
use u_dara_chat.Server.Events.{Env, log_in, on_connect, on_text, on_message}
use u_dara_chat.Server.Groups.{Now}
use u_dara_chat.Server.Grows.{Grows, Acts-Grows, on_open-Grows, on_message-Grows}
use u_dara_chat.Server.History.{Run, boot, opened, received, closed, silent}
use u_dara_chat.Server.Integrity.{login-cases}
use u_dara_chat.Server.Sessions.{
  seated, enter-Acts, seated-data, on_close-user_data, end_socket-user_data, retire-user_data,
}
use u_dara_chat.Server.State.{World, PerSocketData, set_data, session}

-- A frame as the server received it.
pub record Frame : Type 0 where
  pub now : Now
  pub ws : ℕ
  pub message : Text
  pub op : ℕ

-- The frames of a run, the last one first.
unfoldable pub frames : {env : Env} {gone : List ℕ} {w : World} → Run env gone w → List Frame
frames boot = []
frames (opened ws pointer r) = frames r
frames (received now ws msg op not_ended not_gone fresh r) =
    record { now = now; ws = ws; message = msg; op = op } ∷ frames r
frames (closed now ws r) = frames r

-- The frame is a text frame of this socket that asks for a login and that `VerifyLogin` accepted
-- when it came, and the data of the socket are those of that login.
pub record IsLogin (env : Env) (ws : ℕ) (d : PerSocketData) (f : Frame) : Type 0 where
  pub login : AuthenticatedLogin
  pub socket : f.ws ≡ ws
  pub text : (f.op == 1) ≡ true
  pub connect : starts_with (codes "connect:") f.message ≡ true
  pub verified : verify_login env.jwt f.message env.secret f.now.ticks ≡ accepted login
  pub name : d.name ≡ login.character_name
  pub zone : d.zone ≡ login.zone
  pub is_admin : d.is_admin ≡ login.is_admin
  pub admin_expires_at : d.admin_expires_at ≡ login.expires_at

pub data LoggedIn (env : Env) (ws : ℕ) (d : PerSocketData) : List Frame → Type 0 where
  by_last : {f : Frame} {fs : List Frame} → IsLogin env ws d f → LoggedIn env ws d (f ∷ fs)
  earlier : {f : Frame} {fs : List Frame} → LoggedIn env ws d fs → LoggedIn env ws d (f ∷ fs)

LoggedIn-same :
    {env : Env} {ws : ℕ} {d e : PerSocketData} {fs : List Frame}
    → SameIdentity e d
    → LoggedIn env ws d fs
    → LoggedIn env ws e fs
LoggedIn-same s (by_last l) = by_last (record {
  login = l.login;
  socket = l.socket;
  text = l.text;
  connect = l.connect;
  verified = l.verified;
  name = s.name ∙ l.name;
  zone = s.zone ∙ l.zone;
  is_admin = s.is_admin ∙ l.is_admin;
  admin_expires_at = s.admin_expires_at ∙ l.admin_expires_at;
})
LoggedIn-same s (earlier l) = earlier (LoggedIn-same s l)

-- Every connected socket has logged in by one of the frames.
abbrev AllLoggedIn : Env → (ℕ → PerSocketData) → List Frame → Type 0
AllLoggedIn env u fs = (k : ℕ) → (u k).connected ≡ true → LoggedIn env k (u k) fs

AllLoggedIn-Grows :
    {env : Env} {w v : World} {fs : List Frame}
    → Grows w v
    → AllLoggedIn env w.user_data fs
    → AllLoggedIn env v.user_data fs
AllLoggedIn-Grows g a k on = LoggedIn-same (g.identity k) (a k (sym (g.identity k).connected ∙ on))

module _ (env : Env) (now : Now) (w : World) (ws : ℕ) (msg : Text) (op : ℕ) (fs : List Frame)
    (a : AllLoggedIn env w.user_data fs) where
  abbrev frame : Frame
  frame = record { now = now; ws = ws; message = msg; op = op }

  still : AllLoggedIn env w.user_data (frame ∷ fs)
  still k on = earlier (a k on)

  -- The data that an accepted login leaves at the sockets.
  seated-LoggedIn :
      (login : AuthenticatedLogin)
      → (op == 1) ≡ true
      → starts_with (codes "connect:") msg ≡ true
      → verify_login env.jwt msg env.secret now.ticks ≡ accepted login
      → AllLoggedIn env (seated env now w ws login).user_data (frame ∷ fs)
  seated-LoggedIn login text connect verified k on = elim (Bool-cases (k == ws)) [
    | inl h ↦
        let same : k ≡ ws = (==_iff k ws).0 h in
        rw (same, seated-data env now w ws login)
          (by_last (record {
            login = login;
            socket = refl;
            text = text;
            connect = connect;
            verified = verified;
            name = refl;
            zone = refl;
            is_admin = refl;
            admin_expires_at = refl;
          }))
    | inr h ↦
        let other : k ≢ ws = λ q. ground (arith, ==_iff k ws) in
        let w1 : World = set_data w ws (log_in (w.user_data ws) login) in
        let e : (seated env now w ws login).user_data k ≡ w.user_data k =
          ap (λ (f : ℕ → PerSocketData). f k)
            (retire-user_data env now w1 ws (session login.character_name w1.active_sessions))
          ∙ other_data w ws k (log_in (w.user_data ws) login) other in
        rw e (still k (ap (λ (d : PerSocketData). d.connected) (sym e) ∙ on))
  ]

  on_connect-LoggedIn :
      (op == 1) ≡ true
      → starts_with (codes "connect:") msg ≡ true
      → AllLoggedIn env (on_connect env now w ws msg op).user_data (frame ∷ fs)
  unfolding on_connect
  on_connect-LoggedIn text connect = elim (Bool-cases (w.user_data ws).connected) [
    | inl on ↦
        rw (on, end_socket-user_data env now w ws 1008 (codes "Reconnect to reauthenticate")) still
    | inr off ↦ rw off (elim (login-cases env now (verify_login env.jwt msg env.secret now.ticks)) [
      | inl (login, e) ↦ rw e (
          AllLoggedIn-Grows (Acts-Grows (enter-Acts env now w ws login op))
            (seated-LoggedIn login text connect e))
      | inr (reason, e) ↦
          rw (e, end_socket-user_data env now w ws 1008 (codes "Authentication failed")) still
    ])
  ]

  on_message-LoggedIn :
      size (get_new_group_id now.dis now.dis2) w.group_container.my_groups ≡ 0
      → AllLoggedIn env (on_message env now w ws msg op).user_data (frame ∷ fs)
  on_message-LoggedIn fresh = elim (Bool-cases (op == 1 && starts_with (codes "connect:") msg)) [
    | inl login ↦
        let text : (op == 1) ≡ true = ground arith in
        let connect : starts_with (codes "connect:") msg ≡ true = ground arith in
        unfold on_message in unfold on_text in rw (text, connect) (on_connect-LoggedIn text connect)
    | inr plain ↦ AllLoggedIn-Grows (on_message-Grows env now w ws op msg fresh plain) still
  ]

-- In every run of the server, a socket that counts as logged in has sent, as a text frame of this
-- run, a login request that `VerifyLogin` accepted when the frame came; and the name, the zone, the
-- administrator's right and its expiry that the server has for the socket are those of that login,
-- whatever any socket has sent before or since. A binary frame logs nobody in.
pub Run-LoggedIn :
    (env : Env) {gone : List ℕ} {w : World} (r : Run env gone w) (k : ℕ)
    → (w.user_data k).connected ≡ true
    → LoggedIn env k (w.user_data k) (frames r)
unfolding frames
Run-LoggedIn env boot k on = cc
Run-LoggedIn env (opened {w = w} ws pointer r) k on =
    AllLoggedIn-Grows (on_open-Grows w ws (to_string pointer)).0 (Run-LoggedIn env r) k on
Run-LoggedIn env (received {w = w} now ws msg op not_ended not_gone fresh r) k on =
    on_message-LoggedIn env now w ws msg op (frames r) (Run-LoggedIn env r) fresh k on
Run-LoggedIn env (closed {w = w} now ws r) k on =
    rw (on_close-user_data now w ws)
      (Run-LoggedIn env r k (rw (sym (on_close-user_data now w ws)) on))

-- After every run of the server, any further frame that is not a text frame asking for a login, of
-- any socket and text or binary, either changes no state and sends nothing to anyone, or comes from
-- a socket that an earlier frame of the run has logged in, with the data of that login.
pub Run-on_message :
    (env : Env) {gone : List ℕ} {w : World} (r : Run env gone w) (now : Now) (ws : ℕ) (msg : Text)
    (op : ℕ)
    → (op == 1 && starts_with (codes "connect:") msg) ≡ false
    → (on_message env now w ws msg op ≡ w) ⊎ LoggedIn env ws (w.user_data ws) (frames r)
Run-on_message env {w = w} r now ws msg op plain = elim (Bool-cases (w.user_data ws).connected) [
  | inl on ↦ inr (Run-LoggedIn env r ws on)
  | inr off ↦ inl (silent env now w ws msg op off plain)
]
