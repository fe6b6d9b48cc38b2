-- ===== src/Server/History.antt =====
-- The server from its start, through any sequence of the events of its sockets.
use u_dara_chat.Base.Decimal.{to_string}
use u_dara_chat.Base.{
  ℕ, ◌≡◌, refl, sym, ap, ◌∙◌, ◌≢◌, true, false, ◌&&◌, List, [], ◌∷◌, some, Text, codes, starts_with,
  text_cases, ◌==◌, arith, Bool-cases, inl, inr,
}
use u_dara_chat.Group.Count.{size}
use u_dara_chat.Group.Invariant.{nil-WellFormed}
use u_dara_chat.Group.NewId.{get_new_group_id}
use u_dara_chat.Group.Types.{new_group_container}
use u_dara_chat.Login.Verify.{verify_login}
use u_dara_chat.Server.Closing.{on_close-IsConsistent, end_socket-IsConsistent}
use u_dara_chat.Server.Consistent.{
  has_ended, is_gone, IsLive, IsSeated, IsConsistent, Grows-IsConsistent, Quiet-IsConsistent,
  gone-IsConsistent,
}
use u_dara_chat.Server.Entering.{not_gone-other}
use u_dara_chat.Server.Entered.{enter-IsConsistent}
use u_dara_chat.Server.Events.{Env, on_open, on_close, on_binary, on_connect, on_text, on_message}
use u_dara_chat.Server.GroupIds.{on_message-InStep}
use u_dara_chat.Server.Groups.{Now}
use u_dara_chat.Server.Grows.{on_open-Grows, on_message-Grows}
use u_dara_chat.Server.Integrity.{login-cases}
use u_dara_chat.Server.State.{World, new_per_socket_data, session, erase_session}

-- No socket is known, and nobody is in a group.
abbrev pub new_world : World
new_world = record {
  user_data = λ ws. new_per_socket_data;
  active_sessions = [];
  group_container = new_group_container;
  effects = [];
}

-- The runs of the server, with the sockets whose close event has come. A socket opens with its
-- printed address, which is a number. uWebSockets hands over no
-- frame of a socket that has been ended or closed; and each draw for a group id is one that no
-- group has.
pub data Run (env : Env) : List ℕ → World → Type 0 where
  boot : Run env [] new_world
  opened :
      {gone : List ℕ} {w : World} (ws pointer : ℕ)
      → Run env gone w
      → Run env gone (on_open w ws (to_string pointer))
  received :
      {gone : List ℕ} {w : World} (now : Now) (ws : ℕ) (msg : Text) (op : ℕ)
      → has_ended ws w ≡ false
      → is_gone ws gone ≡ false
      → size (get_new_group_id now.dis now.dis2) w.group_container.my_groups ≡ 0
      → Run env gone w
      → Run env gone (on_message env now w ws msg op)
  closed :
      {gone : List ℕ} {w : World} (now : Now) (ws : ℕ)
      → Run env gone w
      → Run env (ws ∷ gone) (on_close now w ws)

new_world-IsConsistent : IsConsistent [] new_world
unfolding session erase_session
new_world-IsConsistent = record {
  sound = nil-WellFormed;
  single = λ n. refl;
  seated = λ n ws s. cc;
  live = λ ws l. let t = l.connected in cc;
}

-- A socket that has not logged in is only heard when it logs in.
pub silent :
    (env : Env) (now : Now) (w : World) (ws : ℕ) (msg : Text) (op : ℕ)
    → (w.user_data ws).connected ≡ false
    → (op == 1 && starts_with (codes "connect:") msg) ≡ false
    → on_message env now w ws msg op ≡ w
unfolding on_message on_binary
silent env now w ws msg op off no_login = elim (Bool-cases (op == 1)) [
  | inl h ↦
      let plain : starts_with (codes "connect:") msg ≡ false = ground arith in
      rw h (unfold on_text in rw (plain, off) refl)
  | inr h ↦ rw (h, off) refl
]

module _ {gone : List ℕ} (env : Env) (now : Now) (w : World) (ws : ℕ)
    (c : IsConsistent gone w) where
  frame-IsConsistent :
      (msg : Text) (op : ℕ)
      → IsLive gone w ws
      → (op == 1 && starts_with (codes "connect:") msg) ≡ false
      → size (get_new_group_id now.dis now.dis2) w.group_container.my_groups ≡ 0
      → IsConsistent gone (on_message env now w ws msg op)
  frame-IsConsistent msg op l no_login fresh =
      let n : Text = (w.user_data ws).name in
      let own : session n w.active_sessions ≡ some ws = c.live ws l in
      let (others, elsewhere, after) =
        on_message-InStep env now w ws msg op no_login fresh
          (record { step = (c.seated n ws own).group; sound = c.sound }) in
      Grows-IsConsistent (on_message-Grows env now w ws op msg fresh no_login) after.sound
        (λ m k s. elim (text_cases m n) [
          | inl e ↦
              let t : session n w.active_sessions ≡ some k =
                ap (λ x. session x w.active_sessions) (sym e) ∙ s in
              let same : k ≡ ws = cc in rw (same, e) after.step
          | inr ne ↦
              let old : IsSeated w m k = c.seated m k s in
              let other : k ≢ ws = λ q. ne (sym old.name ∙ ap (λ j. (w.user_data j).name) q) in
              others k other ∙ old.group ∙ sym (elsewhere m ne)
        ])
        c

  on_connect-IsConsistent :
      (msg : Text) (op : ℕ) → IsConsistent gone (on_connect env now w ws msg op)
  unfolding on_connect
  on_connect-IsConsistent msg op = elim (Bool-cases (w.user_data ws).connected) [
    | inl on ↦
        rw on (end_socket-IsConsistent env now w ws 1008 (codes "Reconnect to reauthenticate") c)
    | inr off ↦ rw off (elim (login-cases env now (verify_login env.jwt msg env.secret now.ticks)) [
      | inl (login, e) ↦ rw e (enter-IsConsistent env now w ws login op c off)
      | inr (reason, e) ↦
          rw e (end_socket-IsConsistent env now w ws 1008 (codes "Authentication failed") c)
    ])
  ]

  on_message-IsConsistent :
      (msg : Text) (op : ℕ)
      → has_ended ws w ≡ false
      → is_gone ws gone ≡ false
      → size (get_new_group_id now.dis now.dis2) w.group_container.my_groups ≡ 0
      → IsConsistent gone (on_message env now w ws msg op)
  on_message-IsConsistent msg op not_ended not_gone fresh =
      elim (Bool-cases (op == 1 && starts_with (codes "connect:") msg)) [
        | inl login ↦
            let text : op == 1 ≡ true = ground arith in
            let connect : starts_with (codes "connect:") msg ≡ true = ground arith in
            unfold on_message in
            unfold on_text in rw (text, connect) (on_connect-IsConsistent msg op)
        | inr plain ↦ elim (Bool-cases (w.user_data ws).connected) [
          | inl on ↦
              frame-IsConsistent msg op
                (record { connected = on; not_ended = not_ended; not_gone = not_gone }) plain fresh
          | inr off ↦ rw (silent env now w ws msg op off plain) c
        ]
      ]

-- In every run of the server from its start, with any number of sockets that open, send any frames
-- in any order and close: the container has its invariant; a name has one session at most; the
-- socket of a session has logged in under the session's name, and its group id is the group that
-- the container has for that name; and every socket that is logged in and not yet ended or closed
-- is the session of its name. A run hands over no frame of a socket that was ended or closed, and
-- draws only group ids that no group has.
pub Run-IsConsistent :
    (env : Env) {gone : List ℕ} {w : World} → Run env gone w → IsConsistent gone w
Run-IsConsistent env boot = new_world-IsConsistent
Run-IsConsistent env (opened {w = w} ws pointer r) =
    let (grows, quiet) = on_open-Grows w ws (to_string pointer) in
    Quiet-IsConsistent grows quiet (Run-IsConsistent env r)
Run-IsConsistent env (received {w = w} now ws msg op not_ended not_gone fresh r) =
    on_message-IsConsistent env now w ws (Run-IsConsistent env r) msg op not_ended not_gone fresh
Run-IsConsistent env (closed {gone} {w} now ws r) =
    let dead : ¬ IsLive (ws ∷ gone) w ws = λ l. (not_gone-other gone ws ws l.not_gone).0 refl in
    on_close-IsConsistent now w ws (gone-IsConsistent ws (Run-IsConsistent env r)) dead
