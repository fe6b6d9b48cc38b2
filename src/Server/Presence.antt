-- ===== src/Server/Presence.antt =====
-- The sessions and the online flags of the group members, in a run of the server.
use u_dara_chat.Base.Decimal.{to_string}
use u_dara_chat.Base.{
  ℕ, ◌≡◌, refl, ap, Bool, true, false, not, ◌&&◌, List, Option, none, some, Text, codes,
  starts_with, any_of, is_empty, ◌==◌, arith, if◌then◌else◌, Bool-cases, inl, inr,
}
use u_dara_chat.Group.Container.{online_from, set_member_online}
use u_dara_chat.Group.Count.{size}
use u_dara_chat.Group.NewId.{get_new_group_id}
use u_dara_chat.Group.Types.{GroupContainer}
use u_dara_chat.Login.Verify.{AuthenticatedLogin, verify_login}
use u_dara_chat.Server.Consistent.{has_ended, is_gone, IsLive, IsConsistent, emit-IsConsistent}
use u_dara_chat.Server.Entered.{enter-Quiet}
use u_dara_chat.Server.Entering.{logged-IsConsistent, retired, retired-IsConsistent}
use u_dara_chat.Server.Events.{
  Env, is_session, on_close, end_socket, retire, enter, on_connect, on_text, on_message,
}
use u_dara_chat.Server.GroupIds.{on_message-Keeps}
use u_dara_chat.Server.Groups.{Now, send_group_update_info}
use u_dara_chat.Server.Grows.{on_open-Grows, on_message-Grows}
use u_dara_chat.Server.History.{Run, boot, opened, received, closed, silent, Run-IsConsistent}
use u_dara_chat.Server.Integrity.{login-cases}
use u_dara_chat.Server.Sessions.{enter-Acts}
use u_dara_chat.Server.Acts.{Acts-active_sessions}
use u_dara_chat.Server.State.{
  PerSocketData, World, close_socket, session, set_session, erase_session, set_groups, emit,
}
use u_dara_chat.Server.Attendance.{Present, offline-Present, online-Present, Marks-Present}

-- A record, so that a world can be inferred from it.
pub record IsPresent (w : World) : Type 0 where
  pub marks : Present w.active_sessions w.group_container.my_groups

IsPresent-if : {u v : World} (b : Bool) → IsPresent u → IsPresent v → IsPresent (if b then u else v)
IsPresent-if true p q = p
IsPresent-if false p q = q

send_group_update_info-IsPresent :
    (w : World) (op : ℕ) (g : Text) → IsPresent w → IsPresent (send_group_update_info w op g)
unfolding send_group_update_info
send_group_update_info-IsPresent w op g p = record { marks = p.marks }

module _ {gone : List ℕ} (now : Now) (w : World) (ws : ℕ) (c : IsConsistent gone w)
    (p : IsPresent w) where
  on_close-IsPresent : IsPresent (on_close now w ws)
  unfolding on_close set_member_online
  on_close-IsPresent =
      let d : PerSocketData = w.user_data ws in
      let n : Text = d.name in
      let w1 : World = record w { active_sessions = erase_session n w.active_sessions } in
      let gone = set_member_online now.seconds w1.group_container n false in
      let closed : IsPresent (set_groups w1 gone.0) = record {
        marks =
            offline-Present now.seconds n w.active_sessions w.group_container.my_groups
              (c.sound.unique n) p.marks (c.single n);
      } in
      IsPresent-if (not d.connected) p (
        IsPresent-if (not (is_session (session n w.active_sessions) ws)) p (
          IsPresent-if (gone.1 && not (is_empty d.group_id))
            (send_group_update_info-IsPresent (set_groups w1 gone.0) 1 d.group_id closed) closed))

end_socket-IsPresent :
    {gone : List ℕ} (env : Env) (now : Now) (w : World) (ws code : ℕ) (reason : Text)
    → IsConsistent gone w
    → IsPresent w
    → IsPresent (end_socket env now w ws code reason)
unfolding end_socket
end_socket-IsPresent env now w ws code reason c p =
    let ended : IsPresent (emit w (close_socket ws code reason)) = record { marks = p.marks } in
    IsPresent-if env.closes_at_once
      (on_close-IsPresent now (emit w (close_socket ws code reason)) ws
        (emit-IsConsistent (close_socket ws code reason) c) ended)
      ended

retire-IsPresent :
    {gone : List ℕ} (env : Env) (now : Now) (w : World) (ws : ℕ) (o : Option ℕ)
    → IsConsistent gone w
    → IsPresent w
    → IsPresent (retire env now w ws o)
retire-IsPresent env now w ws none c p = p
retire-IsPresent env now w ws (some old) c p =
    IsPresent-if (old == ws) p (end_socket-IsPresent env now w old 1000 (codes "Reconnected") c p)

enter-IsPresent :
    {gone : List ℕ} (env : Env) (now : Now) (w : World) (ws : ℕ) (login : AuthenticatedLogin)
    (op : ℕ)
    → (w.user_data ws).connected ≡ false
    → IsConsistent gone w
    → IsPresent w
    → IsPresent (enter env now w ws login op)
unfolding set_member_online
enter-IsPresent env now w ws login op off c p =
    let n : Text = login.character_name in
    let v : World = enter env now w ws login op in
    let w2 : World = retired env now w ws login c off in
    let c2 = retired-IsConsistent env now w ws login c off in
    let p2 : IsPresent w2 =
      retire-IsPresent env now _ ws (session n w.active_sessions)
        (logged-IsConsistent env now w ws login c off) (record { marks = p.marks }) in
    let sessions : v.active_sessions ≡ set_session n ws w2.active_sessions =
      Acts-active_sessions (enter-Acts env now w ws login op) in
    let groups : v.group_container.my_groups
        ≡ (online_from now.seconds n true w2.group_container.my_groups).0 =
      ap (λ (g : GroupContainer). g.my_groups) (enter-Quiet env now w ws login op).groups in
    record {
      marks =
          rw (sessions, groups)
            (online-Present now.seconds n w2.active_sessions w2.group_container.my_groups
              (c2.sound.unique n) p2.marks ws);
    }

module _ {gone : List ℕ} (env : Env) (now : Now) (w : World) (ws : ℕ) (c : IsConsistent gone w)
    (p : IsPresent w) where
  on_connect-IsPresent : (msg : Text) (op : ℕ) → IsPresent (on_connect env now w ws msg op)
  unfolding on_connect
  on_connect-IsPresent msg op = elim (Bool-cases (w.user_data ws).connected) [
    | inl on ↦
        rw on (end_socket-IsPresent env now w ws 1008 (codes "Reconnect to reauthenticate") c p)
    | inr off ↦ rw off (elim (login-cases env now (verify_login env.jwt msg env.secret now.ticks)) [
      | inl (login, e) ↦ rw e (enter-IsPresent env now w ws login op off c p)
      | inr (reason, e) ↦
          rw e (end_socket-IsPresent env now w ws 1008 (codes "Authentication failed") c p)
    ])
  ]

  frame-IsPresent :
      (msg : Text) (op : ℕ)
      → IsLive gone w ws
      → (op == 1 && starts_with (codes "connect:") msg) ≡ false
      → size (get_new_group_id now.dis now.dis2) w.group_container.my_groups ≡ 0
      → IsPresent (on_message env now w ws msg op)
  frame-IsPresent msg op l no_login fresh =
      let n : Text = (w.user_data ws).name in
      let own : session n w.active_sessions ≡ some ws = c.live ws l in
      let kept =
        on_message-Keeps env now w ws msg op no_login
          (record { step = (c.seated n ws own).group; sound = c.sound }) in
      let grows = on_message-Grows env now w ws op msg fresh no_login in
      record { marks = rw grows.sessions (Marks-Present n ws own kept.marks p.marks) }

  on_message-IsPresent :
      (msg : Text) (op : ℕ)
      → has_ended ws w ≡ false
      → is_gone ws gone ≡ false
      → size (get_new_group_id now.dis now.dis2) w.group_container.my_groups ≡ 0
      → IsPresent (on_message env now w ws msg op)
  on_message-IsPresent msg op not_ended not_gone fresh =
      elim (Bool-cases (op == 1 && starts_with (codes "connect:") msg)) [
        | inl login ↦
            let text : op == 1 ≡ true = ground arith in
            let connect : starts_with (codes "connect:") msg ≡ true = ground arith in
            unfold on_message in unfold on_text in rw (text, connect) (on_connect-IsPresent msg op)
        | inr plain ↦ elim (Bool-cases (w.user_data ws).connected) [
          | inl on ↦
              frame-IsPresent msg op
                (record { connected = on; not_ended = not_ended; not_gone = not_gone }) plain fresh
          | inr off ↦ rw (silent env now w ws msg op off plain) p
        ]
      ]

-- In every run of the server from its start: no member of a group is marked online whose name has
-- no session, and none is marked offline whose name has one. A run hands over no frame of a socket
-- that was ended or closed, and draws only group ids that no group has.
pub Run-IsPresent : (env : Env) {gone : List ℕ} {w : World} → Run env gone w → IsPresent w
unfolding any_of
Run-IsPresent env boot = record {
  marks = record { absent = λ n e. refl; present = λ n ws s. refl };
}
Run-IsPresent env (opened {w = w} ws pointer r) =
    let (grows, quiet) = on_open-Grows w ws (to_string pointer) in
    let p = Run-IsPresent env r in record { marks = rw (grows.sessions, quiet.groups) p.marks }
Run-IsPresent env (received {w = w} now ws msg op not_ended not_gone fresh r) =
    on_message-IsPresent env now w ws (Run-IsConsistent env r) (Run-IsPresent env r) msg op
      not_ended not_gone fresh
Run-IsPresent env (closed {w = w} now ws r) =
    on_close-IsPresent now w ws (Run-IsConsistent env r) (Run-IsPresent env r)
