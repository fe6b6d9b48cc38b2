-- ===== src/Server/LoginPrivacy.antt =====
-- Logins and closed connections keep the reserved topics with their owners.
use u_dara_chat.Base.{
  ℕ, ◌≡◌, refl, true, false, not, ◌&&◌, List, Option, none, some, Text, codes, count_if, is_empty,
  ◌==◌, ==_iff, arith,
}
use u_dara_chat.Group.Container.{set_member_online}
use u_dara_chat.Server.Events.{Env, on_close, end_socket, is_session, log_in, enter, retire}
use u_dara_chat.Server.Groups.{Now}
use u_dara_chat.Server.GroupPrivacy.{send_group_update_info-IsGuarded}
use u_dara_chat.Server.Guarded.{
  silent-IsGuarded, IsGuarded-if, set_groups-IsGuarded, set_data-IsGuarded, relabel-IsPrivate,
}
use u_dara_chat.Server.Subscribing.{subscribe_standard_topics-IsGuarded}
use u_dara_chat.Server.Sessions.{seated, seated-data}
use u_dara_chat.Server.Entered.{labelled, online}
use u_dara_chat.Login.Verify.{AuthenticatedLogin}
use u_dara_chat.Server.Hearing.{unused-kept, IsPrivate, IsGuarded}
use u_dara_chat.Server.State.{
  close_socket, PerSocketData, World, emit, set_groups, set_data, erase_session, session,
}
use u_dara_chat.Server.Topics.{is_group_slot, subscribe_standard_topics}

reseat :
    {w : World} (m : List (Text × ℕ)) → IsGuarded w → IsGuarded (record w { active_sessions = m })
reseat m g = record { each = g.each }

pub on_close-IsGuarded :
    (now : Now) (w : World) (ws : ℕ) → IsGuarded w → IsGuarded (on_close now w ws)
unfolding on_close
on_close-IsGuarded now w ws g =
    let d : PerSocketData = w.user_data ws in
    let w1 : World = record w { active_sessions = erase_session d.name w.active_sessions } in
    let gone = set_member_online now.seconds w1.group_container d.name false in
    let w2 : World = set_groups w1 gone.0 in
    let g2 : IsGuarded w2 = set_groups-IsGuarded w1 gone.0 (reseat w1.active_sessions g) in
    IsGuarded-if (not d.connected) w _ g (
      IsGuarded-if (not (is_session (session d.name w.active_sessions) ws)) w _ g (
        IsGuarded-if (gone.1 && not (is_empty d.group_id)) _ w2
          (send_group_update_info-IsGuarded w2 1 d.group_id g2) g2))

pub end_socket-IsGuarded :
    (env : Env) (now : Now) (w : World) (ws code : ℕ) (reason : Text)
    → IsGuarded w
    → IsGuarded (end_socket env now w ws code reason)
unfolding end_socket
end_socket-IsGuarded env now w ws code reason g =
    let ended : IsGuarded (emit w (close_socket ws code reason)) = silent-IsGuarded w _ refl g in
    IsGuarded-if env.closes_at_once _ _ (on_close-IsGuarded now _ ws ended) ended

retire-IsGuarded :
    (env : Env) (now : Now) (w : World) (ws : ℕ) (o : Option ℕ)
    → IsGuarded w
    → IsGuarded (retire env now w ws o)
retire-IsGuarded env now w ws none g = g
retire-IsGuarded env now w ws (some old) g =
    IsGuarded-if (old == ws) w _ g (end_socket-IsGuarded env now w old 1000 (codes "Reconnected") g)

module _ (env : Env) (now : Now) (w : World) (ws : ℕ) (login : AuthenticatedLogin) (op : ℕ) where
  log_in-IsPrivate :
      (w.user_data ws).connected ≡ false
      → IsGuarded w
      → IsPrivate ws (log_in (w.user_data ws) login) w.effects
  log_in-IsPrivate off g =
      let p : IsPrivate ws (w.user_data ws) w.effects = g.each ws in
      let (kept, z) =
        unused-kept (log_in (w.user_data ws) login) (w.user_data ws).topics (p.offline off) in
      record { heard = p.heard; kept = kept; one_group = p.one_group; offline = λ no. ground arith }

  seated-IsGuarded :
      (w.user_data ws).connected ≡ false → IsGuarded w → IsGuarded (seated env now w ws login)
  seated-IsGuarded off g =
      let w1 : World = set_data w ws (log_in (w.user_data ws) login) in
      reseat _ (
        retire-IsGuarded env now w1 ws (session login.character_name w1.active_sessions)
          (set_data-IsGuarded w ws _ (log_in-IsPrivate off g) g))

  pub enter-IsGuarded :
      (w.user_data ws).connected ≡ false → IsGuarded w → IsGuarded (enter env now w ws login op)
  unfolding enter
  enter-IsGuarded off g =
      let w3 : World = seated env now w ws login in
      let w4 : World = labelled env now w ws login op in
      let w5 : World = online env now w ws login op in
      let d : (w3.user_data ws) ≡ log_in (w.user_data ws) login = seated-data env now w ws login in
      let z : count_if is_group_slot (w3.user_data ws).topics ≡ 0 =
        rw d (unused-kept (w.user_data ws) (w.user_data ws).topics ((g.each ws).offline off)).1 in
      let on : (w3.user_data ws).connected ≡ true = rw d refl in
      let g4 : IsGuarded w4 =
        set_data-IsGuarded w3 ws _
          (relabel-IsPrivate ws (w3.user_data ws) w3.effects _ z ((seated-IsGuarded off g).each ws))
          (seated-IsGuarded off g) in
      let g5 : IsGuarded w5 = set_groups-IsGuarded w4 _ g4 in
      let own : ws == ws ≡ true = (==_iff ws ws).1 refl in
      let g6 : IsGuarded (subscribe_standard_topics w5 ws) =
        subscribe_standard_topics-IsGuarded w5 ws (rw own on) (rw own z) g5 in
      IsGuarded-if (is_empty ((subscribe_standard_topics w5 ws).user_data ws).group_id) _ _ g6
        (send_group_update_info-IsGuarded (subscribe_standard_topics w5 ws) op _ g6)
