-- ===== src/Server/Sessions.antt =====
-- One session per character: what an accepted login leaves behind.
use mathlib.Core.Path.{subst}
use u_dara_chat.Base.{
  ℕ, ◌≡◌, refl, ap, ◌∙◌, ◌≢◌, true, List, [], ◌∷◌, Option, some, none, Text, text_eq_refl, codes,
  is_empty, ==_iff, arith,
}
use u_dara_chat.Group.Container.{set_member_online}
use u_dara_chat.Group.Info.{get_current_group_id}
use u_dara_chat.Group.Reach.{online}
use u_dara_chat.Login.Verify.{AuthenticatedLogin}
use u_dara_chat.Server.Acts.{
  Acts, after, relabel, regroup, SameIdentity, Acts-SameIdentity, Acts-active_sessions,
}
use u_dara_chat.Server.Conduct.{
  Acts-if, store_and_subscribe-Acts, subscribe_group_topic-Acts, send_group_update_info-Acts,
}
use u_dara_chat.Server.Events.{Env, on_close, end_socket, retire, enter, log_in}
use u_dara_chat.Server.Groups.{Now, send_group_update_info}
use u_dara_chat.Server.State.{
  set_data, set_groups, emit, close_socket, PerSocketData, World, session, set_session,
}
use u_dara_chat.Server.Topics.{subscribe_standard_topics}

pub session-set_session :
    (n : Text) (ws : ℕ) (m : List (Text × ℕ)) → session n (set_session n ws m) ≡ some ws
unfolding session set_session
session-set_session n ws [] = ground (arith, text_eq_refl n)
session-set_session n ws ((k, v) ∷ m) = ground (arith, session-set_session n ws m)

subscribe_standard_topics-Acts :
    {n : Text} (w : World) (ws : ℕ) → Acts n w (subscribe_standard_topics w ws)
unfolding subscribe_standard_topics
subscribe_standard_topics-Acts w ws = after (store_and_subscribe-Acts w ws _) (
    after (store_and_subscribe-Acts _ ws _)
      (after (store_and_subscribe-Acts _ ws _) (subscribe_group_topic-Acts _ ws)))

pub on_close-user_data :
    (now : Now) (w : World) (ws : ℕ) → (on_close now w ws).user_data ≡ w.user_data
unfolding on_close send_group_update_info
on_close-user_data now w ws = ground arith

-- A close event of a socket that is not its name's session.
on_close_replaced :
    (now : Now) (w : World) (ws old : ℕ) {n : Text}
    → session n w.active_sessions ≡ some ws
    → old ≢ ws
    → (w.user_data old).name ≡ n
    → on_close now w old ≡ w
unfolding on_close
on_close_replaced now w ws old s ne e = rw (e, s) (ground (arith, ==_iff ws old))

module _ (env : Env) (now : Now) where
  pub end_socket-user_data :
      (w : World) (ws code : ℕ) (reason : Text)
      → (end_socket env now w ws code reason).user_data ≡ w.user_data
  unfolding end_socket
  end_socket-user_data w ws code reason =
      ground (arith, on_close-user_data now (emit w (close_socket ws code reason)) ws)

  pub retire-user_data :
      (w : World) (ws : ℕ) (o : Option ℕ) → (retire env now w ws o).user_data ≡ w.user_data
  retire-user_data w ws none = refl
  retire-user_data w ws (some old) =
      ground (arith, end_socket-user_data w old 1000 (codes "Reconnected"))

  -- The world in which the new session is set.
  abbrev pub seated : World → ℕ → AuthenticatedLogin → World
  seated w ws login =
      let name = login.character_name in
      let w1 = set_data w ws (log_in (w.user_data ws) login) in
      let w2 = retire env now w1 ws (session name w1.active_sessions) in
      record w2 { active_sessions = set_session name ws w2.active_sessions }

  pub enter-Acts :
      (w : World) (ws : ℕ) (login : AuthenticatedLogin) (op : ℕ)
      → Acts [] (seated w ws login) (enter env now w ws login op)
  unfolding enter
  enter-Acts w ws login op =
      let name : Text = login.character_name in
      let w3 : World = seated w ws login in
      let group_id : Text = (get_current_group_id w3.group_container name).group_id in
      let w4 : World = set_data w3 ws (record (w3.user_data ws) { group_id = group_id }) in
      let w5 : World =
        set_groups w4 (set_member_online now.seconds w4.group_container name true).0 in
      let w6 : World = subscribe_standard_topics w5 ws in
      let a : Acts [] w3 w4 = relabel ws group_id in
      let b : Acts [] w4 w5 = regroup (online now.seconds w4.group_container name true) in
      let c : Acts [] w5 w6 = subscribe_standard_topics-Acts w5 ws in
      let d : Acts [] w3 w6 = after a (after b c) in
      Acts-if (is_empty (w6.user_data ws).group_id) d
        (after d (send_group_update_info-Acts w6 op (w6.user_data ws).group_id))

  pub seated-data :
      (w : World) (ws : ℕ) (login : AuthenticatedLogin)
      → (seated w ws login).user_data ws ≡ log_in (w.user_data ws) login
  seated-data w ws login =
      let w1 : World = set_data w ws (log_in (w.user_data ws) login) in
      ap (λ (f : ℕ → PerSocketData). f ws)
        (retire-user_data w1 ws (session login.character_name w1.active_sessions))
      ∙ rw ((==_iff ws ws).1 refl) refl

  -- After a login is accepted, the character's session is the new socket, that socket has the
  -- login's name, zone and administrator's right and counts as logged in; and the close event of
  -- any other socket of that name, such as the one that was retired, changes nothing.
  pub enter_one_session :
      (w : World) (ws : ℕ) (login : AuthenticatedLogin) (op : ℕ)
      → (session login.character_name (enter env now w ws login op).active_sessions ≡ some ws)
        × SameIdentity ((enter env now w ws login op).user_data ws) (log_in (w.user_data ws) login)
        × ((old : ℕ)
            → old ≢ ws
            → ((enter env now w ws login op).user_data old).name ≡ login.character_name
            → on_close now (enter env now w ws login op) old ≡ enter env now w ws login op)
  enter_one_session w ws login op =
      let acts = enter-Acts w ws login op in
      let seat : session login.character_name (enter env now w ws login op).active_sessions
          ≡ some ws =
        rw (Acts-active_sessions acts) (session-set_session login.character_name ws _) in
      (
        seat,
        subst (λ d. SameIdentity ((enter env now w ws login op).user_data ws) d)
            (seated-data w ws login) (Acts-SameIdentity acts ws),
        λ old ne e. on_close_replaced now (enter env now w ws login op) ws old seat ne e,
      )
