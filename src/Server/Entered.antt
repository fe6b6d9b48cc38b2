-- ===== src/Server/Entered.antt =====
-- An accepted login keeps sessions, sockets and container consistent.
use u_dara_chat.Base.{
  ℕ, ◌≡◌, sym, ap, ◌∙◌, ◌≢◌, true, false, List, ◌∷◌, some, Text, text_cases, is_empty, ◌==◌, ==_iff,
  arith, Bool-cases, inl, inr,
}
use u_dara_chat.Group.Answers.{get_group_info-group_id}
use u_dara_chat.Group.Container.{set_member_online}
use u_dara_chat.Group.Info.{get_current_group_id}
use u_dara_chat.Group.Names.{group_of, group_of-set_member_online}
use u_dara_chat.Group.Reach.{Step-WellFormed}
use u_dara_chat.Group.Steps.{IsWellFormed}
use u_dara_chat.Login.Verify.{AuthenticatedLogin}
use u_dara_chat.Server.Consistent.{Adds-has_ended, IsLive, IsSeated, IsConsistent}
use u_dara_chat.Server.Entering.{
  retired, retired-IsConsistent, retired-name, other_data, own_data, cons-is_gone,
}
use u_dara_chat.Server.Events.{Env, enter}
use u_dara_chat.Server.Groups.{Now}
use u_dara_chat.Server.Grows.{Grows, Acts-Grows}
use u_dara_chat.Server.Integrity.{enter-IsSound}
use u_dara_chat.Server.Keeps.{
  Quiet, Quiet-trans, Quiet-if, subscribe_standard_topics-Quiet, send_group_update_info-Quiet,
}
use u_dara_chat.Server.Roster.{session-set_session_other, set_session-IsSingle}
use u_dara_chat.Server.Sessions.{seated, enter-Acts, session-set_session, seated-data}
use u_dara_chat.Server.State.{World, PerSocketData, session, set_session, set_data, set_groups}
use u_dara_chat.Server.Topics.{subscribe_standard_topics}

module _ (env : Env) (now : Now) (w : World) (ws : ℕ) (login : AuthenticatedLogin) (op : ℕ) where
  abbrev pub labelled : World
  labelled =
      let w3 = seated env now w ws login in
      set_data w3 ws (record (w3.user_data ws) {
        group_id = (get_current_group_id w3.group_container login.character_name).group_id;
      })

  abbrev pub online : World
  online =
      set_groups labelled
        (set_member_online now.seconds labelled.group_container login.character_name true).0

  pub enter-Quiet : Quiet online (enter env now w ws login op)
  unfolding enter
  enter-Quiet =
      let topics = subscribe_standard_topics-Quiet online ws in
      Quiet-if (is_empty ((subscribe_standard_topics online ws).user_data ws).group_id) topics (
        Quiet-trans topics (
          send_group_update_info-Quiet (subscribe_standard_topics online ws) op
            ((subscribe_standard_topics online ws).user_data ws).group_id))

  -- No other name changes its group.
  enter-group_of :
      (m : Text)
      → group_of (enter env now w ws login op).group_container m
        ≡ group_of (seated env now w ws login).group_container m
  enter-group_of m =
      ap (λ c. group_of c m) enter-Quiet.groups
      ∙ group_of-set_member_online now.seconds labelled.group_container login.character_name true m

  pub enter-own :
      ((enter env now w ws login op).user_data ws).group_id
      ≡ group_of (enter env now w ws login op).group_container login.character_name
  unfolding get_current_group_id
  enter-own =
      let w3 : World = seated env now w ws login in
      enter-Quiet.ids ws
      ∙ ap (λ (d : PerSocketData). d.group_id) (own_data w3 ws _)
      ∙ get_group_info-group_id w3.group_container login.character_name
      ∙ sym (enter-group_of login.character_name)

  enter-others :
      (k : ℕ)
      → k ≢ ws
      → ((enter env now w ws login op).user_data k).group_id
        ≡ ((seated env now w ws login).user_data k).group_id
  enter-others k ne =
      enter-Quiet.ids k
      ∙ ap (λ (d : PerSocketData). d.group_id) (other_data (seated env now w ws login) ws k _ ne)

  pub enter-IsConsistent :
      {gone : List ℕ}
      → IsConsistent gone w
      → (w.user_data ws).connected ≡ false
      → IsConsistent gone (enter env now w ws login op)
  enter-IsConsistent {gone} c off =
      let n : Text = login.character_name in
      let v : World = enter env now w ws login op in
      let w2 : World = retired env now w ws login c off in
      let c2 : IsConsistent (ws ∷ gone) w2 = retired-IsConsistent env now w ws login c off in
      let g : Grows (seated env now w ws login) v = Acts-Grows (enter-Acts env now w ws login op) in
      let name_of : (v.user_data ws).name ≡ n =
        (g.identity ws).name
        ∙ ap (λ (d : PerSocketData). d.name) (seated-data env now w ws login) in
      let connected_of : (v.user_data ws).connected ≡ true =
        (g.identity ws).connected
        ∙ ap (λ (d : PerSocketData). d.connected) (seated-data env now w ws login) in
      record {
        sound =
            (enter-IsSound IsWellFormed (λ c d. Step-WellFormed) env now w ws login op
              (record { container = c.sound })).container;
        single = rw g.sessions (set_session-IsSingle n ws w2.active_sessions c2.single);
        seated = λ m k s. elim (text_cases m n) [
          | inl e ↦
              let t : session n (set_session n ws w2.active_sessions) ≡ some k =
                ap (λ x. session x (set_session n ws w2.active_sessions)) (sym e)
                ∙ ap (session m) (sym g.sessions)
                ∙ s in
              let u = session-set_session n ws w2.active_sessions in
              let own : k ≡ ws = cc in
              rw (own, e) (record { connected = connected_of; name = name_of; group = enter-own })
          | inr ne ↦
              let old : IsSeated w2 m k = c2.seated m k (
                sym (session-set_session_other n m ws w2.active_sessions ne)
                ∙ ap (session m) (sym g.sessions)
                ∙ s) in
              let other : k ≢ ws = λ q. ne (
                sym old.name
                ∙ ap (λ j. (w2.user_data j).name) q
                ∙ ap (λ (d : PerSocketData). d.name) (seated-data env now w ws login)) in
              record {
                connected = (g.identity k).connected ∙ old.connected;
                name = (g.identity k).name ∙ old.name;
                group = enter-others k other ∙ old.group ∙ sym (enter-group_of m);
              }
        ];
        live = λ k l. elim (Bool-cases (k == ws)) [
          | inl h ↦
              rw ((==_iff k ws).0 h, name_of, g.sessions)
                (session-set_session n ws w2.active_sessions)
          | inr h ↦
              let other : k ≢ ws = λ q. ground (arith, ==_iff k ws) in
              let before : IsLive (ws ∷ gone) w2 k = record {
                connected = sym (g.identity k).connected ∙ l.connected;
                not_ended = Adds-has_ended g.effects k l.not_ended;
                not_gone = cons-is_gone gone ws k other l.not_gone;
              } in
              let named : (w2.user_data k).name ≢ n =
                retired-name env now w ws login c off k before in
              rw ((g.identity k).name, g.sessions)
                (session-set_session_other n (w2.user_data k).name ws w2.active_sessions named
                  ∙ c2.live k before)
        ];
      }
