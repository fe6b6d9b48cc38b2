-- ===== src/Server/Integrity.antt =====
-- What every step of the group container keeps, through every event of every socket.
use u_dara_chat.Base.{
  ℕ, ◌≡◌, refl, sym, [], ◌⊎◌, inl, inr, Bool, true, false, not, ◌&&◌, ◌||◌, Option, some, none,
  Text, codes, starts_with, is_empty, drop, ◌==◌, if◌then◌else◌, Bool-cases,
}
use u_dara_chat.Chat.Message.{find_from}
use u_dara_chat.Chat.Raw.{Outcome, fault, refused, done, deserialize_raw}
use u_dara_chat.Group.Container.{set_member_online}
use u_dara_chat.Group.Count.{size}
use u_dara_chat.Group.Info.{get_current_group_id}
use u_dara_chat.Group.NewId.{get_new_group_id}
use u_dara_chat.Group.Reach.{Step, alive, online}
use u_dara_chat.Group.Types.{GroupContainer}
use u_dara_chat.Login.Verify.{AuthenticatedLogin, Result, accepted, rejected, verify_login}
use u_dara_chat.Server.Acts.{Acts, stay, after, regroup, relabel, retopic, effect}
use u_dara_chat.Server.Conduct.{
  on_text-Acts, handle_subscribe_message-Acts, remove_topic_subscription-Acts,
  store_and_subscribe-Acts, subscribe_group_topic-Acts, send_group_update_info-Acts,
}
use u_dara_chat.Server.Events.{
  Env, is_session, on_close, on_binary, end_socket, retire, log_in, enter, on_connect, on_publish,
  on_text, on_message, float_le_zero,
}
use u_dara_chat.Server.Groups.{Now, send_group_update_info}
use u_dara_chat.Server.State.{
  PerSocketData, World, set_groups, set_session, erase_session, set_data, close_socket, emit,
  session,
}
use u_dara_chat.Server.Topics.{subscribe_standard_topics}

position-cases : (o : Option ℕ) → (o ≡ none) ⊎ ((i : ℕ) × (o ≡ some i))
position-cases none = inl refl
position-cases (some i) = inr (i, refl)

pub outcome-cases :
    {A : Type 0} (o : Outcome A) → (o ≡ fault) ⊎ (o ≡ refused) ⊎ ((a : A) × (o ≡ done a))
outcome-cases fault = inl refl
outcome-cases refused = inr (inl refl)
outcome-cases (done a) = inr (inr (a, refl))

pub login-cases :
    (env : Env) (now : Now) (r : Result AuthenticatedLogin)
    → ((l : AuthenticatedLogin) × (r ≡ accepted l)) ⊎ ((t : Text) × (r ≡ rejected t))
login-cases env now (accepted l) = inl (l, refl)
login-cases env now (rejected t) = inr (t, refl)

-- A property of containers that every step of the container keeps.
module _ (P : GroupContainer → Type 0) (step : (c d : GroupContainer) → Step c d → P c → P d) where
  -- The container of a world has the property.
  pub record IsSound (w : World) : Type 0 where
    pub container : P w.group_container

  -- Nothing but the container counts.
  same_container : {u v : World} → IsSound u → u.group_container ≡ v.group_container → IsSound v
  same_container {u} {v} s e = record { container = rw (sym e) s.container }

  Acts-IsSound : {n : Text} {u v : World} → Acts n u v → IsSound u → IsSound v
  Acts-IsSound stay s = s
  Acts-IsSound (after a b) s = Acts-IsSound b (Acts-IsSound a s)
  Acts-IsSound (regroup m) s = record { container = step _ _ m s.container }
  Acts-IsSound (relabel ws g) s = record { container = s.container }
  Acts-IsSound (retopic ws ss) s = record { container = s.container }
  Acts-IsSound (effect h) s = record { container = s.container }

  set_member_online-IsSound :
      (seconds : ℕ) (u v : World) (name : Text) (b : Bool)
      → IsSound u
      → v.group_container ≡ (set_member_online seconds u.group_container name b).0
      → IsSound v
  set_member_online-IsSound seconds u v name b s e = record {
    container = rw e (step _ _ (online seconds u.group_container name b) s.container);
  }

  IsSound-if : {u v : World} (b : Bool) → IsSound u → IsSound v → IsSound (if b then u else v)
  IsSound-if true p q = p
  IsSound-if false p q = q

  send_group_update_info-IsSound :
      (w : World) (op : ℕ) (g : Text) → IsSound w → IsSound (send_group_update_info w op g)
  send_group_update_info-IsSound w op g v =
      Acts-IsSound (send_group_update_info-Acts {n = []} w op g) v

  subscribe_standard_topics-IsSound :
      (w : World) (ws : ℕ) → IsSound w → IsSound (subscribe_standard_topics w ws)
  unfolding subscribe_standard_topics
  subscribe_standard_topics-IsSound w ws v =
      Acts-IsSound (subscribe_group_topic-Acts {n = []} _ ws) (
        Acts-IsSound (store_and_subscribe-Acts {n = []} _ ws _) (
          Acts-IsSound (store_and_subscribe-Acts {n = []} _ ws _)
            (Acts-IsSound (store_and_subscribe-Acts {n = []} w ws _) v)))

  module _ (env : Env) (now : Now) where
    -- A close event.
    pub on_close-IsSound : (w : World) (ws : ℕ) → IsSound w → IsSound (on_close now w ws)
    unfolding on_close
    on_close-IsSound w ws v =
        let d : PerSocketData = w.user_data ws in
        let off : GroupContainer × Bool =
          set_member_online now.seconds w.group_container d.name false in
        let w2 : World =
          set_groups (record w { active_sessions = erase_session d.name w.active_sessions })
            off.0 in
        let offline : IsSound w2 = set_member_online-IsSound now.seconds w w2 d.name false v refl in
        IsSound-if (not d.connected) v (
          IsSound-if (not (is_session (session d.name w.active_sessions) ws)) v (
            IsSound-if (off.1 && not (is_empty d.group_id))
              (send_group_update_info-IsSound w2 1 d.group_id offline) offline))

    pub end_socket-IsSound :
        (w : World) (ws code : ℕ) (reason : Text)
        → IsSound w
        → IsSound (end_socket env now w ws code reason)
    unfolding end_socket
    end_socket-IsSound w ws code reason v =
        let closed : IsSound (emit w (close_socket ws code reason)) = same_container v refl in
        IsSound-if env.closes_at_once (on_close-IsSound _ ws closed) closed

    retire-IsSound :
        (w : World) (ws : ℕ) (o : Option ℕ) → IsSound w → IsSound (retire env now w ws o)
    retire-IsSound w ws none v = v
    retire-IsSound w ws (some old) v = IsSound-if (old == ws) v (end_socket-IsSound w old 1000 _ v)

    pub enter-IsSound :
        (w : World) (ws : ℕ) (login : AuthenticatedLogin) (op : ℕ)
        → IsSound w
        → IsSound (enter env now w ws login op)
    unfolding enter
    enter-IsSound w ws login op v =
        let name : Text = login.character_name in
        let w1 : World = set_data w ws (log_in (w.user_data ws) login) in
        let w2 : World = retire env now w1 ws (session name w1.active_sessions) in
        let w3 : World = record w2 { active_sessions = set_session name ws w2.active_sessions } in
        let group_id : Text = (get_current_group_id w3.group_container name).group_id in
        let w4 : World = set_data w3 ws (record (w3.user_data ws) { group_id = group_id }) in
        let w5 : World =
          set_groups w4 (set_member_online now.seconds w4.group_container name true).0 in
        let w6 : World = subscribe_standard_topics w5 ws in
        let retired : IsSound w2 =
          retire-IsSound w1 ws (session name w1.active_sessions) (same_container v refl) in
        let back : IsSound w5 =
          set_member_online-IsSound now.seconds w2 w5 name true retired refl in
        let entered : IsSound w6 = subscribe_standard_topics-IsSound w5 ws back in
        IsSound-if (is_empty (w6.user_data ws).group_id) entered
          (send_group_update_info-IsSound w6 op (w6.user_data ws).group_id entered)

    on_connect-IsSound :
        (w : World) (ws : ℕ) (msg : Text) (op : ℕ)
        → IsSound w
        → IsSound (on_connect env now w ws msg op)
    unfolding on_connect
    on_connect-IsSound w ws msg op v =
        IsSound-if (w.user_data ws).connected (end_socket-IsSound w ws 1008 _ v)
          (elim (login-cases env now (verify_login env.jwt msg env.secret now.ticks)) [
            | inl (l, e) ↦ rw e (enter-IsSound w ws l op v)
            | inr (t, e) ↦ rw e (end_socket-IsSound w ws 1008 _ v)
          ])

    on_publish-IsSound :
        (w : World) (msg : Text) (op : ℕ) → IsSound w → IsSound (on_publish w msg op)
    unfolding on_publish
    on_publish-IsSound w msg op v = elim (position-cases (find_from b':' msg 8)) [
      | inl e ↦ rw (e, on_publish) v
      | inr (i, e) ↦ rw (e, on_publish) (same_container v refl)
    ]

    on_binary-IsSound :
        (w : World) (ws : ℕ) (msg : Text) (op : ℕ)
        → IsSound w
        → IsSound (on_binary env now w ws msg op)
    unfolding on_binary
    on_binary-IsSound w ws msg op v =
        IsSound-if (not (w.user_data ws).connected || is_empty (w.user_data ws).group_id) v
          (elim (outcome-cases (deserialize_raw msg)) [
            | inl e ↦ rw e v
            | inr (inl e) ↦ rw e v
            | inr (inr (m, e)) ↦ rw e (
                IsSound-if (float_le_zero m.max_health) v (record {
                  container = step _ _ (alive now.seconds w.group_container _) v.container;
                }))
          ])

    -- The frames `publish:` and those before it in the chain.
    on_text_publish :
        (w : World) (ws : ℕ) (msg : Text) (op : ℕ)
        → IsSound w
        → starts_with (codes "connect:") msg ≡ false
        → starts_with (codes "publish:") msg ≡ true
        → IsSound (on_text env now w ws msg op)
    unfolding on_text
    on_text_publish w ws msg op v c p =
        rw (c, p)
          (IsSound-if (not (w.user_data ws).connected) v (
            IsSound-if (starts_with (codes "schedule:") msg) v (
              IsSound-if (starts_with (codes "subscribe:") msg)
                (Acts-IsSound (handle_subscribe_message-Acts {n = []} w ws msg) v)
                (IsSound-if (starts_with (codes "unsubscribe:") msg)
                  (Acts-IsSound (remove_topic_subscription-Acts {n = []} w ws (drop 12 msg)) v)
                  (on_publish-IsSound w msg op v)))))

    on_text-IsSound :
        (w : World) (ws : ℕ) (msg : Text) (op : ℕ)
        → size (get_new_group_id now.dis now.dis2) w.group_container.my_groups ≡ 0
        → IsSound w
        → IsSound (on_text env now w ws msg op)
    on_text-IsSound w ws msg op fresh v = elim (Bool-cases (starts_with (codes "connect:") msg)) [
      | inl c ↦ unfold on_text in rw c (on_connect-IsSound w ws msg op v)
      | inr c ↦ elim (Bool-cases (starts_with (codes "publish:") msg)) [
        | inr p ↦ Acts-IsSound (on_text-Acts env now w ws op fresh msg c p) v
        | inl p ↦ on_text_publish w ws msg op v c p
      ]
    ]

    -- Every text and binary frame of every socket, with a fresh draw for a group id, and every close
    -- event keep the property, whatever the frame holds.
    pub on_message-IsSound :
        (w : World) (ws : ℕ) (msg : Text) (op : ℕ)
        → size (get_new_group_id now.dis now.dis2) w.group_container.my_groups ≡ 0
        → IsSound w
        → IsSound (on_message env now w ws msg op) × IsSound (on_close now w ws)
    unfolding on_message
    on_message-IsSound w ws msg op fresh v = (
      IsSound-if (op == 1) (on_text-IsSound w ws msg op fresh v) (on_binary-IsSound w ws msg op v),
      on_close-IsSound w ws v,
    )
