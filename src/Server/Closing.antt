-- ===== src/Server/Closing.antt =====
-- `end` and the close event keep sessions, sockets and container consistent.
use u_dara_chat.Base.{
  ℕ, ◌≡◌, refl, sym, ap, ◌∙◌, Bool, true, false, not, ◌&&◌, List, [], ◌∷◌, append-nil, Option, none,
  some, Text, text_cases, any_of, is_empty, ==_iff, arith, if◌then◌else◌, Bool-cases, inl, inr,
}
use u_dara_chat.Group.Container.{set_member_online}
use u_dara_chat.Group.Names.{group_of-set_member_online}
use u_dara_chat.Group.Steps.{set_member_online-WellFormed}
use u_dara_chat.Server.Consistent.{
  closes, has_ended, Adds-has_ended, IsLive, IsConsistent, any_of-append, emit-IsConsistent,
}
use u_dara_chat.Server.Events.{Env, is_session, on_close, end_socket}
use u_dara_chat.Server.Grows.{Adds, Adds-refl, Adds-trans, Adds-if}
use u_dara_chat.Server.Groups.{Now, send_group_update_info}
use u_dara_chat.Server.Roster.{session-erase_session_other, erase_session-IsSingle}
use u_dara_chat.Server.State.{close_socket, World, session, erase_session, emit}

pub IsConsistent-if :
    {gone : List ℕ} {u v : World} (b : Bool)
    → IsConsistent gone u
    → IsConsistent gone v
    → IsConsistent gone (if b then u else v)
IsConsistent-if true p q = p
IsConsistent-if false p q = q

send_group_update_info-IsConsistent :
    {gone : List ℕ} (w : World) (op : ℕ) (g : Text)
    → IsConsistent gone w
    → IsConsistent gone (send_group_update_info w op g)
unfolding send_group_update_info
send_group_update_info-IsConsistent w op g c = emit-IsConsistent _ c

found-session : (o : Option ℕ) (k ws : ℕ) → is_session o ws ≡ true → o ≡ some k → k ≡ ws
found-session none k ws h e = cc
found-session (some v) k ws h e = sym (unwrap e) ∙ (==_iff v ws).0 h
  where
    unwrap : some v ≡ some k → v ≡ k
    unwrap e = cc

module _ {gone : List ℕ} (now : Now) (w : World) (ws : ℕ) (c : IsConsistent gone w)
    (dead : ¬ IsLive gone w ws) where
  -- The close event of the session of its name.
  session_closes :
      is_session (session (w.user_data ws).name w.active_sessions) ws ≡ true
      → IsConsistent gone (record w {
        active_sessions = erase_session (w.user_data ws).name w.active_sessions;
        group_container =
            (set_member_online now.seconds w.group_container (w.user_data ws).name false).0;
      })
  session_closes h =
      let n : Text = (w.user_data ws).name in
      record {
        sound = set_member_online-WellFormed now.seconds w.group_container n false c.sound;
        single = erase_session-IsSingle n w.active_sessions c.single;
        seated = λ m k s. elim (text_cases m n) [
          | inl e ↦ cc (rw (e, c.single n) at s)
          | inr ne ↦
              let old =
                c.seated m k (sym (session-erase_session_other n m w.active_sessions ne) ∙ s) in
              record {
                connected = old.connected;
                name = old.name;
                group =
                    old.group
                    ∙ sym (group_of-set_member_online now.seconds w.group_container n false m);
              }
        ];
        live = λ k l.
            let before : IsLive gone w k = record {
              connected = l.connected;
              not_ended = l.not_ended;
              not_gone = l.not_gone;
            } in
            let s : session (w.user_data k).name w.active_sessions ≡ some k = c.live k before in
            elim (text_cases (w.user_data k).name n) [
              | inl e ↦
                  let own : k ≡ ws =
                    found-session (session n w.active_sessions) k ws h
                      (ap (λ m. session m w.active_sessions) (sym e) ∙ s) in
                  absurd (dead (rw (sym own) before))
              | inr ne ↦ session-erase_session_other n (w.user_data k).name w.active_sessions ne ∙ s
            ];
      }

  pub on_close-IsConsistent : IsConsistent gone (on_close now w ws)
  unfolding on_close
  on_close-IsConsistent =
      elim (Bool-cases (is_session (session (w.user_data ws).name w.active_sessions) ws)) [
        | inr other ↦ rw other (IsConsistent-if (not (w.user_data ws).connected) c c)
        | inl own ↦ rw own (
            IsConsistent-if (not (w.user_data ws).connected) c (
              IsConsistent-if
                ((set_member_online now.seconds w.group_container (w.user_data ws).name false).1
                  && not (is_empty (w.user_data ws).group_id))
                (send_group_update_info-IsConsistent _ 1 (w.user_data ws).group_id
                  (session_closes own))
                (session_closes own)))
      ]

on_close-Adds : (now : Now) (w : World) (ws : ℕ) → Adds w (on_close now w ws)
unfolding on_close send_group_update_info
on_close-Adds now w ws = Adds-if (not (w.user_data ws).connected) Adds-refl (
    Adds-if (not (is_session (session (w.user_data ws).name w.active_sessions) ws)) Adds-refl (
      Adds-if
        ((set_member_online now.seconds w.group_container (w.user_data ws).name false).1
          && not (is_empty (w.user_data ws).group_id))
        (record { more = _; appended = refl })
        (record { more = []; appended = sym (append-nil w.effects) })))

module _ (env : Env) (now : Now) (w : World) (ws code : ℕ) (reason : Text) where
  closing-has_ended : has_ended ws (emit w (close_socket ws code reason)) ≡ true
  unfolding any_of
  closing-has_ended =
      any_of-append (closes ws) w.effects (close_socket ws code reason ∷ [])
      ∙ ground (arith, ==_iff ws ws)

  end_socket-after :
      Adds (emit w (close_socket ws code reason)) (end_socket env now w ws code reason)
  unfolding end_socket
  end_socket-after =
      let w1 : World = emit w (close_socket ws code reason) in
      Adds-if env.closes_at_once (on_close-Adds now w1 ws) Adds-refl

  pub end_socket-Adds : Adds w (end_socket env now w ws code reason)
  end_socket-Adds =
      Adds-trans (record { more = close_socket ws code reason ∷ []; appended = refl })
        end_socket-after

  pub end_socket-has_ended : has_ended ws (end_socket env now w ws code reason) ≡ true
  end_socket-has_ended = elim (Bool-cases (has_ended ws (end_socket env now w ws code reason))) [
    | inl h ↦ h
    | inr f ↦
        let g : has_ended ws (emit w (close_socket ws code reason)) ≡ false =
          Adds-has_ended end_socket-after ws f in
        let t = closing-has_ended in cc
  ]

  pub end_socket-IsConsistent :
      {gone : List ℕ}
      → IsConsistent gone w
      → IsConsistent gone (end_socket env now w ws code reason)
  unfolding end_socket
  end_socket-IsConsistent {gone} c =
      let w1 : World = emit w (close_socket ws code reason) in
      let c1 : IsConsistent gone w1 = emit-IsConsistent (close_socket ws code reason) c in
      let t = closing-has_ended in
      let dead : ¬ IsLive gone w1 ws = λ l. let f = l.not_ended in cc in
      IsConsistent-if env.closes_at_once (on_close-IsConsistent now w1 ws c1 dead) c1
