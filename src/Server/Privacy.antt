-- ===== src/Server/Privacy.antt =====
-- Who hears what: the reserved topics in a run of the server.
use u_dara_chat.Base.{
  ℕ, ◌≤◌, ◌≡◌, refl, ap, ◌∙◌, ◌⊎◌, inl, inr, true, false, ◌&&◌, List, [], ◌∷◌, ◌++◌, Text, codes,
  text_eq, text_eq_iff, starts_with, any_of, count_if, ◌==◌, arith, Bool-cases,
}
use u_dara_chat.Group.Container.{get_group_topic}
use u_dara_chat.Group.Names.{group_of}
use u_dara_chat.Group.Prefixed.{Reach-topic}
use u_dara_chat.Login.Verify.{verify_login}
use u_dara_chat.Server.Reached.{Run-Reach}
use u_dara_chat.Server.Consistent.{IsLive}
use u_dara_chat.Server.Events.{Env, on_connect, on_text, on_message}
use u_dara_chat.Server.FramePrivacy.{frame-IsGuarded}
use u_dara_chat.Server.Groups.{Now}
use u_dara_chat.Server.Hearing.{
  hears, hears_after, is_reserved, is_own, is_foreign, IsPrivate, IsGuarded,
}
use u_dara_chat.Server.History.{
  new_world, Run, boot, opened, received, closed, silent, Run-IsConsistent,
}
use u_dara_chat.Server.Integrity.{login-cases}
use u_dara_chat.Server.LoginPrivacy.{on_close-IsGuarded, end_socket-IsGuarded, enter-IsGuarded}
use u_dara_chat.Server.Opening.{on_open-IsGuarded}
use u_dara_chat.Server.Slots.{held}
use u_dara_chat.Server.State.{TopicSlot, PerSocketData, World}
use u_dara_chat.Server.Topics.{to_lower, holds}

new_world-IsGuarded : IsGuarded new_world
unfolding hears_after count_if any_of
new_world-IsGuarded = record {
  each = λ k. record {
    heard = λ t r h. ground (arith, h);
    kept = refl;
    one_group = omega arith;
    offline = λ off. refl;
  };
}

module _ (env : Env) (now : Now) (w : World) (ws : ℕ) (g : IsGuarded w) where
  on_connect-IsGuarded : (msg : Text) (op : ℕ) → IsGuarded (on_connect env now w ws msg op)
  unfolding on_connect
  on_connect-IsGuarded msg op = elim (Bool-cases (w.user_data ws).connected) [
    | inl on ↦
        rw on (end_socket-IsGuarded env now w ws 1008 (codes "Reconnect to reauthenticate") g)
    | inr off ↦ rw off (elim (login-cases env now (verify_login env.jwt msg env.secret now.ticks)) [
      | inl (login, e) ↦ rw e (enter-IsGuarded env now w ws login op off g)
      | inr (reason, e) ↦
          rw e (end_socket-IsGuarded env now w ws 1008 (codes "Authentication failed") g)
    ])
  ]

  on_message-IsGuarded : (msg : Text) (op : ℕ) → IsGuarded (on_message env now w ws msg op)
  on_message-IsGuarded msg op = elim (Bool-cases (op == 1 && starts_with (codes "connect:") msg)) [
    | inl login ↦
        let text : op == 1 ≡ true = ground arith in
        let connect : starts_with (codes "connect:") msg ≡ true = ground arith in
        unfold on_message in unfold on_text in rw (text, connect) (on_connect-IsGuarded msg op)
    | inr plain ↦ elim (Bool-cases (w.user_data ws).connected) [
      | inl on ↦ frame-IsGuarded env now w ws op g msg plain on
      | inr off ↦ rw (silent env now w ws msg op off plain) g
    ]
  ]

-- The reserved topics stay with their owners.
pub Run-IsGuarded : (env : Env) {gone : List ℕ} {w : World} → Run env gone w → IsGuarded w
Run-IsGuarded env boot = new_world-IsGuarded
Run-IsGuarded env (opened {w = w} ws pointer r) =
    on_open-IsGuarded w ws pointer (Run-IsGuarded env r)
Run-IsGuarded env (received {w = w} now ws msg op not_ended not_gone fresh r) =
    on_message-IsGuarded env now w ws (Run-IsGuarded env r) msg op
Run-IsGuarded env (closed {w = w} now ws r) = on_close-IsGuarded now w ws (Run-IsGuarded env r)

held-own :
    (d : PerSocketData) (t : Text) (ss : List TopicSlot)
    → is_reserved t ≡ true
    → 1 ≤ held t ss
    → any_of (is_foreign d) ss ≡ false
    → is_own d t ≡ true
unfolding any_of count_if
held-own d t [] r h k = ground (arith, h)
held-own d t (s ∷ ss) r h k = elim (Bool-cases (holds t s)) [
  | inl e ↦
      let same : s.topic ≡ t = ground (arith, text_eq_iff s.topic t) in
      let used : s.used ≡ true = ground arith in ground (arith, rw (same, used) at k, r)
  | inr e ↦ held-own d t ss r (ground arith) (ground (arith, k))
]

-- A topic that anybody may ask for, or the topic of the socket's own name, zone or group.
abbrev pub MayHear : World → ℕ → Text → Type 0
MayHear w ws t =
    (is_reserved t ≡ false)
    ⊎ (t ≡ codes "tell_" ++ to_lower (w.user_data ws).name)
    ⊎ (t ≡ codes "zone_" ++ (w.user_data ws).zone)
    ⊎ (t ≡ group_of w.group_container (w.user_data ws).name)

own-cases :
    (d : PerSocketData) (t : Text)
    → is_own d t ≡ true
    → (t ≡ codes "tell_" ++ to_lower d.name)
      ⊎ (t ≡ codes "zone_" ++ d.zone)
      ⊎ (t ≡ get_group_topic d.group_id)
own-cases d t h = elim (Bool-cases (text_eq t (codes "tell_" ++ to_lower d.name))) [
  | inl e ↦ inl ((text_eq_iff _ _).0 e)
  | inr e ↦ elim (Bool-cases (text_eq t (codes "zone_" ++ d.zone))) [
    | inl f ↦ inr (inl ((text_eq_iff _ _).0 f))
    | inr f ↦ inr (inr (ground (arith, h, e, f, text_eq_iff t (get_group_topic d.group_id))))
  ]
]

-- In every run of the server, with any number of sockets that open, send any frames in any order
-- and close: a topic that a live socket is subscribed to has none of the prefixes `tell_`,
-- `group_` and `zone_`, or it is the `tell_` topic of the socket's own name in small letters, the
-- topic of its own zone, or the id of the group that the container has for its name at that
-- moment. So a live socket hears no private message for a name that differs from its own in more
-- than capitals, and a member who has left a group no longer hears it. A run hands over no frame
-- of a socket that was ended or closed, and draws only group ids that no group has.
pub Run-MayHear :
    (env : Env) {gone : List ℕ} {w : World} (ws : ℕ) (t : Text)
    → Run env gone w
    → IsLive gone w ws
    → hears ws t w.effects ≡ true
    → MayHear w ws t
Run-MayHear env {w = w} ws t run live h = elim (Bool-cases (is_reserved t)) [
  | inr plain ↦ inl plain
  | inl reserved ↦
      let d : PerSocketData = w.user_data ws in
      let p : IsPrivate ws d w.effects = (Run-IsGuarded env run).each ws in
      let c = Run-IsConsistent env run in
      let group : d.group_id ≡ group_of w.group_container d.name =
        (c.seated d.name ws (c.live ws live)).group in
      elim (own-cases d t (held-own d t d.topics reserved (p.heard t reserved h) p.kept)) [
        | inl e ↦ inr (inl e)
        | inr (inl e) ↦ inr (inr (inl e))
        | inr (inr e) ↦
            inr (inr (inr (e ∙ ap get_group_topic group ∙ Reach-topic d.name (Run-Reach env run))))
      ]
]
