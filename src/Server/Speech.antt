-- ===== src/Server/Speech.antt =====
-- What a logged-in socket can say and change with a text frame.
use u_dara_chat.Base.{ℕ, ◌≡◌, false, List, ◌++◌, Text, codes, starts_with}
use u_dara_chat.Group.Count.{size}
use u_dara_chat.Group.NewId.{get_new_group_id}
use u_dara_chat.Server.Acts.{
  AllHonest, SameIdentity, Acts-effects, Acts-SameIdentity, Acts-active_sessions,
}
use u_dara_chat.Server.Conduct.{on_text-Acts}
use u_dara_chat.Server.Events.{Env, on_message}
use u_dara_chat.Server.Groups.{Now}
use u_dara_chat.Server.State.{World, Effect}

module _ (env : Env) (now : Now) (w : World) (ws : ℕ)
    (fresh : size (get_new_group_id now.dis now.dis2) w.group_container.my_groups ≡ 0) (msg : Text)
    (no_login : starts_with (codes "connect:") msg ≡ false)
    (no_publish : starts_with (codes "publish:") msg ≡ false) where
  -- A text frame that is neither a login nor the raw `publish:` command, with a fresh draw for a
  -- group id, adds only effects of five kinds: subscriptions, their ends, answers whose sender is
  -- `Server`, messages whose sender is the name of the socket's login, and group updates whose
  -- sender is `GroupAdmin`.
  pub on_message_speech :
      (es : List Effect) × ((on_message env now w ws msg 1).effects ≡ w.effects ++ es)
      × AllHonest (w.user_data ws).name es
  unfolding on_message
  on_message_speech = Acts-effects (on_text-Acts env now w ws 1 fresh msg no_login no_publish)

  -- Such a frame changes no socket's name, zone, administrator's right or login state, and no
  -- session.
  pub on_message_identity :
      ((k : ℕ) → SameIdentity ((on_message env now w ws msg 1).user_data k) (w.user_data k))
      × ((on_message env now w ws msg 1).active_sessions ≡ w.active_sessions)
  unfolding on_message
  on_message_identity =
      let acts = on_text-Acts env now w ws 1 fresh msg no_login no_publish in
      (Acts-SameIdentity acts, Acts-active_sessions acts)
