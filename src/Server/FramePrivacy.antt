-- ===== src/Server/FramePrivacy.antt =====
-- The frames of a socket that has logged in keep the reserved topics with their owners.
use u_dara_chat.Base.{
  ℕ, ◌≡◌, refl, true, false, not, ◌||◌, ◌&&◌, Text, codes, starts_with, drop, is_empty, ◌==◌, arith,
  Bool-cases, Option-cases, inl, inr,
}
use u_dara_chat.Chat.CmdType.{
  ChatCmdType, tell, group, zone, channel, group_invite, group_join, group_disband, alive,
  admin_status, admin_groups, admin_zones, admin_channels, admin_info, admin_error,
}
use u_dara_chat.Chat.Message.{DaraChatMsg, Parsed, find_from, try_parse_message}
use u_dara_chat.Chat.Raw.{deserialize_raw}
use u_dara_chat.Server.Events.{
  Env, on_admin, on_tell, on_group, on_publish, on_chat, from_socket, on_text, on_binary,
  on_message, float_le_zero,
}
use u_dara_chat.Server.Groups.{Now}
use u_dara_chat.Server.GroupPrivacy.{
  handle_group_invite-IsGuarded, handle_group_join-IsGuarded, handle_group_disband-IsGuarded,
  handle_alive-IsGuarded,
}
use u_dara_chat.Server.Guarded.{silent-IsGuarded, IsGuarded-if, set_groups-IsGuarded}
use u_dara_chat.Server.Subscribing.{
  remove_topic_subscription-IsGuarded, handle_subscribe_message-IsGuarded,
}
use u_dara_chat.Server.Hearing.{IsGuarded}
use u_dara_chat.Server.Integrity.{outcome-cases}
use u_dara_chat.Server.State.{World}

on_publish-IsGuarded :
    (w : World) (msg : Text) (op : ℕ) → IsGuarded w → IsGuarded (on_publish w msg op)
unfolding on_publish
on_publish-IsGuarded w msg op g = elim (Option-cases (find_from b':' msg 8)) [
  | inl e ↦ rw (e, on_publish) g
  | inr (i, e) ↦ rw (e, on_publish) (silent-IsGuarded w _ refl g)
]

module _ (env : Env) (now : Now) (w : World) (ws op : ℕ) (g : IsGuarded w) where
  on_admin-IsGuarded : (msg : DaraChatMsg) → IsGuarded (on_admin env now w ws msg)
  unfolding on_admin
  on_admin-IsGuarded msg = silent-IsGuarded w _ refl g

  on_tell-IsGuarded : (msg : DaraChatMsg) → IsGuarded (on_tell env now w ws msg op)
  unfolding on_tell
  on_tell-IsGuarded msg =
      IsGuarded-if _ _ _ (IsGuarded-if _ w _ g (silent-IsGuarded w _ refl g))
        (silent-IsGuarded w _ refl g)

  on_group-IsGuarded : (msg : DaraChatMsg) → IsGuarded (on_group w ws msg op)
  unfolding on_group
  on_group-IsGuarded msg = IsGuarded-if _ w _ g (silent-IsGuarded w _ refl g)

  on_chat-IsGuarded :
      (msg : DaraChatMsg)
      → (w.user_data ws).connected ≡ true
      → (k : ChatCmdType) → IsGuarded (on_chat env now w ws msg op k)
  unfolding on_chat
  on_chat-IsGuarded msg on admin_status = on_admin-IsGuarded msg
  on_chat-IsGuarded msg on admin_groups = on_admin-IsGuarded msg
  on_chat-IsGuarded msg on admin_zones = on_admin-IsGuarded msg
  on_chat-IsGuarded msg on admin_channels = on_admin-IsGuarded msg
  on_chat-IsGuarded msg on admin_info = on_admin-IsGuarded msg
  on_chat-IsGuarded msg on admin_error = on_admin-IsGuarded msg
  on_chat-IsGuarded msg on channel = silent-IsGuarded w _ refl g
  on_chat-IsGuarded msg on zone = silent-IsGuarded w _ refl g
  on_chat-IsGuarded msg on group = on_group-IsGuarded msg
  on_chat-IsGuarded msg on tell = on_tell-IsGuarded msg
  on_chat-IsGuarded msg on group_invite = handle_group_invite-IsGuarded now ws op msg w on g
  on_chat-IsGuarded msg on group_join = handle_group_join-IsGuarded now ws op msg w on g
  on_chat-IsGuarded msg on group_disband = handle_group_disband-IsGuarded now ws op msg w on g
  on_chat-IsGuarded msg on alive = handle_alive-IsGuarded now ws op msg w g
  on_chat-IsGuarded msg on _ = g

  on_text-IsGuarded :
      (msg : Text)
      → starts_with (codes "connect:") msg ≡ false
      → (w.user_data ws).connected ≡ true
      → IsGuarded (on_text env now w ws msg op)
  unfolding on_text
  on_text-IsGuarded msg no_login on =
      let parsed : Parsed = try_parse_message msg in
      rw (no_login, on)
        (IsGuarded-if (starts_with (codes "schedule:") msg) w _ g (
          IsGuarded-if (starts_with (codes "subscribe:") msg) _ _
            (handle_subscribe_message-IsGuarded w ws msg on g)
            (IsGuarded-if (starts_with (codes "unsubscribe:") msg) _ _
              (remove_topic_subscription-IsGuarded w ws (drop 12 msg) on g)
              (IsGuarded-if (starts_with (codes "publish:") msg) _ _
                (on_publish-IsGuarded w msg op g)
                (IsGuarded-if (not parsed.ok) w _ g
                  (on_chat-IsGuarded (from_socket w ws parsed.output) on parsed.output.kind))))))

  on_binary-IsGuarded : (msg : Text) → IsGuarded (on_binary env now w ws msg op)
  unfolding on_binary
  on_binary-IsGuarded msg =
      IsGuarded-if (not (w.user_data ws).connected || is_empty (w.user_data ws).group_id) w _ g
        (elim (outcome-cases (deserialize_raw msg)) [
          | inl e ↦ rw e g
          | inr (inl e) ↦ rw e g
          | inr (inr (m, e)) ↦ rw e (
              IsGuarded-if (float_le_zero m.max_health) w _ g
                (set_groups-IsGuarded _ _ (silent-IsGuarded w _ refl g)))
        ])

  -- A frame of a socket that has logged in.
  pub frame-IsGuarded :
      (msg : Text)
      → (op == 1 && starts_with (codes "connect:") msg) ≡ false
      → (w.user_data ws).connected ≡ true
      → IsGuarded (on_message env now w ws msg op)
  unfolding on_message
  frame-IsGuarded msg no_login on = elim (Bool-cases (op == 1)) [
    | inl h ↦ rw h (on_text-IsGuarded msg (ground arith) on)
    | inr h ↦ rw h (on_binary-IsGuarded msg)
  ]
