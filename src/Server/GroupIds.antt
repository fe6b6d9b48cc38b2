-- ===== src/Server/GroupIds.antt =====
-- The frames of a socket that has logged in, and the group ids of the sockets.
use u_dara_chat.Base.{
  ℕ, ◌≡◌, refl, ◌&&◌, Bool-cases, arith, ◌≢◌, false, not, ◌||◌, Text, codes, starts_with, is_empty,
  drop, ◌==◌, inl, inr, Option-cases,
}
use u_dara_chat.Chat.CmdType.{
  ChatCmdType, tell, group, zone, channel, group_invite, group_join, group_disband, alive,
  admin_status, admin_groups, admin_zones, admin_channels, admin_info, admin_error,
}
use u_dara_chat.Chat.Message.{DaraChatMsg, Parsed, find_from, try_parse_message}
use u_dara_chat.Chat.Raw.{deserialize_raw}
use u_dara_chat.Group.Count.{size}
use u_dara_chat.Group.Names.{group_of, group_of-alive_msg}
use u_dara_chat.Group.Presence.{alive_msg-Marks}
use u_dara_chat.Group.Reach.{Step-WellFormed}
use u_dara_chat.Group.Steps.{IsWellFormed}
use u_dara_chat.Group.NewId.{get_new_group_id}
use u_dara_chat.Server.Events.{
  Env, on_admin, on_tell, on_group, on_publish, on_chat, from_socket, on_text, on_binary,
  on_message, float_le_zero,
}
use u_dara_chat.Server.Groups.{Now}
use u_dara_chat.Server.Integrity.{outcome-cases, on_message-IsSound}
use u_dara_chat.Server.Keeps.{
  Quiet, Quiet-refl, Quiet-if, emit-Quiet, Keeps, Quiet-Keeps, Keeps-if, Keeps-trans, regroup-Keeps,
  remove_topic_subscription-Quiet, handle_subscribe_message-Quiet,
}
use u_dara_chat.Server.Membership.{
  InStep, handle_group_invite-Keeps, handle_group_join-Keeps, handle_group_disband-Keeps,
  handle_alive-Keeps,
}
use u_dara_chat.Server.State.{World}

on_publish-Quiet : (w : World) (msg : Text) (op : ℕ) → Quiet w (on_publish w msg op)
unfolding on_publish
on_publish-Quiet w msg op = elim (Option-cases (find_from b':' msg 8)) [
  | inl e ↦ rw (e, on_publish) Quiet-refl
  | inr (i, e) ↦ rw (e, on_publish) (emit-Quiet _ Quiet-refl)
]

module _ (env : Env) (now : Now) (w : World) (ws op : ℕ) where
  on_admin-Quiet : (msg : DaraChatMsg) → Quiet w (on_admin env now w ws msg)
  unfolding on_admin
  on_admin-Quiet msg = emit-Quiet _ Quiet-refl

  on_tell-Quiet : (msg : DaraChatMsg) → Quiet w (on_tell env now w ws msg op)
  unfolding on_tell
  on_tell-Quiet msg =
      Quiet-if _ (Quiet-if _ Quiet-refl (emit-Quiet _ Quiet-refl)) (emit-Quiet _ Quiet-refl)

  on_group-Quiet : (msg : DaraChatMsg) → Quiet w (on_group w ws msg op)
  unfolding on_group
  on_group-Quiet msg = Quiet-if _ Quiet-refl (emit-Quiet _ Quiet-refl)

  on_chat-Keeps :
      (msg : DaraChatMsg)
      → InStep ws msg.sender w
      → (k : ChatCmdType) → Keeps ws msg.sender w (on_chat env now w ws msg op k)
  unfolding on_chat
  on_chat-Keeps msg s admin_status = Quiet-Keeps (on_admin-Quiet msg)
  on_chat-Keeps msg s admin_groups = Quiet-Keeps (on_admin-Quiet msg)
  on_chat-Keeps msg s admin_zones = Quiet-Keeps (on_admin-Quiet msg)
  on_chat-Keeps msg s admin_channels = Quiet-Keeps (on_admin-Quiet msg)
  on_chat-Keeps msg s admin_info = Quiet-Keeps (on_admin-Quiet msg)
  on_chat-Keeps msg s admin_error = Quiet-Keeps (on_admin-Quiet msg)
  on_chat-Keeps msg s channel = Quiet-Keeps (emit-Quiet _ Quiet-refl)
  on_chat-Keeps msg s zone = Quiet-Keeps (emit-Quiet _ Quiet-refl)
  on_chat-Keeps msg s group = Quiet-Keeps (on_group-Quiet msg)
  on_chat-Keeps msg s tell = Quiet-Keeps (on_tell-Quiet msg)
  on_chat-Keeps msg s group_invite = handle_group_invite-Keeps now ws op msg w s
  on_chat-Keeps msg s group_join = handle_group_join-Keeps now ws op msg w s
  on_chat-Keeps msg s group_disband = handle_group_disband-Keeps now ws op msg w s.sound
  on_chat-Keeps msg s alive = handle_alive-Keeps now ws op msg w
  on_chat-Keeps msg s _ = Quiet-Keeps Quiet-refl

  on_text-Keeps :
      (msg : Text)
      → starts_with (codes "connect:") msg ≡ false
      → InStep ws (w.user_data ws).name w
      → Keeps ws (w.user_data ws).name w (on_text env now w ws msg op)
  unfolding on_text
  on_text-Keeps msg no_login s =
      let parsed : Parsed = try_parse_message msg in
      let idle : Keeps ws (w.user_data ws).name w w = Quiet-Keeps Quiet-refl in
      rw no_login (
        Keeps-if (not (w.user_data ws).connected) idle (
          Keeps-if (starts_with (codes "schedule:") msg) idle (
            Keeps-if (starts_with (codes "subscribe:") msg)
              (Quiet-Keeps (handle_subscribe_message-Quiet w ws msg))
              (Keeps-if (starts_with (codes "unsubscribe:") msg)
                (Quiet-Keeps (remove_topic_subscription-Quiet w ws (drop 12 msg)))
                (Keeps-if (starts_with (codes "publish:") msg)
                  (Quiet-Keeps (on_publish-Quiet w msg op))
                  (Keeps-if (not parsed.ok) idle
                    (on_chat-Keeps (from_socket w ws parsed.output) s parsed.output.kind)))))))

  on_binary-Keeps : (msg : Text) → Keeps ws (w.user_data ws).name w (on_binary env now w ws msg op)
  unfolding on_binary
  on_binary-Keeps msg =
      Keeps-if (not (w.user_data ws).connected || is_empty (w.user_data ws).group_id)
        (Quiet-Keeps Quiet-refl)
        (elim (outcome-cases (deserialize_raw msg)) [
          | inl e ↦ rw e (Quiet-Keeps Quiet-refl)
          | inr (inl e) ↦ rw e (Quiet-Keeps Quiet-refl)
          | inr (inr (m, e)) ↦ rw e (
              Keeps-if (float_le_zero m.max_health) (Quiet-Keeps Quiet-refl) (
                Keeps-trans (Quiet-Keeps (emit-Quiet _ Quiet-refl)) (
                  regroup-Keeps _ _ (group_of-alive_msg now.seconds w.group_container _)
                    (alive_msg-Marks (w.user_data ws).name now.seconds w.group_container _ refl))))
        ])

pub on_message-Keeps :
    (env : Env) (now : Now) (w : World) (ws : ℕ) (msg : Text) (op : ℕ)
    → (op == 1 && starts_with (codes "connect:") msg) ≡ false
    → InStep ws (w.user_data ws).name w
    → Keeps ws (w.user_data ws).name w (on_message env now w ws msg op)
unfolding on_message
on_message-Keeps env now w ws msg op no_login s = elim (Bool-cases (op == 1)) [
  | inl h ↦ rw h (on_text-Keeps env now w ws op msg (ground arith) s)
  | inr h ↦ rw h (on_binary-Keeps env now w ws op msg)
]

pub on_message-InStep :
    (env : Env) (now : Now) (w : World) (ws : ℕ) (msg : Text) (op : ℕ)
    → (op == 1 && starts_with (codes "connect:") msg) ≡ false
    → size (get_new_group_id now.dis now.dis2) w.group_container.my_groups ≡ 0
    → InStep ws (w.user_data ws).name w
    → ((k : ℕ)
        → k ≢ ws
        → ((on_message env now w ws msg op).user_data k).group_id ≡ (w.user_data k).group_id)
      × ((m : Text)
          → m ≢ (w.user_data ws).name
          → group_of (on_message env now w ws msg op).group_container m
            ≡ group_of w.group_container m)
      × InStep ws (w.user_data ws).name (on_message env now w ws msg op)
on_message-InStep env now w ws msg op no_login fresh s =
    let kept : Keeps ws (w.user_data ws).name w (on_message env now w ws msg op) =
      on_message-Keeps env now w ws msg op no_login s in
    (
      kept.others,
      kept.elsewhere,
      record {
        step = kept.own s.step;
        sound =
            (on_message-IsSound IsWellFormed (λ c d. Step-WellFormed) env now w ws msg op fresh
              (record { container = s.sound })).0.container;
      },
    )
