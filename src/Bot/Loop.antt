-- ===== src/Bot/Loop.antt =====
-- `Client::ChatLoop`: one round of a mode. The two `static` counters are the state. Rounds are at least
-- a second apart, so the counters stay far below the range of `int`.
use u_dara_chat.Base.Decimal.{to_string}
use u_dara_chat.Base.{ℕ, suc, List, [], ◌∷◌, ◌++◌, Text, codes, text_eq, ◌==◌, if◌then◌else◌}
use u_dara_chat.Bot.Chatter.{
  Chatter, said, get_random_chat_partner, get_random_chat_msg, get_random_zone_msg,
  get_random_tell_msg, get_random_group_msg, get_random_invite,
}
use u_dara_chat.Bot.Reply.{Frame, opcode_text, opcode_binary, text_frame, alive_message}
use u_dara_chat.Chat.CmdType.{group, group_join, group_invite, group_disband, tell}
use u_dara_chat.Chat.Raw.{DaraRawChatMsg, serialize_raw}

pub record Counters : Type 0 where
  pub count : ℕ
  pub up_time_counter : ℕ

abbrev pub new_counters : Counters
new_counters = record { count = 0; up_time_counter = 0 }

-- The random draws of one round, in their order.
pub record Draws : Type 0 where
  pub first : ℕ
  pub second : ℕ

abbrev frame_of : Text → Frame
frame_of payload = record { opcode = opcode_text; payload = payload }

abbrev reset : Counters → Counters
reset n = record n { count = 0 }

unfoldable pub chatting : Chatter → Draws → Counters → Counters × List Frame
chatting c d n =
    if n.count == 1
    then (n, frame_of (get_random_chat_msg c d.first) ∷ [])
    else if n.count == 2
    then (n, frame_of (get_random_zone_msg c d.first) ∷ [])
    else if n.count == 3
    then (n, frame_of (get_random_tell_msg c d.first d.second) ∷ [])
    else if n.count == 4
    then (reset n, frame_of (get_random_group_msg c d.first) ∷ [])
    else (n, frame_of [] ∷ [])

-- The floats of the binary mode, as their bytes.
unfoldable pub binary_message : Chatter → DaraRawChatMsg
binary_message c = record (alive_message c) {
  health = 0 ∷ 0 ∷ 180 ∷ 66 ∷ [];
  max_health = 0 ∷ 0 ∷ 182 ∷ 66 ∷ [];
  mana = 0 ∷ 0 ∷ 184 ∷ 66 ∷ [];
  max_mana = 0 ∷ 0 ∷ 186 ∷ 66 ∷ [];
  energy = 0 ∷ 0 ∷ 188 ∷ 66 ∷ [];
  max_energy = 0 ∷ 0 ∷ 190 ∷ 66 ∷ [];
}

unfoldable pub group_tests : Chatter → Draws → Counters → Counters × List Frame
group_tests c d n =
    if n.count == 2
    then (n, text_frame (said c group_disband [] []) ∷ [])
    else if n.count == 5
    then (reset n, text_frame (said c group_join (get_random_chat_partner c d.first) []) ∷ [])
    else (n, [])

unfoldable pub group_member : Chatter → Draws → Counters → Counters × List Frame
group_member c d n =
    if n.count == 1
    then (n, text_frame (said c group_disband [] []) ∷ [])
    else if n.count == 4
    then (n, text_frame (said c group_join (get_random_chat_partner c d.first) []) ∷ [])
    else if n.count == 5
    then (
      n,
      text_frame (said c group [] (codes "I am in your group now " ++ to_string n.up_time_counter))
          ∷ [],
    )
    else if n.count == 10
    then (reset n, text_frame (said c group_disband [] []) ∷ [])
    else (n, [])

unfoldable pub group_leader : Chatter → Draws → Counters → Counters × List Frame
group_leader c d n =
    if n.count == 2
    then (n, text_frame (said c group_invite (get_random_chat_partner c d.first) []) ∷ [])
    else if n.count == 5
    then (
      reset n,
      text_frame (said c group [] (codes "Welcome to my group " ++ to_string n.up_time_counter))
          ∷ [],
    )
    else (n, [])

unfoldable pub ping_pong : Chatter → Draws → Counters → Counters × List Frame
ping_pong c d n =
    if n.count == 4
    then (
      reset n,
      text_frame (
            said c tell (get_random_chat_partner c d.first)
              (codes "Ping " ++ to_string n.up_time_counter))
          ∷ [],
    )
    else (n, [])

unfoldable pub chat_loop : Text → Chatter → Draws → Counters → Counters × List Frame
chat_loop mode c d before =
    let n : Counters = record {
      count = suc before.count;
      up_time_counter = suc before.up_time_counter;
    } in
    if text_eq mode (codes "chatting")
    then chatting c d n
    else if text_eq mode (codes "inviting")
    then (n, frame_of (get_random_invite c d.first) ∷ [])
    else if text_eq mode (codes "Binary")
    then (n, record { opcode = opcode_binary; payload = serialize_raw (binary_message c) } ∷ [])
    else if text_eq mode (codes "grouptests")
    then group_tests c d n
    else if text_eq mode (codes "schedule")
    then (n, frame_of (codes "schedule:") ∷ [])
    else if text_eq mode (codes "groupmember")
    then group_member c d n
    else if text_eq mode (codes "groupleader")
    then group_leader c d n
    else if text_eq mode (codes "pingpong")
    then ping_pong c d n
    else (n, [])
