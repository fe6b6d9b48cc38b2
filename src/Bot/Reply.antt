-- ===== src/Bot/Reply.antt =====
-- `Client::onWSMsg` and `ChatReply`: what the bot answers to a frame. A frame that it sends is an
-- opcode and a payload; the socket is not modelled.
use u_dara_chat.Base.{ℕ, not, List, [], ◌∷◌, Text, codes, starts_with, ◌==◌, if◌then◌else◌}
use u_dara_chat.Bot.Chatter.{Chatter, said}
use u_dara_chat.Chat.CmdType.{ChatCmdType, group_invite, group_join, tell, group_info}
use u_dara_chat.Chat.Message.{DaraChatMsg, serialize, try_parse_message}
use u_dara_chat.Chat.Raw.{DaraRawChatMsg, serialize_raw}

pub record Frame : Type 0 where
  pub opcode : ℕ
  pub payload : Text

-- `OPCODE_TEXT`, `OPCODE_BINARY`, `OPCODE_PING` and `OPCODE_PONG`.
abbrev pub opcode_text : ℕ
opcode_text = 1

abbrev pub opcode_binary : ℕ
opcode_binary = 2

abbrev pub opcode_ping : ℕ
opcode_ping = 9

abbrev pub opcode_pong : ℕ
opcode_pong = 10

abbrev pub text_frame : DaraChatMsg → Frame
text_frame m = record { opcode = opcode_text; payload = serialize m }

-- A `float` literal below is its four bytes, least significant first.
unfoldable pub alive_message : Chatter → DaraRawChatMsg
alive_message c = record {
  x = 0 ∷ 0 ∷ 200 ∷ 66 ∷ [];
  y = 0 ∷ 0 ∷ 72 ∷ 67 ∷ [];
  z = 0 ∷ 0 ∷ 0 ∷ 0 ∷ [];
  health = 0 ∷ 0 ∷ 180 ∷ 66 ∷ [];
  max_health = 0 ∷ 0 ∷ 200 ∷ 66 ∷ [];
  mana = 0 ∷ 0 ∷ 72 ∷ 66 ∷ [];
  max_mana = 0 ∷ 0 ∷ 150 ∷ 66 ∷ [];
  energy = 0 ∷ 0 ∷ 240 ∷ 65 ∷ [];
  max_energy = 0 ∷ 0 ∷ 72 ∷ 66 ∷ [];
  zone = c.my_zone_name;
  char_name = c.my_char_name;
}

abbrev reply : Chatter → ChatCmdType → DaraChatMsg → Text → List Frame
reply c kind m text = text_frame (said c kind m.sender text) ∷ []

-- The five branches on a `Tell`, by how its text begins.
unfoldable pub reply_to_tell : Chatter → DaraChatMsg → List Frame
reply_to_tell c m =
    if starts_with (codes "InviteMe") m.message
    then reply c group_invite m []
    else if starts_with (codes "Ping") m.message
    then reply c tell m (codes "Pong")
    else if starts_with (codes "Hello") m.message
    then reply c tell m (codes "Hi my friend! Good to hear from you!")
    else if not (starts_with (codes "Pong") m.message)
    then reply c tell m (codes "Hello my friend! Good to hear from you!")
    else []

abbrev chat_reply_kind : Chatter → DaraChatMsg → ChatCmdType → List Frame
chat_reply_kind c m group_invite = reply c group_join m m.message
chat_reply_kind c m tell = reply_to_tell c m
chat_reply_kind c m group_info =
    record { opcode = opcode_binary; payload = serialize_raw (alive_message c) } ∷ []
chat_reply_kind c m _ = []

unfoldable pub chat_reply : Chatter → DaraChatMsg → List Frame
chat_reply c m = chat_reply_kind c m m.kind

unfoldable pub on_ws_msg : Chatter → ℕ → Text → List Frame
on_ws_msg c opcode payload =
    let parsed = try_parse_message payload in
    if opcode == opcode_ping
    then record { opcode = opcode_pong; payload = payload } ∷ []
    else if not (opcode == opcode_text)
    then []
    else if not parsed.ok
    then []
    else chat_reply c parsed.output
