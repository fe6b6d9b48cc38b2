-- ===== src/Client/Talk.antt =====
-- The class `Client` of uDaraClient.cc: what it sends, and when. A draw of the random engine and SHA-1
-- are arguments; every text that is sent is a text frame.
use u_dara_chat.Base.{
  ℕ, suc, ◌%◌, Bool, false, List, [], ◌∷◌, ◌++◌, Text, codes, length, get_elem?, ltb, text_eq, ◌==◌,
  if◌then◌else◌,
}
use u_dara_chat.Bot.Chatter.{or_nil, generate_hashed_password}
use u_dara_chat.Bot.Reply.{Frame, opcode_ping, opcode_pong}
use u_dara_chat.Chat.CmdType.{channel, group_invite, zone, tell}
use u_dara_chat.Chat.Message.{serialize}

pub record Client : Type 0 where
  pub silent_mode : Bool
  pub my_char_name : Text
  pub my_group_id : Text
  pub my_pass : Text
  pub my_zone_name : Text

-- The table of `GetRandomMessage`.
unfoldable pub messages : List Text
messages =
    codes "Why me?"
    ∷ codes "Really?"
    ∷ codes "I just got here!"
    ∷ codes "I'm not paid enough for this."
    ∷ codes "This isn't in my contract!"
    ∷ codes "Again?!"
    ∷ codes "Great. Just great."
    ∷ codes "Is that thing supposed to glow?"
    ∷ codes "Nope. I'm out."
    ∷ codes "What did I just step in?"
    ∷ codes "I think it's watching me..."
    ∷ codes "This planet gives me the creeps."
    ∷ codes "Who's bright idea was this?"
    ∷ codes "I thought this was a vacation mission."
    ∷ codes "I left the oven on back home."
    ∷ codes "If I die, tell my clone I said hi."
    ∷ codes "I demand hazard pay!"
    ∷ codes "Aliens again? Ugh."
    ∷ codes "Not the face!"
    ∷ codes "I've got a bad feeling about this..."
    ∷ []

-- The table of `GetRandomName`.
unfoldable pub names : List Text
names =
    codes "AutoClient_X99"
    ∷ codes "ChatProbe_007"
    ∷ codes "NullEcho"
    ∷ codes "ByteSniffer"
    ∷ codes "PingLord"
    ∷ codes "CaptainSpam"
    ∷ codes "DaraBot9000"
    ∷ codes "AFKCommander"
    ∷ codes "SyntaxTerror"
    ∷ codes "PacketJockey"
    ∷ codes "WhisperWarden"
    ∷ codes "MessageMancer"
    ∷ codes "Talkonaut"
    ∷ codes "CyberGoblin"
    ∷ codes "EchoSpecter"
    ∷ codes "NetGremlin"
    ∷ codes "QueueHopper"
    ∷ codes "Botzilla"
    ∷ codes "IdleWhisper"
    ∷ codes "GhostInTheChat"
    ∷ []

unfoldable pub draw_message : ℕ → Text
draw_message draw = or_nil (get_elem? messages (draw % length messages))

unfoldable pub draw_name : ℕ → Text
draw_name draw = or_nil (get_elem? names (draw % length names))

-- What `run` fills in before it logs in.
unfoldable pub new_client : (Text → List ℕ) → ℕ → Bool → Client
new_client sha1 draw silent = record {
  silent_mode = silent;
  my_char_name = draw_name draw;
  my_group_id = codes "AAAAAAMYGROUPIDAAAAAAAAAAAAAA";
  my_pass = generate_hashed_password sha1 (draw_name draw);
  my_zone_name = codes "Dungeon";
}

unfoldable pub login_line : Client → Text
login_line c =
    codes "connect:name=" ++ (c.my_char_name ++ (codes ";zone=Alpha;group=7;pass=" ++ c.my_pass))

-- The first five frames.
unfoldable pub opening_lines : Client → List Text
opening_lines c =
    login_line c
    ∷ codes "subscribe:World"
    ∷ (codes "subscribe:" ++ c.my_char_name)
    ∷ (codes "subscribe:" ++ c.my_zone_name)
    ∷ (codes "subscribe:" ++ c.my_group_id)
    ∷ []

-- `count++; if (count > limit) count = 0;`
abbrev pub advance : ℕ → ℕ → ℕ
advance limit n = if ltb limit (suc n) then 0 else suc n

unfoldable pub send_random_message : Client → ℕ → List Text
send_random_message c draw =
    serialize (record {
      kind = channel;
      sender = c.my_char_name;
      recipient = codes "World";
      message = draw_message draw;
    })
    ∷ []

-- The functions below have a `static` counter, which they take and return.
unfoldable pub send_random_invite : Client → ℕ → ℕ × List Text
send_random_invite c count =
    let n = advance 10 count in
    if n == 3
    then (
      n,
      serialize (record {
        kind = group_invite;
        sender = c.my_char_name;
        recipient = codes "MeMercenary";
        message = [];
      })
          ∷ [],
    )
    else (n, [])

unfoldable pub send_zone_message : Client → ℕ → ℕ → ℕ × List Text
send_zone_message c draw count =
    let n = advance 10 count in
    if n == 5
    then (
      n,
      serialize (record {
        kind = zone;
        sender = c.my_char_name;
        recipient = [];
        message = codes "Talking to Zone: " ++ draw_message draw;
      })
          ∷ [],
    )
    else (n, [])

unfoldable pub send_tell_message : Client → ℕ → ℕ → ℕ × List Text
send_tell_message c draw count =
    let n = advance 5 count in
    if n == 5
    then (
      n,
      serialize (record {
        kind = tell;
        sender = c.my_char_name;
        recipient = codes "MeMercenary";
        message = draw_message draw;
      })
          ∷ [],
    )
    else (n, [])

pub record Counts : Type 0 where
  pub invites : ℕ
  pub zones : ℕ
  pub tells : ℕ

abbrev pub new_counts : Counts
new_counts = record { invites = 0; zones = 0; tells = 0 }

-- The draws of one round, for each kind of message.
pub record RoundDraws : Type 0 where
  pub world_draw : ℕ
  pub zone_draw : ℕ
  pub tell_draw : ℕ

-- One round of the loop of `run`.
unfoldable pub client_round : Client → RoundDraws → Counts → Counts × List Text
client_round c d n =
    let (i, invite) = send_random_invite c n.invites in
    let (z, zoned) = send_zone_message c d.zone_draw n.zones in
    let (t, told) = send_tell_message c d.tell_draw n.tells in
    if c.silent_mode then (n, []) else (
      record { invites = i; zones = z; tells = t },
      send_random_message c d.world_draw ++ (invite ++ (zoned ++ told)),
    )

-- `onWSMsg`: a ping is answered, everything else only printed.
unfoldable pub client_ws_msg : ℕ → Text → List Frame
client_ws_msg opcode payload =
    if opcode == opcode_ping then record { opcode = opcode_pong; payload = payload } ∷ [] else []

-- `main`: whether it runs the client in the silent mode. The first argument is the program's name.
unfoldable pub client_main : List Text → Bool
client_main (program ∷ mode ∷ _) = text_eq mode (codes "silent")
client_main _ = false
