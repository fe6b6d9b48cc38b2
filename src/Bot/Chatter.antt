-- ===== src/Bot/Chatter.antt =====
-- The class `Chatter`. A draw of the random engine is an argument: any number, of which the rest modulo
-- the length of the list is the index, so that every index in the range occurs and no other. SHA-1
-- is OpenSSL's, and an argument.
use u_dara_chat.Base.{
  ℕ, suc, ◌/◌, ◌%◌, List, [], ◌∷◌, ◌++◌, Option, none, some, Text, codes, length, get_elem?, ltb,
  ◌==◌, if◌then◌else◌,
}
use u_dara_chat.Chat.CmdType.{ChatCmdType, channel, zone, tell, group, group_invite}
use u_dara_chat.Chat.Message.{DaraChatMsg, serialize}
use u_dara_chat.Group.NewId.{hex_digit}

pub record Chatter : Type 0 where
  pub my_char_name : Text
  pub my_group_id : Text
  pub my_pass : Text
  pub my_zone_name : Text
  pub my_health : Text
  pub my_chat_partners : List Text

-- The two literals without a comma between them are one message.
unfoldable pub all_messages : List Text
all_messages =
    codes "Why do you think Dara is that corrupted?"
    ∷ codes "Tank looking for work!"
    ∷ codes "DPS looking for work! Willing to travel."
    ∷ codes "Looking for WaterBastion update"
    ∷ codes "Why me?"
    ∷ codes "Really?"
    ∷ codes "I just got here!"
    ∷ codes "I'm not paid enough for this."
    ∷ codes "This isn't in my contract!"
    ∷ codes "Again?!"
    ∷ codes "Great. Just great."
    ∷ codes "Is that thing supposed to glow?"
    ∷ codes "Nope. I'm out."
    ∷ codes "What did I just step in?"
    ∷ codes "I think it's watching me..."
    ∷ codes "This planet gives me the creeps."
    ∷ codes "Who's bright idea was this?"
    ∷ codes "I thought this was a vacation mission."
    ∷ codes "I left the oven on back home."
    ∷ codes "If I die, tell my clone I said hi."
    ∷ codes "I demand hazard pay!"
    ∷ codes "Aliens again? Ugh."
    ∷ codes "Not the face!"
    ∷ codes "I've got a bad feeling about this...How's it going?"
    ∷ codes "Just another day in paradise."
    ∷ codes "Anyone up for a raid?"
    ∷ codes "Looking for group!"
    ∷ codes "Is this thing on?"
    ∷ codes "Can you hear me now?"
    ∷ codes "Testing, testing, 1-2-3."
    ∷ codes "I love this game!"
    ∷ codes "Where's the loot?"
    ∷ codes "Let's get this party started!"
    ∷ codes "Anyone need a healer?"
    ∷ codes "I'm just here for the snacks."
    ∷ codes "Did you see that boss fight?"
    ∷ codes "This is my favorite zone."
    ∷ codes "Who's got the map?"
    ∷ []

unfoldable pub all_names : List Text
all_names =
    codes "AutoClient_X99"
    ∷ codes "ChatProbe_007"
    ∷ codes "NullEcho"
    ∷ codes "ByteSniffer"
    ∷ codes "PingLord"
    ∷ codes "CaptainSpam"
    ∷ codes "DaraBot9000"
    ∷ codes "AFKCommander"
    ∷ codes "SyntaxTerror"
    ∷ codes "PacketJockey"
    ∷ codes "WhisperWarden"
    ∷ codes "MessageMancer"
    ∷ codes "Talkonaut"
    ∷ codes "CyberGoblin"
    ∷ codes "EchoSpecter"
    ∷ codes "NetGremlin"
    ∷ codes "QueueHopper"
    ∷ codes "Botzilla"
    ∷ codes "IdleWhisper"
    ∷ codes "GhostInTheChat"
    ∷ []

abbrev pub or_nil : Option Text → Text
or_nil none = []
or_nil (some t) = t

-- `GetRandomMessage(messages)`.
unfoldable pub get_random_of : ℕ → List Text → Text
get_random_of draw [] = codes "empty"
get_random_of draw (m ∷ ms) = or_nil (get_elem? (m ∷ ms) (draw % suc (length ms)))

unfoldable pub get_random_message : ℕ → Text
get_random_message draw = get_random_of draw all_messages

unfoldable pub get_random_name : ℕ → Text
get_random_name draw = get_random_of draw all_names

unfoldable pub get_random_chat_partner : Chatter → ℕ → Text
get_random_chat_partner c draw = get_random_of draw c.my_chat_partners

-- The bytes of a digest in hexadecimal, two digits each.
unfoldable pub hex_bytes : List ℕ → Text
hex_bytes [] = []
hex_bytes (b ∷ bs) = hex_digit (b / 16) ∷ hex_digit (b % 16) ∷ hex_bytes bs

unfoldable pub generate_hashed_password : (Text → List ℕ) → Text → Text
generate_hashed_password sha1 passphrase = hex_bytes (sha1 passphrase)

unfoldable pub new_chatter : (Text → List ℕ) → ℕ → Chatter
new_chatter sha1 draw = record {
  my_char_name = get_random_name draw;
  my_zone_name = codes "Dungeon";
  my_group_id = [];
  my_health = codes "80";
  my_pass = generate_hashed_password sha1 (get_random_name draw);
  my_chat_partners = [];
}

unfoldable pub set_char_name : (Text → List ℕ) → Chatter → Text → Chatter
set_char_name sha1 c name = record c {
  my_char_name = name;
  my_pass = generate_hashed_password sha1 name;
}

unfoldable pub add_chat_partner : Chatter → Text → Chatter
add_chat_partner c name = record c { my_chat_partners = c.my_chat_partners ++ name ∷ [] }

unfoldable pub get_connection_string : Chatter → Text
get_connection_string c =
    codes "connect:name=" ++ (c.my_char_name ++ (codes ";zone=Dungeon;group=7;pass=" ++ c.my_pass))

unfoldable pub get_subscribe_string1 : Text
get_subscribe_string1 = codes "subscribe:World"

unfoldable pub get_subscribe_string2 : Text
get_subscribe_string2 = codes "subscribe:SomeChannel"

unfoldable pub get_subscribe_string3 : Chatter → Text
get_subscribe_string3 c = codes "subscribe:" ++ c.my_zone_name

-- The message that each of the five functions below serializes.
abbrev pub said : Chatter → ChatCmdType → Text → Text → DaraChatMsg
said c kind recipient message = record {
  kind = kind;
  sender = c.my_char_name;
  recipient = recipient;
  message = message;
}

unfoldable pub get_random_chat_msg : Chatter → ℕ → Text
get_random_chat_msg c draw = serialize (said c channel (codes "World") (get_random_message draw))

unfoldable pub get_random_zone_msg : Chatter → ℕ → Text
get_random_zone_msg c draw = serialize (said c zone [] (get_random_message draw))

-- The partner is drawn before the message.
unfoldable pub get_random_tell_msg : Chatter → ℕ → ℕ → Text
get_random_tell_msg c draw draw' =
    serialize (said c tell (get_random_chat_partner c draw) (get_random_message draw'))

unfoldable pub get_random_group_msg : Chatter → ℕ → Text
get_random_group_msg c draw = serialize (said c group [] (get_random_message draw))

unfoldable pub get_random_invite : Chatter → ℕ → Text
get_random_invite c draw = serialize (said c group_invite (get_random_chat_partner c draw) [])

-- `GenerateRandomLogin`: the chatter under its new name, and the login line.
unfoldable pub generate_random_login : (Text → List ℕ) → Chatter → ℕ → Chatter × Text
generate_random_login sha1 c draw =
    let name = get_random_name draw in
    let pass = generate_hashed_password sha1 name in
    (
      record c {
        my_char_name = name;
        my_zone_name = codes "Dungeon";
        my_group_id = [];
        my_pass = pass;
      },
      codes "connect:name=" ++ (name ++ (codes ";zone=Alpha;group=7;pass=" ++ pass)),
    )

-- `SendZoneMessage` and `SendTellMessage`: the `static` counter after one more call, and the message
-- that the call builds. It goes nowhere; no frame is sent.
unfoldable pub dropped_zone_message : Chatter → Text → ℕ → ℕ × Option DaraChatMsg
dropped_zone_message c msg count =
    let n = if ltb 10 (suc count) then 0 else suc count in
    if n == 5 then (n, some (said c zone [] msg)) else (n, none)

unfoldable pub dropped_tell_message : Chatter → ℕ → ℕ → ℕ × Option DaraChatMsg
dropped_tell_message c draw count =
    let n = if ltb 5 (suc count) then 0 else suc count in
    if n == 5
    then (n, some (said c tell (codes "MeMercenary") (get_random_message draw)))
    else (n, none)

-- `SendRandomZoneMessage`: what is handed on is a message for the zone, already serialized.
unfoldable pub dropped_random_zone_message : Chatter → ℕ → ℕ → ℕ × Option DaraChatMsg
dropped_random_zone_message c draw count = dropped_zone_message c (get_random_zone_msg c draw) count
