-- ===== src/Bot/Control.antt =====
-- `Client::ControlCommand`: one line of the controlled mode.
use u_dara_chat.Base.Decimal.{is_space, skip_spaces}
use u_dara_chat.Base.{
  ℕ, not, ◌&&◌, [], ◌∷◌, Option, none, some, Text, codes, text_eq, is_empty, drop, ◌==◌,
  if◌then◌else◌,
}
use u_dara_chat.Bot.Chatter.{Chatter, said}
use u_dara_chat.Chat.CmdType.{
  channel, group, group_invite, group_kick, group_disband, admin_status, admin_groups, admin_zones,
  admin_channels,
}
use u_dara_chat.Chat.Message.{DaraChatMsg, find_first}

-- `input >> word`: the word, and what is behind it. At the end of the input the word is empty.
unfoldable pub word_of : Text → Text
word_of [] = []
word_of (c ∷ s) = let rest = word_of s in if is_space c then [] else c ∷ rest

unfoldable pub behind_word : Text → Text
behind_word [] = []
behind_word (c ∷ s) = let rest = behind_word s in if is_space c then c ∷ s else rest

abbrev pub action_of : Text → Text
action_of command = word_of (skip_spaces command)

abbrev pub target_of : Text → Text
target_of command = word_of (skip_spaces (behind_word (skip_spaces command)))

-- `command.substr(command.find_first_not_of(" ", command.find(' ')))`, where both are found.
unfoldable pub skip_blanks : Text → Text
skip_blanks [] = []
skip_blanks (c ∷ s) = let rest = skip_blanks s in if c == b' ' then rest else c ∷ s

abbrev from_blank : Text → Option ℕ → Text
from_blank command none = []
from_blank command (some i) = skip_blanks (drop i command)

unfoldable pub text_of : Text → Text
text_of command = from_blank command (find_first b' ' command)

-- What a line makes the bot do: stop, send a message, or print a hint.
pub data Command : Type 0 where
  quit : Command
  say : DaraChatMsg → Command
  hint : Command

abbrev pub say_text : DaraChatMsg → Command
say_text m = if is_empty m.message then hint else say m

-- The branches on the action and the target.
unfoldable pub control_command : Chatter → Text → Command
control_command c command =
    let action = action_of command in
    let target = target_of command in
    if text_eq action (codes "quit")
    then quit
    else if text_eq action (codes "admin-status")
    then say (said c admin_status target [])
    else if text_eq action (codes "admin-groups")
    then say (said c admin_groups target [])
    else if text_eq action (codes "admin-zones")
    then say (said c admin_zones target [])
    else if text_eq action (codes "admin-channels")
    then say (said c admin_channels target [])
    else if text_eq action (codes "world")
    then say_text (said c channel (codes "World") (text_of command))
    else if text_eq action (codes "group")
    then say_text (said c group [] (text_of command))
    else if text_eq action (codes "invite") && not (is_empty target)
    then say (said c group_invite target [])
    else if text_eq action (codes "kick") && not (is_empty target)
    then say (said c group_kick target [])
    else if text_eq action (codes "leave")
    then say (said c group_disband [] [])
    else hint
