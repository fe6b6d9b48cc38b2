-- ===== src/Tests/Clients.antt =====
-- The command line client, and the bot's commands and rounds.
use u_dara_chat.Base.{
  ℕ, ◌≤◌, ◌≡◌, refl, false, List, [], ◌∷◌, some, none, Text, codes, any_of, text_eq, leb, ◌==◌,
  arith, if◌then◌else◌,
}
use u_dara_chat.Base.Decimal.{skip_spaces}
use u_dara_chat.Bot.Chatter.{Chatter, said}
use u_dara_chat.Bot.Commands.{control_command_accepted}
use u_dara_chat.Bot.Control.{
  word_of, behind_word, target_of, skip_blanks, text_of, say, control_command,
}
use u_dara_chat.Bot.Cycle.{next_count, ten_joined, chat_loop-Cycle}
use u_dara_chat.Bot.Frames.{accepted_as}
use u_dara_chat.Bot.Loop.{Counters, Draws, chat_loop}
use u_dara_chat.Chat.CmdType.{channel}
use u_dara_chat.Chat.Find.{Free}
use u_dara_chat.Chat.Message.{find_first, serialize, try_parse_message}
use u_dara_chat.Client.Refused.{on_message-login_line}
use u_dara_chat.Client.Rounds.{counts_after, schedule, client_round-schedule}
use u_dara_chat.Client.Talk.{draw_name, Client, new_client, login_line, RoundDraws, client_round}
use u_dara_chat.Login.Token.{JwtLibrary}
use u_dara_chat.Server.Events.{Env, on_message}
use u_dara_chat.Server.History.{new_world}
use u_dara_chat.Server.State.{close_socket, emit}
use u_dara_chat.Tests.Logins.{one_token}
use u_dara_chat.Tests.Sockets.{env, now}

-- A library that decodes texts with a dot only.
abbrev dotted_token : JwtLibrary
dotted_token = record {
  Token = Unit {0};
  decode = λ t. if any_of (λ d. d == b'.') t then some tt else none;
  get_algorithm = one_token.get_algorithm;
  claim_as_integer = one_token.claim_as_integer;
  get_issuer = one_token.get_issuer;
  get_audience = one_token.get_audience;
  get_issued_at = one_token.get_issued_at;
  get_expires_at = one_token.get_expires_at;
  verify = one_token.verify;
  claim_as_string = one_token.claim_as_string;
  has_payload_claim = one_token.has_payload_claim;
  claim_as_array = one_token.claim_as_array;
}

abbrev dotted_env : Env
dotted_env = record env { jwt = dotted_token }

undecoded : (t : Text) → Free b'.' t → dotted_env.jwt.decode t ≡ none
undecoded t f = rw f refl

abbrev digest : Text → List ℕ
digest t = 171 ∷ 18 ∷ 255 ∷ []

bytes : any_of (λ b. leb 256 b) (digest (draw_name 6)) ≡ false
unfolding any_of
bytes = refl

on_message-login_line_example :
    on_message dotted_env now new_world 3 (login_line (new_client digest 6 false)) 1
    ≡ emit new_world (close_socket 3 1008 (codes "Authentication failed"))
on_message-login_line_example =
    on_message-login_line dotted_env now new_world 3 digest 6 false refl undecoded bytes

abbrev client : Client
client = record {
  silent_mode = false;
  my_char_name = codes "PingLord";
  my_group_id = [];
  my_pass = [];
  my_zone_name = codes "Dungeon";
}

abbrev draws : ℕ → RoundDraws
draws n = record { world_draw = n; zone_draw = 1; tell_draw = 2 }

client_round-schedule_example :
    (client_round client (draws 4) (counts_after client draws 4)).1 ≡ schedule client (draws 4) 5
client_round-schedule_example = client_round-schedule client draws refl 4

abbrev bot : Chatter
bot = record {
  my_char_name = codes "Ann";
  my_group_id = [];
  my_pass = [];
  my_zone_name = codes "Dungeon";
  my_health = codes "80";
  my_chat_partners = codes "Bob" ∷ [];
}

ann_free : any_of (λ d. d == b':') bot.my_char_name ≡ false
unfolding any_of
ann_free = refl

abbrev line : Text
line = codes "world so see: here"

target_free : any_of (λ d. d == b':') (target_of line) ≡ false
unfolding any_of word_of behind_word skip_spaces
target_free = refl

said_world :
    control_command bot line ≡ say (said bot channel (codes "World") (codes "so see: here"))
unfolding control_command word_of behind_word skip_spaces text_of skip_blanks find_first text_eq
said_world = refl

control_command_accepted_example :
    (codes "Ann" ≡ codes "Ann")
    × (try_parse_message (serialize (said bot channel (codes "World") (codes "so see: here")))
        ≡ accepted_as (said bot channel (codes "World") (codes "so see: here")))
control_command_accepted_example = control_command_accepted bot line ann_free target_free said_world

abbrev third : Counters
third = record { count = 3; up_time_counter = 7 }

abbrev two_draws : Draws
two_draws = record { first = 1; second = 2 }

chat_loop-Cycle_example :
    ((chat_loop (codes "groupmember") bot two_draws third).0.count ≡ next_count 9 3)
    × ((chat_loop (codes "groupmember") bot two_draws third).0.count ≤ 9)
    × ((chat_loop (codes "groupmember") bot two_draws third).0.up_time_counter ≡ 8)
chat_loop-Cycle_example = chat_loop-Cycle bot two_draws third ten_joined (omega arith)
