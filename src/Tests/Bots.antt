-- ===== src/Tests/Bots.antt =====
-- A bot that is named Ann and talks to Bob.
use u_dara_chat.Base.{
  ◌≡◌, refl, false, List, [], ◌∷◌, some, Text, codes, any_of, count_if, text_eq, starts_with,
  length, ◌==◌,
}
use u_dara_chat.Bot.Chatter.{Chatter}
use u_dara_chat.Base.Int.{ℤ, pos}
use u_dara_chat.Bot.Conversation.{exchange, tells, exchange_endless, exchange_ping_ends}
use u_dara_chat.Bot.Options.{
  Options, new_options, parse_options, is_compact, check_options, runs, bot_main, login_frame,
}
use u_dara_chat.Bot.Startup.{Ready, bot_main_login}
use u_dara_chat.Login.Frame.{fields_of}
use u_dara_chat.Login.Verify.{accepted, login_fields}

abbrev bot : Chatter
bot = record {
  my_char_name = codes "Ann";
  my_group_id = [];
  my_pass = [];
  my_zone_name = codes "Dungeon";
  my_health = codes "80";
  my_chat_partners = codes "Bob" ∷ [];
}

ann_free : any_of (λ d. d == b':') (codes "Ann") ≡ false
unfolding any_of
ann_free = refl

bob_free : any_of (λ d. d == b':') (codes "Bob") ≡ false
unfolding any_of
bob_free = refl

abbrev friend : Chatter
friend = record bot { my_char_name = codes "Bob"; my_chat_partners = codes "Ann" ∷ [] }

exchange_endless_example : length (exchange 5 friend bot (tells bot friend (codes "Good day"))) ≡ 1
exchange_endless_example =
    exchange_endless 5 bot friend (codes "Good day") ann_free bob_free (unfold starts_with in refl)
      (unfold starts_with in refl) (unfold starts_with in refl)

exchange_ping_ends_example :
    (exchange 1 friend bot (tells bot friend (codes "Ping 4")) ≡ tells friend bot (codes "Pong"))
    × (exchange 5 friend bot (tells bot friend (codes "Ping 4")) ≡ [])
exchange_ping_ends_example =
    exchange_ping_ends 3 bot friend (codes "Ping 4") ann_free bob_free (unfold starts_with in refl)

abbrev three : Text → ℤ
three t = pos 3

abbrev arguments : List Text
arguments =
    codes "--mode"
    ∷ codes "silent"
    ∷ codes "--name"
    ∷ codes "Ann"
    ∷ codes "--sleep"
    ∷ codes "3"
    ∷ []

abbrev options : Options
options = record new_options {
  mode = codes "silent";
  name = codes "Ann";
  token = codes "a.b.c";
  sleep_seconds = pos 3;
}

-- The token comes from the environment.
silent_runs : bot_main three arguments (some (codes "a.b.c")) ≡ some (runs options)
unfolding bot_main parse_options check_options is_compact text_eq any_of count_if starts_with
silent_runs = refl

bot_main_login_example :
    Ready options
    × (login_fields (login_frame (codes "Ann") (codes "Dungeon") (codes "a.b.c"))
        ≡ accepted (fields_of (codes "Ann") (codes "Dungeon") [] (codes "a.b.c")))
bot_main_login_example = bot_main_login three arguments (some (codes "a.b.c")) silent_runs
