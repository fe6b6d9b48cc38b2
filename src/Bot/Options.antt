-- ===== src/Bot/Options.antt =====
-- `main` of uDaraChatBot.cpp: the options, and the login frame that `run` sends. `atoi` and the
-- environment are arguments. The first argument, the program's name, is left off the list.
use u_dara_chat.Base.Int.{ℤ, pos}
use u_dara_chat.Base.{
  ℕ, Bool, true, false, not, ◌&&◌, ◌||◌, List, [], ◌∷◌, ◌++◌, Option, none, some, Text, codes,
  text_eq, is_empty, starts_with, any_of, count_if, leb, ◌==◌, if◌then◌else◌,
}
use u_dara_chat.Bot.Chatter.{
  Chatter, get_random_name, add_chat_partner, set_char_name, get_subscribe_string1,
  get_subscribe_string2, get_subscribe_string3,
}

pub record Options : Type 0 where
  pub mode : Text
  pub name : Text
  pub recipient : Text
  pub token : Text
  pub token_provided : Bool
  pub sleep_seconds : ℤ

abbrev pub new_options : Options
new_options = record {
  mode = [];
  name = [];
  recipient = [];
  token = [];
  token_provided = false;
  sleep_seconds = pos 3000;
}

-- The options with one argument: `--token` is apart, since it may fail.
abbrev with_value : (Text → ℤ) → Options → Text → Text → Option Options
with_value atoi o arg v =
    if text_eq arg (codes "--mode")
    then some (record o { mode = v })
    else if text_eq arg (codes "--name")
    then some (record o { name = v })
    else if text_eq arg (codes "--recipient")
    then some (record o { recipient = v })
    else if text_eq arg (codes "--sleep")
    then some (record o { sleep_seconds = atoi v })
    else none

-- The loop over the arguments; `none` is the return of 1 for a `--token` without a value.
unfoldable pub parse_options : (Text → ℤ) → List Text → Options → Option Options
parse_options atoi [] o = some o
parse_options atoi (arg ∷ []) o = if text_eq arg (codes "--token") then none else some o
parse_options atoi (arg ∷ v ∷ rest) o =
    if text_eq arg (codes "--token")
    then (if starts_with (codes "--") v
        then none
        else parse_options atoi rest (record o { token = v; token_provided = true }))
    else elim (with_value atoi o arg v) [
      | none ↦ parse_options atoi (v ∷ rest) o
      | some o' ↦ parse_options atoi rest o'
    ]

abbrev pub modes : List Text
modes =
    codes "controlled"
    ∷ codes "silent"
    ∷ codes "chatting"
    ∷ codes "inviting"
    ∷ codes "schedule"
    ∷ codes "groupmember"
    ∷ codes "groupleader"
    ∷ codes "pingpong"
    ∷ codes "grouptests"
    ∷ []

-- The characters of `find_first_not_of`, and the further test for a blank.
abbrev pub is_token_char : ℕ → Bool
is_token_char c =
    (leb b'A' c && leb c b'Z')
    || ((leb b'a' c && leb c b'z')
        || ((leb b'0' c && leb c b'9') || (c == b'-' || (c == b'_' || (c == b' ' || c == b'.')))))

abbrev pub is_line_char : ℕ → Bool
is_line_char c = c == b';' || (c == 13 || c == 10)

unfoldable pub is_compact : Text → Bool
is_compact token =
    not (any_of (λ c. not (is_token_char c)) token || any_of (λ c. c == b' ') token)
    && count_if (λ c. c == b'.') token == 2

-- The returns of `main`: the help, the message about the mode, the one about the name and the
-- token, the one about the token's form, and the run.
pub data Start : Type 0 where
  syntax_failure invalid_mode missing_login malformed_token : Start
  runs : Options → Start

abbrev pub token_of : Options → Option Text → Text
token_of o none = o.token
token_of o (some configured) = if o.token_provided then o.token else configured

unfoldable pub check_options : Options → Option Text → Start
check_options o configured =
    let token = token_of o configured in
    if is_empty o.mode
    then syntax_failure
    else if not (any_of (text_eq o.mode) modes)
    then invalid_mode
    else if is_empty o.name || (any_of is_line_char o.name || is_empty token)
    then missing_login
    else if not (is_compact token)
    then malformed_token
    else runs (record o { token = token })

-- `none` is a `--token` without a value.
unfoldable pub bot_main : (Text → ℤ) → List Text → Option Text → Option Start
bot_main atoi [] configured = some syntax_failure
bot_main atoi (arg ∷ args) configured = elim (parse_options atoi (arg ∷ args) new_options) [
  | none ↦ none
  | some o ↦ some (check_options o configured)
]

-- The frame with which `run` logs in.
unfoldable pub login_frame : Text → Text → Text → Text
login_frame name zone token =
    codes "connect:name="
    ++ (name ++ (codes ";zone=" ++ (zone ++ (codes ";group=;pass=" ++ token))))

-- How `run` prepares the chatter: its name, and one partner, drawn if none is given.
unfoldable pub prepare : (Text → List ℕ) → ℕ → Options → Chatter → Chatter
prepare sha1 draw o c =
    let partner = if is_empty o.recipient then get_random_name draw else o.recipient in
    add_chat_partner (set_char_name sha1 c o.name) partner

-- The four frames that `run` sends first.
unfoldable pub opening_frames : Options → Chatter → List Text
opening_frames o c =
    login_frame o.name c.my_zone_name o.token
    ∷ get_subscribe_string1
    ∷ get_subscribe_string2
    ∷ get_subscribe_string3 c
    ∷ []
