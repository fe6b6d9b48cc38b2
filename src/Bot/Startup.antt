-- ===== src/Bot/Startup.antt =====
-- Which options start the bot, and how the server splits the login frame that it then sends.
use mathlib.Core.Path.{subst}
use u_dara_chat.Base.{
  ◌≡◌, refl, ap, ◌≢◌, true, false, not, ◌||◌, List, [], ◌∷◌, Option, some, Text, codes, text_eq,
  is_empty, is_empty_iff, any_of, arith, Bool-cases, inl, inr, Option-cases,
}
use u_dara_chat.Base.Int.{ℤ}
use u_dara_chat.Bot.Options.{
  Options, new_options, parse_options, modes, is_token_char, is_line_char, is_compact, Start, runs,
  token_of, check_options, bot_main, login_frame,
}
use u_dara_chat.Chat.Find.{Free}
use u_dara_chat.Login.Frame.{fields_of, login_fields-login_text}
use u_dara_chat.Login.Verify.{accepted, login_fields}

-- The options of a bot that runs.
pub record Ready (o : Options) : Type 0 where
  pub known_mode : any_of (text_eq o.mode) modes ≡ true
  pub name_ne_nil : o.name ≢ []
  pub one_line : any_of is_line_char o.name ≡ false
  pub compact : is_compact o.token ≡ true

abbrev options_of : Options → Start → Options
options_of d (runs o) = o
options_of d _ = d

check_options-Ready :
    (o : Options) (configured : Option Text) {o' : Options}
    → check_options o configured ≡ runs o'
    → Ready o'
unfolding check_options
check_options-Ready o configured {o'} e = elim (Bool-cases (is_empty o.mode)) [
  | inl a ↦ cc (rw a at e)
  | inr a ↦ elim (Bool-cases (any_of (text_eq o.mode) modes)) [
    | inr b ↦ cc (rw (a, b) at e)
    | inl b ↦
        elim (Bool-cases
          (is_empty o.name || (any_of is_line_char o.name || is_empty (token_of o configured)))) [
            | inl c ↦ cc (rw (a, b, c) at e)
            | inr c ↦ elim (Bool-cases (is_compact (token_of o configured))) [
              | inr d ↦ cc (rw (a, b, c, d) at e)
              | inl d ↦
                  let ready : Ready (record o { token = token_of o configured }) = record {
                    known_mode = b;
                    name_ne_nil = ground (arith, is_empty_iff o.name);
                    one_line = ground arith;
                    compact = d;
                  } in
                  subst Ready (ap (options_of o) (rw (a, b, c, d) at e)) ready
            ]
          ]
  ]
]

login_fields-login_frame :
    (name zone token : Text)
    → Free b';' name
    → Free b';' zone
    → Free b';' token
    → login_fields (login_frame name zone token) ≡ accepted (fields_of name zone [] token)
unfolding login_frame
login_fields-login_frame name zone token fn fz ft =
    login_fields-login_text name zone [] token fn fz (unfold any_of in refl) ft

line-Free : (s : Text) → any_of is_line_char s ≡ false → Free b';' s
unfolding any_of
line-Free [] f = refl
line-Free (c ∷ s) f = ground (arith, line-Free s)

token-Free : (s : Text) → any_of (λ c. not (is_token_char c)) s ≡ false → Free b';' s
unfolding any_of
token-Free [] f = refl
token-Free (c ∷ s) f = ground (arith, token-Free s)

compact-Free : (t : Text) → is_compact t ≡ true → Free b';' t
unfolding is_compact
compact-Free t h = token-Free t (ground arith)

-- If the bot runs, whatever the arguments and the environment's token, then the mode is one of the
-- nine that `main` knows, the name is not empty and has no semicolon or end of a line, and the token
-- has only a compact JWT's characters and two dots; and the server splits the login frame that the
-- bot sends for its zone `Dungeon` into exactly this name, zone and token, and an empty group.
pub bot_main_login :
    (atoi : Text → ℤ) (args : List Text) (configured : Option Text) {o : Options}
    → bot_main atoi args configured ≡ some (runs o)
    → Ready o
      × (login_fields (login_frame o.name (codes "Dungeon") o.token)
          ≡ accepted (fields_of o.name (codes "Dungeon") [] o.token))
unfolding bot_main
bot_main_login atoi [] configured e = cc
bot_main_login atoi (arg ∷ args) configured {o} e =
    elim (Option-cases (parse_options atoi (arg ∷ args) new_options)) [
      | inl n ↦ cc (rw (n, bot_main) at e)
      | inr (p, q) ↦
          let h : some (check_options p configured) ≡ some (runs o) = rw (q, bot_main) at e in
          let r : Ready o = check_options-Ready p configured (cc h) in
          let dungeon : Free b';' (codes "Dungeon") = unfold any_of in refl in
          (
            r,
            login_fields-login_frame o.name (codes "Dungeon") o.token (line-Free o.name r.one_line)
                dungeon (compact-Free o.token r.compact),
          )
    ]
