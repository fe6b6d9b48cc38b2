-- ===== src/Client/Refused.antt =====
-- The server does not let the client in: its login carries a hash, and no token.
use u_dara_chat.Base.{
  ℕ, zero, suc, ◌/◌, ◌%◌, ◌<◌, ◌≡◌, refl, inl, inr, Bool, true, false, ◌||◌, List, [], ◌∷◌, none,
  Text, codes, text_eq, is_empty, any_of, starts_with, get_elem?, leb, ◌==◌, arith, Bool-cases,
}
use u_dara_chat.Bot.Chatter.{or_nil, hex_bytes, generate_hashed_password}
use u_dara_chat.Chat.Find.{Free}
use u_dara_chat.Client.Talk.{names, draw_name, new_client, login_line}
use u_dara_chat.Group.NewId.{hex_digit}
use u_dara_chat.Login.Fields.{field}
use u_dara_chat.Login.Frame.{login_text, login_fields-login_text}
use u_dara_chat.Login.Token.{JwtLibrary}
use u_dara_chat.Login.Verify.{rejected, nonempty_field, verify_login}
use u_dara_chat.Server.Events.{Env, on_message}
use u_dara_chat.Server.Gate.{on_message_refused_login}
use u_dara_chat.Server.Groups.{Now}
use u_dara_chat.Server.State.{World, close_socket, emit}

-- The text of a digest has neither of two separators that are no hexadecimal digits.
hex_digit-other : (d c : ℕ) → d < 16 → (c == b';' || c == b'.') ≡ true → (hex_digit d == c) ≡ false
unfolding hex_digit
hex_digit-other d c h s = ground arith

hex_bytes-Free :
    (bs : List ℕ) (c : ℕ)
    → (c == b';' || c == b'.') ≡ true
    → any_of (λ b. leb 256 b) bs ≡ false
    → Free c (hex_bytes bs)
unfolding any_of hex_bytes
hex_bytes-Free [] c s h = refl
hex_bytes-Free (b ∷ bs) c s h =
    ground (arith, hex_bytes-Free bs c s, hex_digit-other (b / 16) c, hex_digit-other (b % 16) c)

get_elem-Free :
    (c : ℕ) (xs : List Text)
    → any_of (any_of (λ d. d == c)) xs ≡ false
    → (i : ℕ) → Free c (or_nil (get_elem? xs i))
unfolding any_of
get_elem-Free c [] h i = refl
get_elem-Free c (x ∷ xs) h zero = ground arith
get_elem-Free c (x ∷ xs) h (suc i) = get_elem-Free c xs (ground arith) i

draw_name-Free : (draw : ℕ) → Free b';' (draw_name draw)
unfolding draw_name
draw_name-Free draw = get_elem-Free b';' names (unfold names in unfold any_of in refl) _

-- A login whose pass does not decode is rejected, with one reason or another.
undecoded-rejected :
    (jwt : JwtLibrary) (name zone group pass secret : Text) (now : ℕ)
    → Free b';' name
    → Free b';' zone
    → Free b';' group
    → Free b';' pass
    → jwt.decode pass ≡ none
    → (reason : Text) × (verify_login jwt (login_text name zone group pass) secret now
        ≡ rejected reason)
unfolding verify_login nonempty_field field text_eq
undecoded-rejected jwt name zone group pass secret now fn fz fg fp u =
    let starts : starts_with (codes "connect:") (login_text name zone group pass) ≡ true =
      unfold starts_with in refl in
    let split = login_fields-login_text name zone group pass fn fz fg fp in
    elim (Bool-cases (is_empty secret)) [
      | inl a ↦ (codes "Server JWT secret is missing or empty", rw a refl)
      | inr a ↦ elim (Bool-cases (is_empty name)) [
        | inl b ↦ (codes "Missing or empty login name", rw (a, starts, split, b) refl)
        | inr b ↦ elim (Bool-cases (is_empty pass)) [
          | inl d ↦ (codes "Missing or empty JWT in pass field", rw (a, starts, split, b, d) refl)
          | inr d ↦ (
            codes "Malformed JWT; expected a compact header.payload.signature token",
            rw (a, starts, split, b, d, u) refl,
          )
        ]
      ]
    ]

-- Whatever name the client draws, its login closes its socket with code 1008 and has no other effect,
-- if the library refuses to decode a text without a dot and the digest consists of bytes.
pub on_message-login_line :
    (env : Env) (now : Now) (w : World) (ws : ℕ) (sha1 : Text → List ℕ) (draw : ℕ) (silent : Bool)
    → (w.user_data ws).connected ≡ false
    → ((t : Text) → Free b'.' t → env.jwt.decode t ≡ none)
    → any_of (λ b. leb 256 b) (sha1 (draw_name draw)) ≡ false
    → on_message env now w ws (login_line (new_client sha1 draw silent)) 1
      ≡ emit w (close_socket ws 1008 (codes "Authentication failed"))
unfolding login_line new_client generate_hashed_password
on_message-login_line env now w ws sha1 draw silent off undecoded bytes =
    let pass : Text = hex_bytes (sha1 (draw_name draw)) in
    let frame : Text = login_text (draw_name draw) (codes "Alpha") (codes "7") pass in
    let starts : starts_with (codes "connect:") frame ≡ true = unfold starts_with in refl in
    let (reason, refused) =
      undecoded-rejected env.jwt (draw_name draw) (codes "Alpha") (codes "7") pass env.secret
        now.ticks (draw_name-Free draw) (unfold any_of in refl) (unfold any_of in refl)
        (hex_bytes-Free _ b';' refl bytes) (undecoded pass (hex_bytes-Free _ b'.' refl bytes)) in
    on_message_refused_login env now w ws off frame starts refused
