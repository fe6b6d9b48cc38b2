-- ===== src/Bot/Conversation.antt =====
-- Two bots that tell each other something: what one sends, the other one answers.
use u_dara_chat.Base.{
  ℕ, zero, suc, ◌≡◌, refl, ◌⊎◌, inl, inr, Bool-cases, ◌∙◌, true, false, List, [], ◌∷◌, ◌++◌,
  append-nil, Text, codes, starts_with, length, arith,
}
use u_dara_chat.Bot.Chatter.{Chatter, said}
use u_dara_chat.Bot.Reply.{Frame, text_frame, reply_to_tell, chat_reply, on_ws_msg}
use u_dara_chat.Chat.CmdType.{tell}
use u_dara_chat.Chat.Find.{Free}
use u_dara_chat.Chat.Message.{DaraChatMsg}
use u_dara_chat.Chat.RoundTrip.{try_parse_message-serialize}

-- The answers of a bot to frames, one after the other.
abbrev pub answers : Chatter → List Frame → List Frame
answers c [] = []
answers c (f ∷ fs) = on_ws_msg c f.opcode f.payload ++ answers c fs

-- What is sent in the end when `a` and `b` take turns for a number of rounds, and `a` is first.
abbrev pub exchange : ℕ → Chatter → Chatter → List Frame → List Frame
exchange zero a b fs = fs
exchange (suc n) a b fs = exchange n b a (answers a fs)

abbrev pub tells : Chatter → Chatter → Text → List Frame
tells a b text = text_frame (said a tell b.my_char_name text) ∷ []

abbrev pub hi : Text
hi = codes "Hi my friend! Good to hear from you!"

abbrev pub hello : Text
hello = codes "Hello my friend! Good to hear from you!"

-- A bot's answer to what the other one tells it is its answer to the parsed message.
answers-tells :
    (a b : Chatter) (text : Text)
    → Free b':' a.my_char_name
    → Free b':' b.my_char_name
    → answers b (tells a b text) ≡ reply_to_tell b (said a tell b.my_char_name text)
unfolding on_ws_msg chat_reply
answers-tells a b text fa fb =
    rw (try_parse_message-serialize (said a tell b.my_char_name text) (λ e. cc) fa fb)
      (append-nil _)

reply-ping :
    (c : Chatter) (m : DaraChatMsg) (text : Text)
    → m.message ≡ text
    → starts_with (codes "Ping") text ≡ true
    → reply_to_tell c m ≡ text_frame (said c tell m.sender (codes "Pong")) ∷ []
unfolding reply_to_tell starts_with
reply-ping c m [] e h = cc
reply-ping c m (d ∷ text) e h = ground arith

-- The answer to a text without one of the special beginnings is one of the two greetings.
reply-other :
    (c : Chatter) (m : DaraChatMsg)
    → starts_with (codes "InviteMe") m.message ≡ false
    → starts_with (codes "Ping") m.message ≡ false
    → starts_with (codes "Pong") m.message ≡ false
    → (reply_to_tell c m ≡ text_frame (said c tell m.sender hi) ∷ [])
      ⊎ (reply_to_tell c m ≡ text_frame (said c tell m.sender hello) ∷ [])
unfolding reply_to_tell
reply-other c m i p q = elim (Bool-cases (starts_with (codes "Hello") m.message)) [
  | inl h ↦ inl (rw (i, p, h) refl)
  | inr h ↦ inr (rw (i, p, h, q) refl)
]

module _ (a b : Chatter) (fa : Free b':' a.my_char_name) (fb : Free b':' b.my_char_name) where
  answers-hello : answers b (tells a b hello) ≡ tells b a hi
  answers-hello = answers-tells a b hello fa fb ∙ unfold reply_to_tell in unfold starts_with in refl

  answers-hi : answers b (tells a b hi) ≡ tells b a hello
  answers-hi = answers-tells a b hi fa fb ∙ unfold reply_to_tell in unfold starts_with in refl

  answers-pong : answers b (tells a b (codes "Pong")) ≡ []
  answers-pong =
      answers-tells a b (codes "Pong") fa fb ∙ unfold reply_to_tell in unfold starts_with in refl

  answers-ping :
      (text : Text)
      → starts_with (codes "Ping") text ≡ true
      → answers b (tells a b text) ≡ tells b a (codes "Pong")
  answers-ping text h =
      answers-tells a b text fa fb ∙ reply-ping b (said a tell b.my_char_name text) text refl h

exchange-nil : (n : ℕ) (a b : Chatter) → exchange n a b [] ≡ []
exchange-nil zero a b = refl
exchange-nil (suc n) a b = exchange-nil n b a

greetings_endless :
    (n : ℕ) (a b : Chatter)
    → Free b':' a.my_char_name
    → Free b':' b.my_char_name
    → (length (exchange n b a (tells a b hello)) ≡ 1) × (length (exchange n b a (tells a b hi)) ≡ 1)
greetings_endless zero a b fa fb = (refl, refl)
greetings_endless (suc n) a b fa fb = (
  rw (answers-hello a b fa fb) (greetings_endless n b a fb fa).1,
  rw (answers-hi a b fa fb) (greetings_endless n b a fb fa).0,
)

-- When one bot tells another a text that begins with none of `InviteMe`, `Ping` and `Pong`, and no
-- name has a colon, the two never come to an end: after any number of rounds exactly one message is
-- under way.
pub exchange_endless :
    (n : ℕ) (a b : Chatter) (text : Text)
    → Free b':' a.my_char_name
    → Free b':' b.my_char_name
    → starts_with (codes "InviteMe") text ≡ false
    → starts_with (codes "Ping") text ≡ false
    → starts_with (codes "Pong") text ≡ false
    → length (exchange n b a (tells a b text)) ≡ 1
exchange_endless zero a b text fa fb i p q = refl
exchange_endless (suc n) a b text fa fb i p q =
    rw (answers-tells a b text fa fb)
      (elim (reply-other b (said a tell b.my_char_name text) i p q) [
        | inl e ↦ rw e (greetings_endless n b a fb fa).1
        | inr e ↦ rw e (greetings_endless n b a fb fa).0
      ])

-- When one bot tells another a text that begins with `Ping`, and no name has a colon, the other one
-- answers `Pong`, and then nothing more is sent.
pub exchange_ping_ends :
    (n : ℕ) (a b : Chatter) (text : Text)
    → Free b':' a.my_char_name
    → Free b':' b.my_char_name
    → starts_with (codes "Ping") text ≡ true
    → (exchange 1 b a (tells a b text) ≡ tells b a (codes "Pong"))
      × (exchange (suc (suc n)) b a (tells a b text) ≡ [])
exchange_ping_ends n a b text fa fb h = (
  answers-ping a b fa fb text h,
  rw (answers-ping a b fa fb text h, answers-pong b a fb fa) (exchange-nil n b a),
)
