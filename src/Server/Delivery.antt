-- ===== src/Server/Delivery.antt =====
-- A `Tell` from end to end: written by a client, parsed, stamped and published.
use u_dara_chat.Base.{ℕ, ◌≡◌, refl, true, false, ◌++◌, Text, codes, starts_with}
use u_dara_chat.Chat.CmdType.{tell}
use u_dara_chat.Chat.Find.{Free}
use u_dara_chat.Chat.Message.{DaraChatMsg, serialize}
use u_dara_chat.Chat.RoundTrip.{try_parse_message-serialize}
use u_dara_chat.Server.Events.{Env, on_tell, on_chat, on_text, on_message}
use u_dara_chat.Server.Groups.{Now}
use u_dara_chat.Server.State.{World, publish, emit}
use u_dara_chat.Server.Topics.{to_lower}

-- A logged-in socket's `Tell`, whoever it claims to be from, has one effect: it is published to the
-- topic of the recipient's name in small letters, under the name of the socket's login, with the
-- recipient and the text as they were written. The names it is written with have no colon, and the
-- text does not begin with `DEBUG`.
pub on_message-tell :
    (env : Env) (now : Now) (w : World) (ws : ℕ) (claimed recipient text : Text)
    → (w.user_data ws).connected ≡ true
    → Free b':' claimed
    → Free b':' recipient
    → starts_with (codes "DEBUG") text ≡ false
    → on_message env now w ws
        (serialize
          (record { kind = tell; sender = claimed; recipient = recipient; message = text }))
        1
      ≡ emit w (
          publish
            (codes "tell_" ++ to_lower recipient)
            (serialize (record {
              kind = tell;
              sender = (w.user_data ws).name;
              recipient = recipient;
              message = text;
            }))
            1)
unfolding on_message on_text on_chat on_tell
on_message-tell env now w ws claimed recipient text c fs fr d =
    let m : DaraChatMsg = record {
      kind = tell;
      sender = claimed;
      recipient = recipient;
      message = text;
    } in
    let a : starts_with (codes "connect:") (serialize m) ≡ false =
      unfold serialize in unfold starts_with in refl in
    let b : starts_with (codes "schedule:") (serialize m) ≡ false =
      unfold serialize in unfold starts_with in refl in
    let e : starts_with (codes "subscribe:") (serialize m) ≡ false =
      unfold serialize in unfold starts_with in refl in
    let f : starts_with (codes "unsubscribe:") (serialize m) ≡ false =
      unfold serialize in unfold starts_with in refl in
    let g : starts_with (codes "publish:") (serialize m) ≡ false =
      unfold serialize in unfold starts_with in refl in
    rw (try_parse_message-serialize m (λ q. cc) fs fr, c, a, b, e, f, g, d) refl
