-- ===== src/Bot/Frames.antt =====
-- The bot's frames, as the server's parser reads them.
use u_dara_chat.Base.{
  ℕ, zero, suc, ◌%◌, ◌≡◌, refl, true, List, [], ◌∷◌, Option, none, some, Text, codes, length,
  get_elem?, any_of, starts_with, text_eq, arith,
}
use u_dara_chat.Bot.Chatter.{
  Chatter, get_subscribe_string1, get_subscribe_string2, or_nil, get_random_of, get_random_message,
  get_random_chat_partner, said, get_random_chat_msg, get_random_zone_msg, get_random_tell_msg,
  get_random_group_msg, get_random_invite,
}
use u_dara_chat.Server.State.{World}
use u_dara_chat.Server.Topics.{
  handle_subscribe_message, store_and_subscribe, check_valid_topic_name,
}
use u_dara_chat.Chat.CmdType.{channel, zone, tell, group, group_invite}
use u_dara_chat.Chat.Find.{Free}
use u_dara_chat.Chat.Message.{DaraChatMsg, Parsed, try_parse_message}
use u_dara_chat.Chat.RoundTrip.{try_parse_message-serialize}

-- No text of the list has a colon.
pub data AllFree : List Text → Type 0 where
  no_text : AllFree []
  one_text : {t : Text} {ts : List Text} → Free b':' t → AllFree ts → AllFree (t ∷ ts)

get_elem-Free :
    (ts : List Text) (i : ℕ) → AllFree ts → {t : Text} → get_elem? ts i ≡ some t → Free b':' t
get_elem-Free [] i f e = cc
get_elem-Free (t ∷ ts) zero (one_text h f) e = ground arith
get_elem-Free (t ∷ ts) (suc i) (one_text h f) e = get_elem-Free ts i f e

or_nil-Free : (o : Option Text) → ((t : Text) → o ≡ some t → Free b':' t) → Free b':' (or_nil o)
unfolding any_of
or_nil-Free none f = refl
or_nil-Free (some t) f = f t refl

get_random_of-Free : (draw : ℕ) (ts : List Text) → AllFree ts → Free b':' (get_random_of draw ts)
unfolding get_random_of
get_random_of-Free draw [] f = unfold any_of in refl
get_random_of-Free draw (t ∷ ts) f =
    or_nil-Free (get_elem? (t ∷ ts) (draw % suc (length ts)))
      (λ u e. get_elem-Free (t ∷ ts) (draw % suc (length ts)) f e)

-- What the parser makes of a message that it accepts.
abbrev pub accepted_as : DaraChatMsg → Parsed
accepted_as m = record { ok = true; output = m; error = [] }

-- Whatever the bot draws, if neither its name nor a partner's has a colon, the parser accepts each
-- of its five kinds of frames and reads back the type, the name, the recipient and the text.
pub chatter_frames_accepted :
    (c : Chatter) (draw draw' : ℕ)
    → Free b':' c.my_char_name
    → AllFree c.my_chat_partners
    → (try_parse_message (get_random_chat_msg c draw)
        ≡ accepted_as (said c channel (codes "World") (get_random_message draw)))
      × (try_parse_message (get_random_zone_msg c draw)
          ≡ accepted_as (said c zone [] (get_random_message draw)))
      × (try_parse_message (get_random_tell_msg c draw draw')
          ≡ accepted_as (said c tell (get_random_chat_partner c draw) (get_random_message draw')))
      × (try_parse_message (get_random_group_msg c draw)
          ≡ accepted_as (said c group [] (get_random_message draw)))
      × (try_parse_message (get_random_invite c draw)
          ≡ accepted_as (said c group_invite (get_random_chat_partner c draw) []))
unfolding get_random_chat_msg get_random_zone_msg get_random_tell_msg get_random_group_msg
    get_random_invite get_random_chat_partner
chatter_frames_accepted c draw draw' n p =
    let world : Free b':' (codes "World") = unfold any_of in refl in
    let nobody : Free b':' [] = unfold any_of in refl in
    let partner : Free b':' (get_random_of draw c.my_chat_partners) =
      get_random_of-Free draw c.my_chat_partners p in
    (
      try_parse_message-serialize _ (λ e. cc) n world,
      try_parse_message-serialize _ (λ e. cc) n nobody,
      try_parse_message-serialize _ (λ e. cc) n partner,
      try_parse_message-serialize _ (λ e. cc) n nobody,
      try_parse_message-serialize _ (λ e. cc) n partner,
    )

-- The server ignores the bot's first subscription, since `World` is a standard topic of every
-- login, and its second one gets a slot for `SomeChannel` if one is left.
pub chatter_subscriptions :
    (w : World) (ws : ℕ)
    → (handle_subscribe_message w ws get_subscribe_string1 ≡ w)
      × (handle_subscribe_message w ws get_subscribe_string2
          ≡ store_and_subscribe w ws (codes "SomeChannel"))
unfolding handle_subscribe_message get_subscribe_string1 get_subscribe_string2
    check_valid_topic_name starts_with text_eq any_of
chatter_subscriptions w ws = (refl, refl)
