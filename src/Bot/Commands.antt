-- ===== src/Bot/Commands.antt =====
-- How the server's parser reads what a line of the controlled mode sends.
use u_dara_chat.Base.{
  ◌≡◌, refl, ◌≢◌, Bool, true, false, [], Text, codes, is_empty, any_of, if◌then◌else◌,
}
use u_dara_chat.Bot.Chatter.{Chatter, said}
use u_dara_chat.Bot.Control.{
  target_of, text_of, Command, quit, say, hint, say_text, control_command,
}
use u_dara_chat.Bot.Frames.{accepted_as}
use u_dara_chat.Chat.CmdType.{
  ChatCmdType, no_type, channel, group, group_invite, group_kick, group_disband, admin_status,
  admin_groups, admin_zones, admin_channels,
}
use u_dara_chat.Chat.Find.{Free}
use u_dara_chat.Chat.Message.{DaraChatMsg, serialize, try_parse_message}
use u_dara_chat.Chat.RoundTrip.{try_parse_message-serialize}

-- A message of the bot's that the parser can take apart.
record IsReadable (c : Chatter) (m : DaraChatMsg) : Type 0 where
  typed : m.kind ≢ no_type
  own : m.sender ≡ c.my_char_name
  addressed : Free b':' m.recipient

data Says (c : Chatter) : Command → Type 0 where
  stops : Says c quit
  hints : Says c hint
  sends : {m : DaraChatMsg} → IsReadable c m → Says c (say m)

Says-IsReadable : {c : Chatter} {m : DaraChatMsg} → Says c (say m) → IsReadable c m
Says-IsReadable (sends r) = r

Says-if :
    {c : Chatter} {x y : Command} (b : Bool) → Says c x → Says c y → Says c (if b then x else y)
Says-if true p q = p
Says-if false p q = q

say_text-Says : (c : Chatter) (m : DaraChatMsg) → IsReadable c m → Says c (say_text m)
say_text-Says c m r = Says-if (is_empty m.message) hints (sends r)

said-IsReadable :
    (c : Chatter) (k : ChatCmdType) (recipient text : Text)
    → k ≢ no_type
    → Free b':' recipient
    → IsReadable c (said c k recipient text)
said-IsReadable c k recipient text typed f = record { typed = typed; own = refl; addressed = f }

control_command-Says :
    (c : Chatter) (line : Text) → Free b':' (target_of line) → Says c (control_command c line)
unfolding control_command
control_command-Says c line f =
    let target : Text = target_of line in
    let nobody : Free b':' [] = unfold any_of in refl in
    let world : Free b':' (codes "World") = unfold any_of in refl in
    Says-if _ stops (
      Says-if _ (sends (said-IsReadable c admin_status target [] (λ e. cc) f)) (
        Says-if _ (sends (said-IsReadable c admin_groups target [] (λ e. cc) f)) (
          Says-if _ (sends (said-IsReadable c admin_zones target [] (λ e. cc) f)) (
            Says-if _ (sends (said-IsReadable c admin_channels target [] (λ e. cc) f)) (
              Says-if _
                (say_text-Says c _
                  (said-IsReadable c channel (codes "World") (text_of line) (λ e. cc) world))
                (Says-if _
                  (say_text-Says c _ (said-IsReadable c group [] (text_of line) (λ e. cc) nobody))
                  (Says-if _ (sends (said-IsReadable c group_invite target [] (λ e. cc) f)) (
                    Says-if _ (sends (said-IsReadable c group_kick target [] (λ e. cc) f)) (
                      Says-if _ (sends (said-IsReadable c group_disband [] [] (λ e. cc) nobody))
                        hints)))))))))

-- Whatever a line of the controlled mode sends is read by the parser as exactly that message, with the
-- bot's name as its sender, if neither the bot's name nor the line's second word has a colon. The text
-- of a message may have colons.
pub control_command_accepted :
    (c : Chatter) (line : Text) {m : DaraChatMsg}
    → Free b':' c.my_char_name
    → Free b':' (target_of line)
    → control_command c line ≡ say m
    → (m.sender ≡ c.my_char_name) × (try_parse_message (serialize m) ≡ accepted_as m)
control_command_accepted c line {m} fn ft e =
    let r : IsReadable c m = Says-IsReadable (rw e at (control_command-Says c line ft)) in
    (r.own, try_parse_message-serialize m r.typed (rw r.own fn) r.addressed)
