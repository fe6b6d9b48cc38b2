-- ===== src/Server/GroupTalk.antt =====
-- A `Group` message in a run of the server.
use u_dara_chat.Base.{
  ℕ, ◌≡◌, refl, ap, false, List, Text, codes, starts_with, is_empty, if◌then◌else◌,
}
use u_dara_chat.Chat.CmdType.{group}
use u_dara_chat.Chat.Find.{Free}
use u_dara_chat.Chat.Message.{DaraChatMsg, serialize}
use u_dara_chat.Chat.RoundTrip.{try_parse_message-serialize}
use u_dara_chat.Group.Names.{group_of}
use u_dara_chat.Server.Consistent.{IsLive, IsConsistent}
use u_dara_chat.Server.Events.{Env, on_group, on_chat, on_text, on_message}
use u_dara_chat.Server.Groups.{Now}
use u_dara_chat.Server.History.{Run, Run-IsConsistent}
use u_dara_chat.Server.State.{World, publish, emit}

said_to :
    (w : World) (g payload : Text) {h : Text}
    → h ≡ g
    → (if is_empty h then w else emit w (publish h payload 1))
      ≡ (if is_empty g then w else emit w (publish g payload 1))
said_to w g payload e = ap (λ h. if is_empty h then w else emit w (publish h payload 1)) e

-- In every run of the server, a `Group` message of a live socket, whoever it claims to be from, is
-- published under the socket's name to the group that the container has for this name, and to nobody
-- else, or is dropped if the name is in no group. The names it is written with have no colon.
pub on_message-group :
    (env : Env) (now : Now) {gone : List ℕ} {w : World} (ws : ℕ) (claimed recipient text : Text)
    → Run env gone w
    → IsLive gone w ws
    → Free b':' claimed
    → Free b':' recipient
    → on_message env now w ws
        (serialize
          (record { kind = group; sender = claimed; recipient = recipient; message = text }))
        1
      ≡ (if is_empty (group_of w.group_container (w.user_data ws).name)
          then w
          else emit w (
              publish
                (group_of w.group_container (w.user_data ws).name)
                (serialize (record {
                  kind = group;
                  sender = (w.user_data ws).name;
                  recipient = recipient;
                  message = text;
                }))
                1))
unfolding on_message on_text on_chat on_group
on_message-group env now {gone} {w} ws claimed recipient text r l fs fr =
    let m : DaraChatMsg = record {
      kind = group;
      sender = claimed;
      recipient = recipient;
      message = text;
    } in
    let c : IsConsistent gone w = Run-IsConsistent env r in
    let n : Text = (w.user_data ws).name in
    let same : (w.user_data ws).group_id ≡ group_of w.group_container n =
      (c.seated n ws (c.live ws l)).group in
    let a1 : starts_with (codes "connect:") (serialize m) ≡ false =
      unfold serialize in unfold starts_with in refl in
    let a2 : starts_with (codes "schedule:") (serialize m) ≡ false =
      unfold serialize in unfold starts_with in refl in
    let a3 : starts_with (codes "subscribe:") (serialize m) ≡ false =
      unfold serialize in unfold starts_with in refl in
    let a4 : starts_with (codes "unsubscribe:") (serialize m) ≡ false =
      unfold serialize in unfold starts_with in refl in
    let a5 : starts_with (codes "publish:") (serialize m) ≡ false =
      unfold serialize in unfold starts_with in refl in
    rw (try_parse_message-serialize m (λ q. cc) fs fr, l.connected, a1, a2, a3, a4, a5)
      (said_to w (group_of w.group_container n) _ same)
