-- ===== src/Tests/Runs.antt =====
-- A run of the server: Ann logs in on socket 1, socket 2 opens, and Ann's connection is closed.
use u_dara_chat.Base.Decimal.{to_string}
use u_dara_chat.Base.{ℕ, ◌≡◌, ◌⊎◌, refl, false, [], ◌∷◌, Text, codes, any_of, count_if}
use u_dara_chat.Chat.CmdType.{group}
use u_dara_chat.Chat.Message.{serialize, find_first}
use u_dara_chat.Group.Info.{get_current_group_id, get_group_info, find_group_id}
use u_dara_chat.Group.Container.{set_member_online}
use u_dara_chat.Group.Names.{group_of}
use u_dara_chat.Login.Fields.{field, emplace, add_part, add_parts}
use u_dara_chat.Login.Verify.{
  nonempty_field, admin_role, login_fields, check_date, check_claims, check_roles, verify_login,
}
use u_dara_chat.Server.Consistent.{IsLive}
use u_dara_chat.Server.GroupTalk.{on_message-group}
use u_dara_chat.Server.Events.{on_text, on_connect, enter}
use u_dara_chat.Server.State.{session, set_session, publish, emit}
use u_dara_chat.Server.Topics.{
  subscribe_standard_topics, store_and_subscribe, store_topic, subscribe_group_topic,
}
use u_dara_chat.Base.{starts_with, getlines, text_eq, is_empty, if◌then◌else◌}
use u_dara_chat.Group.Count.{size}
use u_dara_chat.Group.NewId.{get_new_group_id}
use u_dara_chat.Server.Consistent.{has_ended, is_gone, IsConsistent}
use u_dara_chat.Server.Events.{on_open, on_close, on_message}
use u_dara_chat.Server.History.{new_world, Run, boot, opened, received, closed, Run-IsConsistent}
use u_dara_chat.Server.State.{World}
use u_dara_chat.Server.Authenticated.{LoggedIn, frames, Run-LoggedIn, Run-on_message}
use u_dara_chat.Server.Presence.{IsPresent, Run-IsPresent}
use u_dara_chat.Tests.Sockets.{env, now}

abbrev login : Text
login = codes "connect:name=Ann;zone=Z;pass=t"

abbrev entered : World
entered = on_message env now new_world 1 login 1

not_ended : has_ended 1 new_world ≡ false
unfolding any_of
not_ended = refl

not_gone : is_gone 1 [] ≡ false
unfolding any_of
not_gone = refl

fresh : size (get_new_group_id now.dis now.dis2) new_world.group_container.my_groups ≡ 0
unfolding count_if
fresh = refl

abbrev pointer : ℕ
pointer = 94000

run : Run env (1 ∷ []) (on_close now (on_open entered 2 (to_string pointer)) 1)
run = closed now 1 (opened 2 pointer (received now 1 login 1 not_ended not_gone fresh boot))

Run-IsConsistent_example :
    IsConsistent (1 ∷ []) (on_close now (on_open entered 2 (to_string pointer)) 1)
Run-IsConsistent_example = Run-IsConsistent env run

Run-IsPresent_example : IsPresent (on_close now (on_open entered 2 (to_string pointer)) 1)
Run-IsPresent_example = Run-IsPresent env run

entered-IsLive : IsLive [] entered 1
unfolding on_message on_text starts_with on_connect verify_login login_fields add_parts getlines
    add_part find_first emplace field text_eq nonempty_field check_claims check_date any_of
    check_roles admin_role enter session set_session get_current_group_id get_group_info
    find_group_id set_member_online subscribe_standard_topics store_and_subscribe store_topic
    subscribe_group_topic
entered-IsLive = record { connected = refl; not_ended = refl; not_gone = refl }

run_entered : Run env [] entered
run_entered = received now 1 login 1 not_ended not_gone fresh boot

Run-LoggedIn_example : LoggedIn env 1 (entered.user_data 1) (frames run_entered)
Run-LoggedIn_example = Run-LoggedIn env run_entered 1 entered-IsLive.connected

-- A frame of a socket that never logged in.
abbrev intruder : Text
intruder = codes "Tell:Ann:Bob:hi"

intruder_asks_no_login : starts_with (codes "connect:") intruder ≡ false
unfolding starts_with
intruder_asks_no_login = refl

Run-on_message_example :
    (on_message env now entered 2 intruder 1 ≡ entered)
    ⊎ LoggedIn env 2 (entered.user_data 2) (frames run_entered)
Run-on_message_example = Run-on_message env run_entered now 2 intruder 1 intruder_asks_no_login

on_message-group_example :
    on_message env now entered 1
      (serialize
        (record { kind = group; sender = codes "Eve"; recipient = []; message = codes "hi" }))
      1
    ≡ (if is_empty (group_of entered.group_container (entered.user_data 1).name)
        then entered
        else emit entered (
            publish
              (group_of entered.group_container (entered.user_data 1).name)
              (serialize (record {
                kind = group;
                sender = (entered.user_data 1).name;
                recipient = [];
                message = codes "hi";
              }))
              1))
on_message-group_example =
    on_message-group env now 1 (codes "Eve") [] (codes "hi") run_entered entered-IsLive
      (unfold any_of in refl) (unfold any_of in refl)
