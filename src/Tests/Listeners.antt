-- ===== src/Tests/Listeners.antt =====
-- A run of the server in which socket 1 opens and Ann logs in on it: what the socket then hears.
use u_dara_chat.Base.Decimal.{digits_onto, to_string}
use u_dara_chat.Base.{
  ◌≤◌, ◌≡◌, refl, true, false, [], ◌++◌, Text, codes, any_of, starts_with, getlines, text_eq,
  length, count_if, arith,
}
use u_dara_chat.Chat.Message.{find_first}
use u_dara_chat.Group.Container.{set_member_online}
use u_dara_chat.Group.Count.{size}
use u_dara_chat.Group.Info.{get_current_group_id, get_group_info, find_group_id}
use u_dara_chat.Group.Names.{group_of}
use u_dara_chat.Group.NewId.{get_new_group_id}
use u_dara_chat.Login.Fields.{field, emplace, add_part, add_parts}
use u_dara_chat.Login.Verify.{
  AuthenticatedLogin, accepted, nonempty_field, admin_role, login_fields, check_date, check_claims,
  check_roles, verify_login,
}
use u_dara_chat.Server.Consistent.{has_ended, is_gone, IsLive}
use u_dara_chat.Server.Events.{open_slots, on_open, on_text, on_connect, on_message, enter}
use u_dara_chat.Server.History.{new_world, Run, boot, opened, received}
use u_dara_chat.Server.Listening.{Hears, on_message-login-Hears}
use u_dara_chat.Server.Privacy.{MayHear, Run-MayHear}
use u_dara_chat.Server.State.{World, session, set_session}
use u_dara_chat.Server.Topics.{
  to_lower, subscribe_standard_topics, store_and_subscribe, store_topic, subscribe_group_topic,
}
use u_dara_chat.Tests.Sockets.{env, now}

abbrev login : Text
login = codes "connect:name=Ann;zone=Z;pass=t"

abbrev ann : AuthenticatedLogin
ann = record {
  character_name = codes "Ann";
  zone = codes "Z";
  is_admin = true;
  expires_at = 200_000_000_000;
}

abbrev opened_world : World
opened_world = on_open new_world 1 (to_string 7)

abbrev entered : World
entered = on_message env now opened_world 1 login 1

opened_world-Run : Run env [] opened_world
opened_world-Run = opened 1 7 boot

not_ended : has_ended 1 opened_world ≡ false
unfolding any_of on_open open_slots to_string digits_onto
not_ended = refl

not_gone : is_gone 1 [] ≡ false
unfolding any_of
not_gone = refl

fresh : size (get_new_group_id now.dis now.dis2) opened_world.group_container.my_groups ≡ 0
unfolding count_if on_open open_slots
fresh = refl

off : (opened_world.user_data 1).connected ≡ false
unfolding on_open open_slots
off = refl

room : 4 ≤ length (opened_world.user_data 1).topics
unfolding on_open open_slots
room = omega arith

connect : starts_with (codes "connect:") login ≡ true
unfolding starts_with
connect = refl

ok : verify_login env.jwt login env.secret now.ticks ≡ accepted ann
unfolding starts_with verify_login login_fields add_parts getlines add_part find_first emplace field
    text_eq nonempty_field check_claims check_date any_of check_roles admin_role
ok = refl

entered-Run : Run env [] entered
entered-Run = received now 1 login 1 not_ended not_gone fresh opened_world-Run

entered-IsLive : IsLive [] entered 1
unfolding on_open open_slots on_message on_text starts_with on_connect verify_login login_fields
    add_parts getlines add_part find_first emplace field text_eq nonempty_field check_claims
    check_date any_of check_roles admin_role enter session set_session get_current_group_id
    get_group_info find_group_id set_member_online subscribe_standard_topics store_and_subscribe
    store_topic subscribe_group_topic
entered-IsLive = record { connected = refl; not_ended = refl; not_gone = refl }

on_message-login-Hears_example :
    Hears 1 ann.zone ann.character_name
      (group_of entered.group_container ann.character_name)
      entered
on_message-login-Hears_example =
    on_message-login-Hears env now 1 login ann opened_world-Run off room connect ok

Run-MayHear_example : MayHear entered 1 (codes "tell_" ++ to_lower ann.character_name)
Run-MayHear_example =
    Run-MayHear env 1 (codes "tell_" ++ to_lower ann.character_name) entered-Run entered-IsLive
      (on_message-login-Hears env now 1 login ann opened_world-Run off room connect ok).of_name
