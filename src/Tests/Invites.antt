-- ===== src/Tests/Invites.antt =====
-- Ann, who leads a group, has invited Bob, who accepts on socket 2.
use u_dara_chat.Base.{◌≡◌, refl, [], Text, codes, text_eq, any_of, count_if, keep_if, arith}
use u_dara_chat.Chat.CmdType.{group_join}
use u_dara_chat.Chat.Message.{DaraChatMsg}
use u_dara_chat.Group.Container.{group_start_group}
use u_dara_chat.Group.Count.{size}
use u_dara_chat.Group.Info.{find_group_id, get_group_info}
use u_dara_chat.Group.Invites.{
  lower, c_str, same_ignoring_case, add_invite, remove_old_invites, check_has_invited,
}
use u_dara_chat.Group.Names.{group_of}
use u_dara_chat.Group.NewId.{get_new_group_id, hex_run, hex_digit}
use u_dara_chat.Group.Reach.{start, invite, Reach, here, next, Reach-WellFormed}
use u_dara_chat.Group.Types.{GroupContainer, new_group_container}
use u_dara_chat.Server.Accepting.{MayJoin, handle_group_join-MayJoin}
use u_dara_chat.Server.Groups.{handle_group_join}
use u_dara_chat.Server.History.{new_world}
use u_dara_chat.Server.Membership.{InStep}
use u_dara_chat.Server.State.{World}
use u_dara_chat.Tests.Sockets.{now}

abbrev ann : Text
ann = codes "Ann"

abbrev bob : Text
bob = codes "Bob"

abbrev leading : GroupContainer
leading = (group_start_group 10 (get_new_group_id now.dis now.dis2) new_group_container ann).0

abbrev world : World
world = record new_world { group_container = add_invite 100 leading ann bob }

nobody : size (get_new_group_id now.dis now.dis2) new_group_container.my_groups ≡ 0
unfolding count_if
nobody = refl

world-Reach : Reach world.group_container
world-Reach =
    next (next here (start 10 now.dis now.dis2 new_group_container ann nobody))
      (invite 100 leading ann bob)

abbrev acceptance : DaraChatMsg
acceptance = record { kind = group_join; sender = bob; recipient = ann; message = [] }

bob-InStep : InStep 2 bob world
unfolding add_invite group_start_group get_group_info find_group_id text_eq
bob-InStep = record { step = refl; sound = Reach-WellFormed world-Reach }

bob-MayJoin : MayJoin now world.group_container ann bob
unfolding add_invite group_start_group get_group_info find_group_id text_eq remove_old_invites
    check_has_invited same_ignoring_case lower c_str any_of keep_if count_if get_new_group_id
    hex_run hex_digit
bob-MayJoin = record {
  invited = refl;
  named = λ e. cc;
  grouped = λ e. cc;
  room = omega arith;
  alone = refl;
}

handle_group_join-MayJoin_example :
    (group_of (handle_group_join now world 2 acceptance 1).group_container bob
      ≡ group_of world.group_container ann)
    × (((handle_group_join now world 2 acceptance 1).user_data 2).group_id
        ≡ group_of world.group_container ann)
    × (group_of (handle_group_join now world 2 acceptance 1).group_container ann
        ≡ group_of world.group_container ann)
handle_group_join-MayJoin_example =
    handle_group_join-MayJoin now 2 1 acceptance world bob-InStep bob-MayJoin
