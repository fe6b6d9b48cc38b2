-- ===== src/Tests/Snapshots.antt =====
-- A snapshot of two sessions, in both orders.
use mathlib.Core.List.Perm
use u_dara_chat.Admin.Query.{answer_admin_query}
use u_dara_chat.Base.{
  ℕ, ◌≡◌, true, List, [], ◌∷◌, Text, codes, text_eq, count_if, length, ◌==◌, if◌then◌else◌,
}
use u_dara_chat.Chat.CmdType.{admin_zones}
use u_dara_chat.Chat.Message.{DaraChatMsg, serialize}
use u_dara_chat.Group.Types.{new_group_container}
use u_dara_chat.Server.Channels.{is_on_channel}
use u_dara_chat.Server.Counts.{collect_admin_snapshot_counts, admin_answer_unordered}
use u_dara_chat.Server.Snapshot.{collect_admin_snapshot}
use u_dara_chat.Server.State.{TopicSlot, World, new_per_socket_data}
use u_dara_chat.Server.Tally.{tally, is_ordered}
use u_dara_chat.Tests.Sockets.{env}

abbrev slot : TopicSlot
slot = record { topic = codes "Trade"; used = true }

abbrev world : World
world = record {
  user_data = λ ws.
      if ws == 1
      then record new_per_socket_data {
        name = codes "Ann";
        zone = codes "Z";
        topics = slot ∷ slot ∷ [];
        connected = true;
      }
      else record new_per_socket_data {
        name = codes "Cid";
        zone = codes "A";
        topics = slot ∷ [];
        connected = true;
      };
  active_sessions = (codes "Ann", 1) ∷ (codes "Cid", 2) ∷ [];
  group_container = new_group_container;
  effects = [];
}

abbrev other_order : List (Text × ℕ)
other_order = (codes "Cid", 2) ∷ (codes "Ann", 1) ∷ []

abbrev query : DaraChatMsg
query = record { kind = admin_zones; sender = codes "Ann"; recipient = []; message = [] }

abbrev uptime : ℕ
uptime = 7

collect_admin_snapshot_counts_example :
    ((collect_admin_snapshot world uptime).connected_clients ≡ length world.active_sessions)
    × ((z : Text)
        → tally z (collect_admin_snapshot world uptime).zones
          ≡ count_if (λ (p : Text × ℕ). text_eq (world.user_data p.1).zone z) world.active_sessions)
    × ((t : Text)
        → tally t (collect_admin_snapshot world uptime).channels
          ≡ count_if
              (λ (p : Text × ℕ). is_on_channel t (world.user_data p.1))
              world.active_sessions)
    × (is_ordered (collect_admin_snapshot world uptime).zones ≡ true)
    × (is_ordered (collect_admin_snapshot world uptime).channels ≡ true)
collect_admin_snapshot_counts_example = collect_admin_snapshot_counts world uptime

admin_answer_unordered_example :
    serialize (
      answer_admin_query env.json query true
        (λ _. collect_admin_snapshot (record world { active_sessions = other_order }) uptime))
    ≡ serialize (answer_admin_query env.json query true (λ _. collect_admin_snapshot world uptime))
admin_answer_unordered_example =
    admin_answer_unordered env.json world uptime query true other_order
      (Perm.swap (codes "Cid", 2) (codes "Ann", 1) [])
