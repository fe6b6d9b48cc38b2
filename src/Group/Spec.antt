-- ===== src/Group/Spec.antt =====
-- The container keeps to the rooms that it promises.
use u_dara_chat.Group.Rooms.{
  rooms, joins, kicks, leaves, Same, JoinBarred, KickBarred, Permits, History, nobody, then_do,
  operation, operations,
}
use u_dara_chat.Base.{
  ℕ, ◌≡◌, refl, sym, ap, ◌∙◌, ◌≢◌, ◌≤◌, inl, inr, false, [], Text, text_cases, Bool-cases, count_if,
  arith,
}
use u_dara_chat.Group.Answers.{empty-cases}
use u_dara_chat.Group.Container.{
  group_join, group_kick_member, group_disband, remove_ld_group_members,
}
use u_dara_chat.Group.Count.{size, size-find_group_id, occurrences-find_group_id}
use u_dara_chat.Group.Crowds.{
  size-group_start_group, group_join_pushes, size-group_kick_member, size-group_disband,
  size-group_disband_alone, size-alive_msg, size-set_member_online,
}
use u_dara_chat.Group.Info.{find_group_id, get_group_info}
use u_dara_chat.Group.Invites.{add_invite, remove_invite, remove_old_invites}
use u_dara_chat.Group.Joining.{JoinRefused, group_start_group_outcome, group_join_outcome}
use u_dara_chat.Group.Leaving.{
  KickRefused, Leads, is_leader-Leads, group_kick_member_outcome, group_disband_outcome,
}
use u_dara_chat.Group.Names.{
  group_of, group_of-alive_msg, group_of-set_member_online, group_of-group_join_other,
  group_of-group_start_group,
}
use u_dara_chat.Group.NewId.{get_new_group_id, get_new_group_id-ne-nil}
use u_dara_chat.Group.Reach.{
  Step, start, join, kick, disband, alive, online, scheduled, invite, uninvite, expire, Reach, here,
  next, Reach-WellFormed,
}
use u_dara_chat.Group.Steps.{IsWellFormed}
use u_dara_chat.Group.Types.{GroupInfo, GroupContainer}

rooms-Same : {c d : GroupContainer} → d ≡ c → Same (rooms c) (rooms d)
rooms-Same e = ((λ m. ap (λ x. group_of x m) e), λ k. ap (λ x. size k x.my_groups) e)

fresh-nobody :
    (id : Text) (c : GroupContainer)
    → id ≢ []
    → size id c.my_groups ≡ 0
    → (m : Text) → group_of c m ≢ id
fresh-nobody id c ne fresh m e =
    let some_group : group_of c m ≢ [] = λ q. ne (sym e ∙ q) in
    let grouped : 1 ≤ size (group_of c m) c.my_groups =
      size-find_group_id m c.my_groups some_group in
    omega (arith, fresh, ap (λ g. size g c.my_groups) e, grouped)

refused-JoinBarred :
    (c : GroupContainer) (m n : Text) (r : GroupInfo)
    → JoinRefused c m n r
    → JoinBarred m n (rooms c)
refused-JoinBarred c m n r (inl (unnamed, _)) = inl unnamed
refused-JoinBarred c m n r (inr (inl (_, alone, _))) = inr (inl alone)
refused-JoinBarred c m n r (inr (inr (inl (_, full, _)))) = inr (inr (inl full))
refused-JoinBarred c m n r (inr (inr (inr (_, _, grouped, _)))) = inr (inr (inr grouped))

not_leading :
    (c : GroupContainer) (n : Text)
    → IsWellFormed c
    → (¬ Leads c n)
    → (get_group_info c n).is_leader ≡ false
not_leading c n v no_lead = elim (Bool-cases (get_group_info c n).is_leader) [
  | inl b ↦ absurd (no_lead ((is_leader-Leads c n v).0 b))
  | inr b ↦ b
]

refused-KickBarred :
    (c : GroupContainer) (m n : Text) (r : GroupInfo)
    → IsWellFormed c
    → KickRefused c m n r
    → KickBarred m n (get_group_info c n).is_leader (rooms c)
refused-KickBarred c m n r v (inl (self, _)) = inl self
refused-KickBarred c m n r v (inr (inl (_, no_lead, _))) = inr (inl (not_leading c n v no_lead))
refused-KickBarred c m n r v (inr (inr (_, _, apart, _))) = inr (inr apart)

join-Permits :
    (now : ℕ) (c : GroupContainer) (m n : Text)
    → IsWellFormed c
    → Permits (joins m n) (rooms c) (rooms (group_join now c m n).0)
join-Permits now c m n v = elim (group_join_outcome now c m n v) [
  | inl (refused, same) ↦
      inl (refused-JoinBarred c m n (group_join now c m n).1 refused, rooms-Same same)
  | inr (grouped, room, alone, own, more, _, _) ↦ elim (group_join_pushes now c m n) [
    | inl same ↦
        absurd
          (omega (arith, more, ap (λ (x : GroupContainer). size (group_of c n) x.my_groups) same))
    | inr (named, counts) ↦ inr (
      named,
      grouped,
      room,
      (alone, own, (λ k ne. group_of-group_join_other now c m n k ne), counts),
    )
  ]
]

kick-Permits :
    (c : GroupContainer) (m n : Text)
    → IsWellFormed c
    → Permits
        (kicks m n (get_group_info c n).is_leader)
        (rooms c)
        (rooms (group_kick_member c m n).0)
kick-Permits c m n v = elim (group_kick_member_outcome c m n v) [
  | inl (refused, same) ↦
      inl (refused-KickBarred c m n (group_kick_member c m n).1 v refused, rooms-Same same)
  | inr (other, leads, together, gone, elsewhere, _, _) ↦
      let found : group_of c m ≢ [] = λ q. leads.0 (sym together ∙ q) in
      elim (size-group_kick_member c m v found n) [
        | inl same ↦ absurd (found (sym (ap (λ x. group_of x m) same) ∙ gone))
        | inr counts ↦
            inr (other, (is_leader-Leads c n v).1 leads, together, (found, gone, elsewhere, counts))
      ]
]

disband-Permits :
    (c : GroupContainer) (n : Text)
    → IsWellFormed c
    → Permits (leaves n) (rooms c) (rooms (group_disband c n).0)
disband-Permits c n v =
    let (gone, elsewhere, _, _, _) = group_disband_outcome c n v in
    elim (empty-cases (group_of c n)) [
      | inr found ↦ inr (found, gone, elsewhere, size-group_disband c n v found)
      | inl alone ↦ inl (
        alone,
        (
          (λ m. elim (text_cases m n) [
            | inl e ↦ rw e (gone ∙ sym alone)
            | inr ne ↦ elsewhere m ne
          ]),
          size-group_disband_alone c n (occurrences-find_group_id n c.my_groups v.grouped alone),
        ),
      )
    ]

Step-Permits :
    {c d : GroupContainer} (s : Step c d)
    → IsWellFormed c
    → Permits (operation s) (rooms c) (rooms d)
unfolding operation remove_ld_group_members add_invite remove_invite remove_old_invites
Step-Permits (start now dis dis2 c n fresh) v =
    let id : Text = get_new_group_id dis dis2 in
    let named : id ≢ [] = get_new_group_id-ne-nil dis dis2 in
    elim (group_start_group_outcome now id c n v named fresh) [
      | inl (grouped, same, _) ↦ inl (grouped, rooms-Same same)
      | inr (alone, own, _, _, _, _) ↦
          let (_, _, elsewhere) = group_of-group_start_group now id c n v alone in
          inr (
            named,
            fresh-nobody id c named fresh,
            fresh,
            (alone, own, elsewhere, size-group_start_group now id c n alone),
          )
    ]
Step-Permits (join now c m n) v = join-Permits now c m n v
Step-Permits (kick c m n) v = kick-Permits c m n v
Step-Permits (disband c n) v = disband-Permits c n v
Step-Permits (alive now c m) v = (group_of-alive_msg now c m, size-alive_msg now c m)
Step-Permits (online now c n b) v =
    (group_of-set_member_online now c n b, size-set_member_online now c n b)
Step-Permits (scheduled c) v = ((λ m. refl), λ k. refl)
Step-Permits (invite now c l m) v = ((λ n. refl), λ k. refl)
Step-Permits (uninvite c l m) v = ((λ n. refl), λ k. refl)
Step-Permits (expire now c) v = ((λ m. refl), λ k. refl)

-- The container refines the rooms: in every history of its operations, with a fresh id at each
-- start of a group, each operation makes of the rooms what is permitted for that operation and
-- nothing else. Founding does nothing exactly for a name in a group, and otherwise puts the founder
-- alone into a new group; joining does nothing exactly if no name is given, the name is in no group,
-- its group has six members or the member is in a group, and otherwise moves the member there;
-- kicking does nothing exactly for oneself, by a name that is not told to lead, or across groups, and
-- otherwise takes the member out; leaving takes exactly a name in a group out. Counts follow, and all
-- else changes nothing.
pub Reach-History : {c : GroupContainer} (r : Reach c) → History (operations r) (rooms c)
unfolding operations find_group_id count_if
Reach-History here = nobody (λ m. refl) (λ k. refl)
Reach-History (next r s) =
    then_do (operation s) (Reach-History r) (Step-Permits s (Reach-WellFormed r))
