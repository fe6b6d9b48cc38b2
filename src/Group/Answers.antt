-- ===== src/Group/Answers.antt =====
-- The fields of `GetGroupInfo`'s answer, and what they mean in a list with one leader per group.
use u_dara_chat.Base.Int.{pos}
use u_dara_chat.Base.{
  ◌≤◌, ◌≡◌, refl, ◌≢◌, ◌⊎◌, inl, inr, Bool, true, false, List, [], ◌∷◌, Text, count_if, arith,
  Bool-cases,
}
use u_dara_chat.Group.Info.{named, find_group_id, get_group_info}
use u_dara_chat.Group.Count.{size, leaders, leads_named}
use u_dara_chat.Group.Leader.{last_leader_none, leads_named-le-leaders}
use u_dara_chat.Group.Query.{last_leader, get_group_info_absent, get_group_info_present}
use u_dara_chat.Group.Types.{GroupMember, GroupContainer}

pub empty-cases : (t : Text) → (t ≡ []) ⊎ (t ≢ [])
empty-cases [] = inl refl
empty-cases (c ∷ t) = inr λ e. cc

module _ (c : GroupContainer) (n : Text) where
  pub get_group_info-group_id : (get_group_info c n).group_id ≡ find_group_id n c.my_groups
  get_group_info-group_id = elim (empty-cases (find_group_id n c.my_groups)) [
    | inl e ↦ rw (get_group_info_absent c n e, e) refl
    | inr e ↦ rw (get_group_info_present c n e) refl
  ]

  pub get_group_info-member_count :
      size [] c.my_groups ≡ 0
      → (get_group_info c n).member_count ≡ pos (size (find_group_id n c.my_groups) c.my_groups)
  get_group_info-member_count z = elim (empty-cases (find_group_id n c.my_groups)) [
    | inl e ↦ rw (get_group_info_absent c n e, e, z) refl
    | inr e ↦ rw (get_group_info_present c n e) refl
  ]

-- `isLeader` is set only at a leader of that name.
pub last_leader-named :
    (n g : Text) (ms : List GroupMember)
    → last_leader g (named n) false ms ≡ true
    → 1 ≤ count_if (leads_named n g) ms
unfolding count_if
last_leader-named n g [] e = cc
last_leader-named n g (m ∷ ms) e = elim (Bool-cases (named n m)) [
  | inl h ↦ ground (arith, last_leader-named n g ms)
  | inr h ↦ ground (arith, last_leader-named n g ms)
]

-- In a group with one leader, it is set exactly then.
pub last_leader-named_only :
    (n g : Text) (b : Bool) (ms : List GroupMember)
    → leaders g ms ≤ 1
    → 1 ≤ count_if (leads_named n g) ms
    → last_leader g (named n) b ms ≡ true
unfolding count_if
last_leader-named_only n g b [] l h = absurd (omega arith)
last_leader-named_only n g b (m ∷ ms) l h = ground (
  arith,
  last_leader-named_only n g b ms,
  last_leader_none g (named n) (named n m) ms,
  leads_named-le-leaders n g ms,
)
