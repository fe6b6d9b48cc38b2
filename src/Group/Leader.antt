-- ===== src/Group/Leader.antt =====
-- `AssignLeader`, and the member that a query takes for the leader.
use u_dara_chat.Base.{
  ◌≤◌, ◌≡◌, refl, ◌≢◌, Bool, true, List, [], ◌∷◌, Text, text_eq_iff, count_if, min, arith,
  if◌then◌else◌,
}
use u_dara_chat.Group.Container.{assign_from}
use u_dara_chat.Group.Count.{occurrences, size, leaders, leads_named}
use u_dara_chat.Group.Query.{last_leader}
use u_dara_chat.Group.Types.{GroupMember}

pub last_leader_none {ℓ} :
    {A : Type ℓ} (g : Text) (f : GroupMember → A) (acc : A) (ms : List GroupMember)
    → leaders g ms ≡ 0
    → last_leader g f acc ms ≡ acc
unfolding count_if
last_leader_none g f acc [] z = refl
last_leader_none g f acc (m ∷ ms) z = ground (arith, last_leader_none g f acc ms)

pub leads_named-le-leaders :
    (n g : Text) (ms : List GroupMember) → count_if (leads_named n g) ms ≤ leaders g ms
unfolding count_if
leads_named-le-leaders n g [] = omega arith
leads_named-le-leaders n g (m ∷ ms) = ground (arith, leads_named-le-leaders n g ms)

-- In a group with one leader, it is the one that the query finds.
pub last_leader_unique :
    (n g acc : Text) (ms : List GroupMember)
    → leaders g ms ≤ 1
    → 1 ≤ count_if (leads_named n g) ms
    → last_leader g (λ m. m.name) acc ms ≡ n
unfolding count_if
last_leader_unique n g acc [] l h = absurd (omega arith)
last_leader_unique n g acc (m ∷ ms) l h = ground (
  arith,
  last_leader_unique n g acc ms,
  last_leader_unique n g m.name ms,
  last_leader_none g (λ (k : GroupMember). k.name) m.name ms,
  leads_named-le-leaders n g ms,
  text_eq_iff m.name n,
)

pub occurrences-assign :
    (n g : Text) (b : Bool) (ms : List GroupMember)
    → occurrences n (assign_from g b ms) ≡ occurrences n ms
unfolding assign_from count_if
occurrences-assign n g b [] = refl
occurrences-assign n g b (m ∷ ms) =
    ground (arith, occurrences-assign n g true ms, occurrences-assign n g b ms)

pub size-assign :
    (k g : Text) (b : Bool) (ms : List GroupMember) → size k (assign_from g b ms) ≡ size k ms
unfolding assign_from count_if
size-assign k g b [] = refl
size-assign k g b (m ∷ ms) = ground (arith, size-assign k g true ms, size-assign k g b ms)

pub leaders-assign_other :
    (k g : Text) (b : Bool) (ms : List GroupMember)
    → k ≢ g
    → leaders k (assign_from g b ms) ≡ leaders k ms
unfolding assign_from count_if
leaders-assign_other k g b [] e = refl
leaders-assign_other k g b (m ∷ ms) e = ground (
  arith,
  leaders-assign_other k g true ms,
  leaders-assign_other k g b ms,
  text_eq_iff m.group_id k,
  text_eq_iff m.group_id g,
)

-- Exactly one leader comes out of a group that has members, whatever went in.
pub leaders-assign :
    (g : Text) (b : Bool) (ms : List GroupMember)
    → leaders g (assign_from g b ms) ≡ (if b then 0 else min 1 (size g ms))
unfolding assign_from count_if
leaders-assign g b [] = ground arith
leaders-assign g b (m ∷ ms) = ground (arith, leaders-assign g true ms, leaders-assign g b ms)
