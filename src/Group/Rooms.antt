-- ===== src/Group/Rooms.antt =====
-- What the container promises, without members and lists: which group each name is in, how many are
-- in each group, and what each operation may change of these.
use u_dara_chat.Base.{ℕ, ◌+◌, ◌≡◌, ◌≢◌, ◌⊎◌, ◌≤◌, ◌<◌, Bool, true, false, List, [], ◌∷◌, Text}
use u_dara_chat.Group.Count.{size}
use u_dara_chat.Group.Crowds.{one_of}
use u_dara_chat.Group.Info.{get_group_info}
use u_dara_chat.Group.Names.{group_of}
use u_dara_chat.Group.NewId.{get_new_group_id}
use u_dara_chat.Group.Reach.{
  Step, start, join, kick, disband, alive, online, scheduled, invite, uninvite, expire, Reach, here,
  next,
}
use u_dara_chat.Group.Types.{GroupContainer}

-- The group of each name, where the empty text is no group, and the number of members of each group.
pub record Rooms : Type 0 where
  pub group : Text → Text
  pub crowd : Text → ℕ

abbrev pub rooms : GroupContainer → Rooms
rooms c = record { group = group_of c; crowd = λ k. size k c.my_groups }

-- What is asked of the container: that a name founds a group with an id; that the first name joins
-- the group of the second; that the second kicks the first, with whether it leads its group; that a
-- name leaves; anything else.
pub data Operation : Type 0 where
  founds : (name id : Text) → Operation
  joins : (member leader : Text) → Operation
  kicks : (member leader : Text) (by_leader : Bool) → Operation
  leaves : (name : Text) → Operation
  asks : Operation

abbrev pub Same : Rooms → Rooms → Type 0
Same f g = ((m : Text) → g.group m ≡ f.group m) × ((k : Text) → g.crowd k ≡ f.crowd k)

-- A name that was in no group is in the group `id`, which has one member more; no other name is
-- moved and no other count changes.
abbrev pub Enters : Text → Text → Rooms → Rooms → Type 0
Enters n id f g =
    (f.group n ≡ [])
    × (g.group n ≡ id)
    × ((m : Text) → m ≢ n → g.group m ≡ f.group m)
    × ((k : Text) → g.crowd k ≡ f.crowd k + one_of id k)

-- A name is in no group any more, and the group that it was in has one member less; no other name
-- is moved and no other count changes.
abbrev pub Exits : Text → Rooms → Rooms → Type 0
Exits n f g =
    (f.group n ≢ [])
    × (g.group n ≡ [])
    × ((m : Text) → m ≢ n → g.group m ≡ f.group m)
    × ((k : Text) → g.crowd k + one_of (f.group n) k ≡ f.crowd k)

-- No name is given, it is in no group, its group is full, or the member is in a group.
abbrev pub JoinBarred : Text → Text → Rooms → Type 0
JoinBarred m n f = (n ≡ []) ⊎ (f.group n ≡ []) ⊎ (6 ≤ f.crowd (f.group n)) ⊎ (f.group m ≢ [])

-- The one who is kicked kicks, does not kick as a leader, or kicks a name of another group.
abbrev pub KickBarred : Text → Text → Bool → Rooms → Type 0
KickBarred m n by_leader f = (m ≡ n) ⊎ (by_leader ≡ false) ⊎ (f.group m ≢ f.group n)

-- What an operation makes of the rooms: nothing exactly where it is barred.
abbrev pub Permits : Operation → Rooms → Rooms → Type 0
Permits (founds n id) f g =
    ((f.group n ≢ []) × Same f g)
    ⊎ ((id ≢ []) × ((m : Text) → f.group m ≢ id) × (f.crowd id ≡ 0) × Enters n id f g)
Permits (joins m n) f g =
    (JoinBarred m n f × Same f g)
    ⊎ ((n ≢ []) × (f.group n ≢ []) × (f.crowd (f.group n) < 6) × Enters m (f.group n) f g)
Permits (kicks m n by_leader) f g =
    (KickBarred m n by_leader f × Same f g)
    ⊎ ((m ≢ n) × (by_leader ≡ true) × (f.group m ≡ f.group n) × Exits m f g)
Permits (leaves n) f g = ((f.group n ≡ []) × Same f g) ⊎ Exits n f g
Permits asks f g = Same f g

-- The rooms that the operations, the last one first, may lead to from nobody in a group.
pub data History : List Operation → Rooms → Type 0 where
  nobody : {f : Rooms} → ((m : Text) → f.group m ≡ []) → ((k : Text) → f.crowd k ≡ 0) → History [] f
  then_do :
      {ops : List Operation} {f g : Rooms} (op : Operation)
      → History ops f
      → Permits op f g
      → History (op ∷ ops) g

-- What a step of the container is asked for.
unfoldable pub operation : {c d : GroupContainer} → Step c d → Operation
operation (start now dis dis2 c n fresh) = founds n (get_new_group_id dis dis2)
operation (join now c m n) = joins m n
operation (kick c m n) = kicks m n (get_group_info c n).is_leader
operation (disband c n) = leaves n
operation (alive now c m) = asks
operation (online now c n b) = asks
operation (scheduled c) = asks
operation (invite now c l m) = asks
operation (uninvite c l m) = asks
operation (expire now c) = asks

unfoldable pub operations : {c : GroupContainer} → Reach c → List Operation
operations here = []
operations (next r s) = operation s ∷ operations r
