-- ===== src/Server/Hearing.antt =====
-- What a socket hears, read from the calls of uWebSockets in order, and the topics that are kept for
-- one name, one zone or one group.
use u_dara_chat.Base.{
  ℕ, ◌≤◌, ◌+◌, ◌≡◌, refl, ◌≢◌, Bool, true, false, not, ◌||◌, ◌&&◌, List, [], ◌∷◌, ◌++◌, none, some,
  Text, codes, text_eq, text_eq_iff, starts_with, any_of, count_if, ◌==◌, if◌then◌else◌, arith,
  Bool-cases, inl, inr,
}
use u_dara_chat.Group.Container.{get_group_topic}
use u_dara_chat.Server.Slots.{held, in_use}
use u_dara_chat.Server.State.{
  Effect, subscribe, unsubscribe, send, close_socket, publish, TopicSlot, PerSocketData, World,
}
use u_dara_chat.Server.Topics.{to_lower, is_group_slot, free_first, store_topic}

-- Whether the socket is subscribed after one more call.
abbrev pub hears_next : ℕ → Text → Effect → Bool → Bool
hears_next ws t (subscribe k u) b = (k == ws && text_eq u t) || b
hears_next ws t (unsubscribe k u) b = not (k == ws && text_eq u t) && b
hears_next ws t (send _ _) b = b
hears_next ws t (close_socket _ _ _) b = b
hears_next ws t (publish _ _ _) b = b

unfoldable pub hears_after : ℕ → Text → Bool → List Effect → Bool
hears_after ws t b [] = b
hears_after ws t b (e ∷ es) = hears_after ws t (hears_next ws t e b) es

-- The socket is subscribed to the topic. As uWebSockets documents it, what is published to a topic
-- goes to the sockets that have called `subscribe` for it and not `unsubscribe` since.
abbrev pub hears : ℕ → Text → List Effect → Bool
hears ws t es = hears_after ws t false es

hears_after-append :
    (ws : ℕ) (t : Text) (b : Bool) (es : List Effect) (e : Effect)
    → hears_after ws t b (es ++ e ∷ []) ≡ hears_next ws t e (hears_after ws t b es)
unfolding hears_after
hears_after-append ws t b [] e = refl
hears_after-append ws t b (d ∷ es) e = hears_after-append ws t (hears_next ws t d b) es e

pub hears-append :
    (ws : ℕ) (t : Text) (es : List Effect) (e : Effect)
    → hears ws t (es ++ e ∷ []) ≡ hears_next ws t e (hears ws t es)
hears-append ws t es e = hears_after-append ws t false es e

-- The topics that no client may ask for.
unfoldable pub is_reserved : Text → Bool
is_reserved t =
    starts_with (codes "tell_") t
    || (starts_with (codes "group_") t || starts_with (codes "zone_") t)

-- The reserved topics that belong to a socket's name, zone and group.
abbrev pub is_own : PerSocketData → Text → Bool
is_own d t =
    (starts_with (codes "tell_") t && text_eq t (codes "tell_" ++ to_lower d.name))
    || ((starts_with (codes "group_") t && text_eq t (get_group_topic d.group_id))
        || (starts_with (codes "zone_") t && text_eq t (codes "zone_" ++ d.zone)))

-- A slot in use for a reserved topic of somebody else.
abbrev pub is_foreign : PerSocketData → TopicSlot → Bool
is_foreign d s = s.used && (is_reserved s.topic && not (is_own d s.topic))

-- What a socket hears of the reserved topics has a slot; every such slot is its own; there is one
-- group topic at most; and a socket that has not logged in uses no slot.
pub record IsPrivate (ws : ℕ) (d : PerSocketData) (es : List Effect) : Type 0 where
  pub heard : (t : Text) → is_reserved t ≡ true → hears ws t es ≡ true → 1 ≤ held t d.topics
  pub kept : any_of (is_foreign d) d.topics ≡ false
  pub one_group : count_if is_group_slot d.topics ≤ 1
  pub offline : d.connected ≡ false → in_use d.topics ≡ 0

-- Every socket is private.
pub record IsGuarded (w : World) : Type 0 where
  pub each : (k : ℕ) → IsPrivate k (w.user_data k) w.effects

pub store_topic-kept :
    (p : TopicSlot → Bool) (t : Text) (ss : List TopicSlot)
    → p (record { topic = t; used = true }) ≡ false
    → any_of p ss ≡ false
    → any_of p (store_topic t ss).0 ≡ false
unfolding store_topic any_of
store_topic-kept p t [] own h = refl
store_topic-kept p t (s ∷ ss) own h = ground (arith, own, h, store_topic-kept p t ss own)

pub store_topic-count :
    (t : Text) (ss : List TopicSlot)
    → count_if is_group_slot (store_topic t ss).0
      ≤ (if starts_with (codes "group_") t then 1 else 0) + count_if is_group_slot ss
unfolding store_topic count_if
store_topic-count t [] = omega arith
store_topic-count t (s ∷ ss) = ground (arith, store_topic-count t ss)

pub free_first-kept :
    (p q : TopicSlot → Bool) (ss : List TopicSlot)
    → q (record { topic = codes "none"; used = false }) ≡ false
    → any_of q ss ≡ false
    → any_of q (free_first p ss).0 ≡ false
unfolding free_first any_of
free_first-kept p q [] free h = refl
free_first-kept p q (s ∷ ss) free h = ground (arith, free, h, free_first-kept p q ss free)

pub free_first-count :
    (p q : TopicSlot → Bool) (ss : List TopicSlot)
    → q (record { topic = codes "none"; used = false }) ≡ false
    → count_if q (free_first p ss).0 ≤ count_if q ss
unfolding free_first count_if
free_first-count p q [] free = omega arith
free_first-count p q (s ∷ ss) free = ground (arith, free, free_first-count p q ss free)

-- With one group slot at most, freeing one leaves none.
pub free_group-count :
    (ss : List TopicSlot)
    → count_if is_group_slot ss ≤ 1
    → count_if is_group_slot (free_first is_group_slot ss).0 ≡ 0
unfolding free_first count_if
free_group-count [] h = refl
free_group-count (s ∷ ss) h = ground (arith, h, free_group-count ss)

pub free_first-none :
    (p : TopicSlot → Bool) (ss : List TopicSlot)
    → (free_first p ss).1 ≡ none
    → (free_first p ss).0 ≡ ss
unfolding free_first
free_first-none p [] e = refl
free_first-none p (s ∷ ss) e = ground (arith, e, free_first-none p ss)

pub free_first-held :
    (p : TopicSlot → Bool) (t u : Text) (ss : List TopicSlot)
    → (free_first p ss).1 ≡ some t
    → t ≢ u
    → held u (free_first p ss).0 ≡ held u ss
unfolding free_first count_if
free_first-held p t u [] e ne = refl
free_first-held p t u (s ∷ ss) e ne =
    ground (arith, e, text_eq_iff s.topic u, free_first-held p t u ss)

-- A topic has one of the reserved prefixes at most.
pub group_prefix :
    (t : Text)
    → starts_with (codes "group_") t ≡ true
    → (starts_with (codes "tell_") t ≡ false) × (starts_with (codes "zone_") t ≡ false) × (t ≢ [])
unfolding starts_with
group_prefix [] h = ground arith
group_prefix (c ∷ t) h = (ground arith, ground arith, ground arith)

-- A group's topic is own only as the one of the group id.
own-group :
    (d : PerSocketData) (s : TopicSlot)
    → d.group_id ≡ []
    → is_foreign d s ≡ false
    → is_group_slot s ≡ false
unfolding is_reserved get_group_topic
own-group d s e h = elim (Bool-cases (is_group_slot s)) [
  | inr f ↦ f
  | inl f ↦
      let used : s.used ≡ true = ground arith in
      let g : starts_with (codes "group_") s.topic ≡ true = ground arith in
      let (no_tell, no_zone, some_topic) = group_prefix s.topic g in
      let own : not (text_eq s.topic [] || false) ≡ false =
        rw (used, g, no_tell, no_zone, e) at h in
      ground (arith, own, text_eq_iff s.topic [], some_topic)
]

other-group :
    (d : PerSocketData) (g : Text) (s : TopicSlot)
    → is_group_slot s ≡ false
    → is_foreign d s ≡ false
    → is_foreign (record d { group_id = g }) s ≡ false
unfolding is_reserved
other-group d g s f h = ground (arith, f, h)

-- A socket with no group has no group topic.
pub no_group :
    (d : PerSocketData) (ss : List TopicSlot)
    → d.group_id ≡ []
    → any_of (is_foreign d) ss ≡ false
    → count_if is_group_slot ss ≡ 0
unfolding any_of count_if
no_group d [] e h = refl
no_group d (s ∷ ss) e h = ground (arith, h, own-group d s e, no_group d ss e)

-- With no group topic, the group id may change.
pub regroup-kept :
    (d : PerSocketData) (g : Text) (ss : List TopicSlot)
    → count_if is_group_slot ss ≡ 0
    → any_of (is_foreign d) ss ≡ false
    → any_of (is_foreign (record d { group_id = g })) ss ≡ false
unfolding any_of count_if
regroup-kept d g [] z h = refl
regroup-kept d g (s ∷ ss) z h = ground (arith, z, h, other-group d g s, regroup-kept d g ss)

-- Slots that are not in use belong to nobody.
pub unused-kept :
    (d : PerSocketData) (ss : List TopicSlot)
    → in_use ss ≡ 0
    → (any_of (is_foreign d) ss ≡ false) × (count_if is_group_slot ss ≡ 0)
unfolding any_of count_if
unused-kept d [] z = (refl, refl)
unused-kept d (s ∷ ss) z = ground (arith, z, unused-kept d ss)
