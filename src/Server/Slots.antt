-- ===== src/Server/Slots.antt =====
-- The topic slots: how many there are, which topics they hold, and a topic held twice.
use u_dara_chat.Base.{
  ℕ, suc, ◌≤◌, ◌≡◌, refl, ◌≢◌, ◌⊎◌, ◌↔◌, inl, inr, Bool, true, false, not, List, [], ◌∷◌, ◌++◌,
  some, none, Text, codes, text_eq, text_eq_iff, text_eq_refl, text_ne, is_empty_iff, not_empty,
  count_if, length, starts_with, any_of, arith, Bool-cases,
}
use u_dara_chat.Server.State.{TopicSlot}
use u_dara_chat.Server.Topics.{holds, free_first, store_topic, check_valid_topic_name, is_word_char}

-- How many slots hold a topic, and how many are in use.
abbrev pub held : Text → List TopicSlot → ℕ
held topic = count_if (holds topic)

abbrev pub in_use : List TopicSlot → ℕ
in_use = count_if (λ (s : TopicSlot). s.used)

pub length-store_topic : (t : Text) (ss : List TopicSlot) → length (store_topic t ss).0 ≡ length ss
unfolding store_topic
length-store_topic t [] = refl
length-store_topic t (s ∷ ss) = ground (arith, length-store_topic t ss)

pub length-free_first :
    (p : TopicSlot → Bool) (ss : List TopicSlot) → length (free_first p ss).0 ≡ length ss
unfolding free_first
length-free_first p [] = refl
length-free_first p (s ∷ ss) = ground (arith, length-free_first p ss)

pub held-store_other :
    (t u : Text) (ss : List TopicSlot) → u ≢ t → held u (store_topic t ss).0 ≡ held u ss
unfolding store_topic count_if
held-store_other t u [] ne = refl
held-store_other t u (s ∷ ss) ne = ground (arith, held-store_other t u ss ne, text_eq_iff t u)

abbrev pub Stored : Text → List TopicSlot → Type 0
Stored t ss =
    (((store_topic t ss).1 ≡ true) × (1 ≤ held t (store_topic t ss).0))
    ⊎ (((store_topic t ss).1 ≡ false)
        × ((store_topic t ss).0 ≡ ss)
        × (in_use ss ≡ length ss)
        × (held t ss ≡ 0))

pub Stored-cases : (t : Text) (ss : List TopicSlot) → Stored t ss
unfolding store_topic count_if
Stored-cases t [] = inr (refl, refl, refl, refl)
Stored-cases t (s ∷ ss) = elim (Bool-cases s.used) [
  | inr h ↦ inl (rw h (refl, ground (arith, text_eq_refl t)))
  | inl h ↦ elim (Bool-cases (text_eq s.topic t)) [
    | inl e ↦ inl (ground arith, ground arith)
    | inr e ↦ elim (Stored-cases t ss) [
      | inl (a, b) ↦ inl (ground arith, ground arith)
      | inr (a, b, c, d) ↦ inr (ground arith, ground arith, ground arith, ground arith)
    ]
  ]
]

freed-cases :
    (t : Text) (ss : List TopicSlot)
    → (((free_first (holds t) ss).1 ≡ some t)
        × (suc (held t (free_first (holds t) ss).0) ≡ held t ss))
      ⊎ (((free_first (holds t) ss).1 ≡ none)
          × ((free_first (holds t) ss).0 ≡ ss)
          × (held t ss ≡ 0))
unfolding free_first count_if
freed-cases t [] = inr (refl, refl, refl)
freed-cases t (s ∷ ss) = elim (Bool-cases (holds t s)) [
  | inl h ↦
      inl (ground (arith, text_eq_iff s.topic t), ground (arith, text_eq_iff (codes "none") t))
  | inr h ↦ elim (freed-cases t ss) [
    | inl (a, b) ↦ inl (ground arith, ground arith)
    | inr (a, b, c) ↦ inr (ground arith, ground arith, ground arith)
  ]
]

-- Storing a topic: with an answer of true it has a slot, with an answer of false nothing changed,
-- every slot is in use and none holds it. Other topics keep their slots, and no slot is made or
-- lost.
pub store_topic_outcome :
    (t : Text) (ss : List TopicSlot)
    → (length (store_topic t ss).0 ≡ length ss)
      × ((u : Text) → u ≢ t → held u (store_topic t ss).0 ≡ held u ss)
      × ((((store_topic t ss).1 ≡ true) × (1 ≤ held t (store_topic t ss).0))
          ⊎ (((store_topic t ss).1 ≡ false)
              × ((store_topic t ss).0 ≡ ss)
              × (in_use ss ≡ length ss)
              × (held t ss ≡ 0)))
store_topic_outcome t ss =
    (length-store_topic t ss, (λ u ne. held-store_other t u ss ne), Stored-cases t ss)

-- Freeing a topic's slot takes away one of the slots that hold it, and gives back the topic;
-- without such a slot it changes nothing.
pub free_first_outcome :
    (t : Text) (ss : List TopicSlot)
    → (length (free_first (holds t) ss).0 ≡ length ss)
      × ((((free_first (holds t) ss).1 ≡ some t)
            × (suc (held t (free_first (holds t) ss).0) ≡ held t ss))
          ⊎ (((free_first (holds t) ss).1 ≡ none)
              × ((free_first (holds t) ss).0 ≡ ss)
              × (held t ss ≡ 0)))
free_first_outcome t ss = (length-free_first (holds t) ss, freed-cases t ss)

held-behind :
    (t : Text) (front : List TopicSlot) (s : TopicSlot) (ss : List TopicSlot)
    → held t ss ≤ held t (front ++ s ∷ ss)
unfolding count_if
held-behind t [] s ss = ground arith
held-behind t (f ∷ front) s ss = ground (arith, held-behind t front s ss)

held-store_again :
    (t : Text) (front : List TopicSlot) (s : TopicSlot) (ss : List TopicSlot)
    → held t front ≡ 0
    → s.used ≡ false
    → held t (store_topic t (front ++ s ∷ ss)).0 ≡ suc (held t (front ++ s ∷ ss))
unfolding store_topic count_if
held-store_again t [] s ss none_before h = rw h (ground (arith, text_eq_refl t))
held-store_again t (f ∷ front) s ss none_before h = elim (Bool-cases f.used) [
  | inr free ↦ rw free (ground (arith, text_eq_refl t))
  | inl used ↦
      let other : text_eq f.topic t ≡ false = ground arith in
      let before : held t front ≡ 0 = ground arith in
      rw (used, other) (ground (arith, held-store_again t front s ss before h))
]

-- Where a slot is free in front of the first one that holds a topic, wherever these two stand,
-- storing the topic again makes a second slot for it, so that one removal, which unsubscribes the
-- socket, leaves a slot that still holds the topic.
pub store_topic_twice :
    (t : Text) (front : List TopicSlot) (s : TopicSlot) (ss : List TopicSlot)
    → held t front ≡ 0
    → s.used ≡ false
    → 1 ≤ held t ss
    → (held t (store_topic t (front ++ s ∷ ss)).0 ≡ suc (held t (front ++ s ∷ ss)))
      × ((free_first (holds t) (store_topic t (front ++ s ∷ ss)).0).1 ≡ some t)
      × (1 ≤ held t (free_first (holds t) (store_topic t (front ++ s ∷ ss)).0).0)
store_topic_twice t front s ss none_before h k =
    let again : held t (store_topic t (front ++ s ∷ ss)).0 ≡ suc (held t (front ++ s ∷ ss)) =
      held-store_again t front s ss none_before h in
    let behind : held t ss ≤ held t (front ++ s ∷ ss) = held-behind t front s ss in
    elim (freed-cases t (store_topic t (front ++ s ∷ ss)).0) [
      | inl (given, left) ↦ (again, given, omega (arith, again, behind))
      | inr (_, _, nothing) ↦ absurd (omega (arith, again, nothing))
    ]

-- The names that a client may subscribe to: at least one character, only letters, digits and
-- underscores, not `World`, and none of the three reserved prefixes.
pub check_valid_topic_name_iff :
    (t : Text)
    → (check_valid_topic_name t ≡ true) ↔ (
        (t ≢ [])
        × (any_of (λ c. not (is_word_char c)) t ≡ false)
        × (t ≢ codes "World")
        × (starts_with (codes "tell_") t ≡ false)
        × (starts_with (codes "group_") t ≡ false)
        × (starts_with (codes "zone_") t ≡ false))
unfolding check_valid_topic_name
check_valid_topic_name_iff t = (
  (λ h. (
    ground (arith, is_empty_iff t),
    ground arith,
    ground (arith, text_eq_iff t (codes "World")),
    ground arith,
    ground arith,
    ground arith,
  )),
  λ h. ground (arith, h, not_empty t, text_ne t (codes "World")),
)
