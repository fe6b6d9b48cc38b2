-- ===== src/Server/Subscribing.antt =====
-- Subscribing and unsubscribing keep the reserved topics with their owners.
use u_dara_chat.Base.{
  ℕ, ◌≤◌, ◌+◌, ◌≡◌, refl, ◌∙◌, Bool, true, false, not, List, ◌++◌, Text, codes, text_eq_refl,
  starts_with, starts_with-append, drop, count_if, is_empty, ==_iff, if◌then◌else◌, arith,
  Bool-cases, Option-cases, inl, inr,
}
use u_dara_chat.Group.Container.{get_group_topic}
use u_dara_chat.Server.Hearing.{
  is_reserved, is_foreign, IsGuarded, store_topic-count, free_group-count, free_first-none,
}
use u_dara_chat.Server.Slots.{Stored-cases, check_valid_topic_name_iff}
use u_dara_chat.Server.State.{subscribe, unsubscribe, TopicSlot, PerSocketData, World}
use u_dara_chat.Server.Topics.{
  to_lower, is_group_slot, holds, free_first, unsubscribe_found, remove_group_subscription,
  remove_topic_subscription, store_topic, store_and_subscribe, check_valid_topic_name,
  handle_subscribe_message, subscribe_group_topic, subscribe_standard_topics,
}
use u_dara_chat.Server.Guarded.{
  IsGuarded-if, set_data-IsGuarded, other_socket, call-IsGuarded, stored-IsPrivate, freed-IsPrivate,
  retopic-IsPrivate,
}

-- The topic of a group id begins with the prefix, and it is the one that is subscribed to.
pub group_topic :
    (id : Text)
    → is_empty id ≡ false
    → (starts_with (codes "group_") (get_group_topic id) ≡ true)
      × ((if starts_with (codes "group_") id then id else get_group_topic id) ≡ get_group_topic id)
unfolding get_group_topic
group_topic id h = elim (Bool-cases (starts_with (codes "group_") id)) [
  | inl e ↦ rw (h, e) (e, refl)
  | inr e ↦ rw (h, e) (starts_with-append (codes "group_") id, refl)
]

group_topic-own :
    (d : PerSocketData)
    → starts_with (codes "group_") (get_group_topic d.group_id) ≡ true
    → is_foreign d (record { topic = get_group_topic d.group_id; used = true }) ≡ false
unfolding is_reserved
group_topic-own d h = rw (h, text_eq_refl (get_group_topic d.group_id)) ground arith

module _ (w : World) (ws : ℕ) where
  -- Storing a topic of the socket's own.
  store-IsGuarded :
      (t : Text)
      → (w.user_data ws).connected ≡ true
      → is_foreign (w.user_data ws) (record { topic = t; used = true }) ≡ false
      → (if starts_with (codes "group_") t then 1 else 0)
          + count_if is_group_slot (w.user_data ws).topics
        ≤ 1
      → IsGuarded w
      → IsGuarded (store_and_subscribe w ws t)
  unfolding store_and_subscribe
  store-IsGuarded t on own one g = elim (Stored-cases t (w.user_data ws).topics) [
    | inl (a, b) ↦ rw a (
        call-IsGuarded w ws _ (subscribe ws t) (λ k ne u. (other_socket k ws u t w.effects ne).0)
          (stored-IsPrivate ws (w.user_data ws) w.effects t on own one a (g.each ws)) g)
    | inr (a, b, c, e) ↦ rw a (
        set_data-IsGuarded w ws _ (retopic-IsPrivate ws (w.user_data ws) w.effects _ b (g.each ws))
          g)
  ]

  freed-IsGuarded :
      (q : TopicSlot → Bool)
      → (w.user_data ws).connected ≡ true
      → IsGuarded w
      → IsGuarded (unsubscribe_found w ws (free_first q (w.user_data ws).topics))
  freed-IsGuarded q on g = elim (Option-cases (free_first q (w.user_data ws).topics).1) [
    | inl e ↦ rw (e, unsubscribe_found) g
    | inr (t, e) ↦
        rw (e, unsubscribe_found)
          (call-IsGuarded w ws _ (unsubscribe ws t)
            (λ k ne u. (other_socket k ws u t w.effects ne).1)
            (freed-IsPrivate ws (w.user_data ws) w.effects q t on e (g.each ws)) g)
  ]

  pub remove_group_subscription-IsGuarded :
      (w.user_data ws).connected ≡ true → IsGuarded w → IsGuarded (remove_group_subscription w ws)
  unfolding remove_group_subscription
  remove_group_subscription-IsGuarded on g = freed-IsGuarded is_group_slot on g

  pub remove_topic_subscription-IsGuarded :
      (t : Text)
      → (w.user_data ws).connected ≡ true
      → IsGuarded w
      → IsGuarded (remove_topic_subscription w ws t)
  unfolding remove_topic_subscription
  remove_topic_subscription-IsGuarded t on g = freed-IsGuarded (holds t) on g

  -- Afterwards the socket has no group topic.
  pub remove_group_subscription-count :
      IsGuarded w
      → count_if is_group_slot ((remove_group_subscription w ws).user_data ws).topics ≡ 0
  unfolding remove_group_subscription
  remove_group_subscription-count g =
      let ss : List TopicSlot = (w.user_data ws).topics in
      let freed = free_group-count ss (g.each ws).one_group in
      elim (Option-cases (free_first is_group_slot ss).1) [
        | inl e ↦ rw (e, unsubscribe_found) (rw (free_first-none is_group_slot ss e) at freed)
        | inr (t, e) ↦ rw (e, unsubscribe_found, (==_iff ws ws).1 refl) freed
      ]

  pub handle_subscribe_message-IsGuarded :
      (m : Text)
      → (w.user_data ws).connected ≡ true
      → IsGuarded w
      → IsGuarded (handle_subscribe_message w ws m)
  unfolding handle_subscribe_message is_reserved
  handle_subscribe_message-IsGuarded m on g =
      elim (Bool-cases (check_valid_topic_name (drop 10 m))) [
        | inr bad ↦ rw bad (IsGuarded-if (not (starts_with (codes "subscribe:") m)) w w g g)
        | inl ok ↦
            let (some_name, word, world, no_tell, no_group_topic, no_zone) =
              (check_valid_topic_name_iff (drop 10 m)).0 ok in
            rw ok (
              IsGuarded-if (not (starts_with (codes "subscribe:") m)) w
                (store_and_subscribe w ws (drop 10 m)) g
                (store-IsGuarded (drop 10 m) on (rw (no_tell, no_group_topic, no_zone) refl)
                  (ground (arith, no_group_topic, (g.each ws).one_group)) g))
      ]

  pub subscribe_group_topic-IsGuarded :
      (w.user_data ws).connected ≡ true
      → count_if is_group_slot (w.user_data ws).topics ≡ 0
      → IsGuarded w
      → IsGuarded (subscribe_group_topic w ws)
  unfolding subscribe_group_topic
  subscribe_group_topic-IsGuarded on z g = elim (Bool-cases (is_empty (w.user_data ws).group_id)) [
    | inl none_of ↦ rw none_of g
    | inr some_of ↦
        let id : Text = (w.user_data ws).group_id in
        let (topic, chosen) = group_topic id some_of in
        rw (some_of, chosen)
          (store-IsGuarded (get_group_topic id) on (group_topic-own (w.user_data ws) topic)
            (ground (arith, topic, z)) g)
  ]

  -- A stored topic that is no group's.
  store-ungrouped :
      (t : Text)
      → starts_with (codes "group_") t ≡ false
      → count_if is_group_slot (w.user_data ws).topics ≡ 0
      → (((store_and_subscribe w ws t).user_data ws).connected ≡ (w.user_data ws).connected)
        × (count_if is_group_slot ((store_and_subscribe w ws t).user_data ws).topics ≡ 0)
  unfolding store_and_subscribe
  store-ungrouped t plain z =
      let kept = store_topic-count t (w.user_data ws).topics in
      elim (Bool-cases (store_topic t (w.user_data ws).topics).1) [
        | inl e ↦ rw (e, (==_iff ws ws).1 refl) (refl, ground (arith, plain, kept, z))
        | inr e ↦ rw (e, (==_iff ws ws).1 refl) (refl, ground (arith, plain, kept, z))
      ]

pub subscribe_standard_topics-IsGuarded :
    (w : World) (ws : ℕ)
    → (w.user_data ws).connected ≡ true
    → count_if is_group_slot (w.user_data ws).topics ≡ 0
    → IsGuarded w
    → IsGuarded (subscribe_standard_topics w ws)
unfolding subscribe_standard_topics is_reserved starts_with
subscribe_standard_topics-IsGuarded w ws on z g =
    let w1 : World = store_and_subscribe w ws (codes "World") in
    let g1 : IsGuarded w1 =
      store-IsGuarded w ws (codes "World") on ground arith (ground (arith, z)) g in
    let (on1, z1) = store-ungrouped w ws (codes "World") refl z in
    let zone : Text = codes "zone_" ++ (w1.user_data ws).zone in
    let w2 : World = store_and_subscribe w1 ws zone in
    let g2 : IsGuarded w2 =
      store-IsGuarded w1 ws zone (on1 ∙ on) (ground (arith, text_eq_refl zone)) (ground (arith, z1))
        g1 in
    let (on2, z2) = store-ungrouped w1 ws zone refl z1 in
    let tell : Text = codes "tell_" ++ to_lower (w2.user_data ws).name in
    let w3 : World = store_and_subscribe w2 ws tell in
    let g3 : IsGuarded w3 =
      store-IsGuarded w2 ws tell (on2 ∙ on1 ∙ on) (ground (arith, text_eq_refl tell))
        (ground (arith, z2)) g2 in
    let (on3, z3) = store-ungrouped w2 ws tell refl z2 in
    subscribe_group_topic-IsGuarded w3 ws (on3 ∙ on2 ∙ on1 ∙ on) z3 g3
