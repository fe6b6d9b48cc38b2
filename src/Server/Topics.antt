-- ===== src/Server/Topics.antt =====
-- The managed topic slots of a connection, and the subscriptions made through them.
use u_dara_chat.Base.{
  ℕ, Bool, true, false, not, ◌||◌, ◌&&◌, List, [], ◌∷◌, ◌++◌, map, Option, none, some, Text, codes,
  text_eq, is_empty, starts_with, any_of, leb, ◌==◌, drop, if◌then◌else◌,
}
use u_dara_chat.Group.Container.{get_group_topic}
use u_dara_chat.Group.Invites.{lower}
use u_dara_chat.Server.State.{TopicSlot, World, subscribe, unsubscribe, set_data, emit}

-- `ToLower`.
unfoldable pub to_lower : Text → Text
to_lower = map lower

abbrev free_slot : TopicSlot
free_slot = record { topic = codes "none"; used = false }

abbrev pub is_group_slot : TopicSlot → Bool
is_group_slot s = s.used && starts_with (codes "group_") s.topic

abbrev pub holds : Text → TopicSlot → Bool
holds topic s = s.used && text_eq s.topic topic

-- The loops that free the first slot that passes a test, and give back its topic.
unfoldable pub free_first : (TopicSlot → Bool) → List TopicSlot → List TopicSlot × Option Text
free_first p [] = ([], none)
free_first p (s ∷ ss) =
    let (rest, found) = free_first p ss in
    if p s then (free_slot ∷ ss, some s.topic) else (s ∷ rest, found)

abbrev pub unsubscribe_found : World → ℕ → List TopicSlot × Option Text → World
unsubscribe_found w ws (topics, none) = w
unsubscribe_found w ws (topics, some t) =
    emit (set_data w ws (record (w.user_data ws) { topics = topics })) (unsubscribe ws t)

unfoldable pub remove_group_subscription : World → ℕ → World
remove_group_subscription w ws =
    unsubscribe_found w ws (free_first is_group_slot (w.user_data ws).topics)

unfoldable pub remove_topic_subscription : World → ℕ → Text → World
remove_topic_subscription w ws old_topic =
    unsubscribe_found w ws (free_first (holds old_topic) (w.user_data ws).topics)

-- The loop of `StoreTopicSubscription`: the slots, and whether the topic has one.
unfoldable pub store_topic : Text → List TopicSlot → List TopicSlot × Bool
store_topic topic [] = ([], false)
store_topic topic (s ∷ ss) =
    let (rest, stored) = store_topic topic ss in
    if not s.used
    then (record { topic = topic; used = true } ∷ ss, true)
    else if text_eq s.topic topic
    then (s ∷ ss, true)
    else (s ∷ rest, stored)

-- `if (StoreTopicSubscription(data, topic)) ws->subscribe(topic);`
unfoldable pub store_and_subscribe : World → ℕ → Text → World
store_and_subscribe w ws topic =
    let (topics, stored) = store_topic topic (w.user_data ws).topics in
    let w' = set_data w ws (record (w.user_data ws) { topics = topics }) in
    if stored then emit w' (subscribe ws topic) else w'

abbrev pub is_word_char : ℕ → Bool
is_word_char c =
    (leb b'a' c && leb c b'z')
    || ((leb b'A' c && leb c b'Z') || ((leb b'0' c && leb c b'9') || c == b'_'))

unfoldable pub check_valid_topic_name : Text → Bool
check_valid_topic_name topic =
    if starts_with (codes "tell_") topic || text_eq topic (codes "World")
    then false
    else if starts_with (codes "group_") topic || starts_with (codes "zone_") topic
    then false
    else if is_empty topic || any_of (λ c. not (is_word_char c)) topic
    then false
    else true

unfoldable pub handle_subscribe_message : World → ℕ → Text → World
handle_subscribe_message w ws msg =
    let new_topic = drop 10 msg in
    if not (starts_with (codes "subscribe:") msg)
    then w
    else if not (check_valid_topic_name new_topic)
    then w
    else store_and_subscribe w ws new_topic

unfoldable pub subscribe_group_topic : World → ℕ → World
subscribe_group_topic w ws =
    let group_id = (w.user_data ws).group_id in
    if is_empty group_id
    then w
    else store_and_subscribe w ws
        (if starts_with (codes "group_") group_id then group_id else get_group_topic group_id)

unfoldable pub subscribe_standard_topics : World → ℕ → World
subscribe_standard_topics w ws =
    let w1 = store_and_subscribe w ws (codes "World") in
    let w2 = store_and_subscribe w1 ws (codes "zone_" ++ (w1.user_data ws).zone) in
    let w3 = store_and_subscribe w2 ws (codes "tell_" ++ to_lower (w2.user_data ws).name) in
    subscribe_group_topic w3 ws
