-- ===== src/Server/Keeps.antt =====
-- What a handler of one socket leaves alone: the group ids of the other sockets and the groups of the
-- other names; and that the socket's own group id stays in step with the container.
use u_dara_chat.Base.{
  ℕ, ◌≡◌, refl, sym, ap, ◌∙◌, ◌≢◌, Bool, true, false, List, Option, none, some, Text, ◌==◌, ==_iff,
  arith, if◌then◌else◌, Bool-cases, inl, inr,
}
use u_dara_chat.Group.Names.{group_of}
use u_dara_chat.Group.Presence.{Marks, Marks-refl, Marks-trans}
use u_dara_chat.Group.Types.{GroupContainer}
use u_dara_chat.Server.Groups.{send_group_update_info}
use u_dara_chat.Server.State.{
  Effect, subscribe, TopicSlot, PerSocketData, World, set_data, set_groups, emit,
}
use u_dara_chat.Server.Topics.{
  store_topic, unsubscribe_found, remove_group_subscription, remove_topic_subscription,
  store_and_subscribe, handle_subscribe_message, subscribe_group_topic, subscribe_standard_topics,
}

-- No group id and no membership list is touched.
pub record Quiet (w v : World) : Type 0 where
  pub ids : (k : ℕ) → (v.user_data k).group_id ≡ (w.user_data k).group_id
  pub groups : v.group_container ≡ w.group_container

pub Quiet-refl : {w : World} → Quiet w w
Quiet-refl = record { ids = λ k. refl; groups = refl }

pub Quiet-trans : {u v w : World} → Quiet u v → Quiet v w → Quiet u w
Quiet-trans p q = record { ids = λ k. q.ids k ∙ p.ids k; groups = q.groups ∙ p.groups }

pub Quiet-if : {w u v : World} (b : Bool) → Quiet w u → Quiet w v → Quiet w (if b then u else v)
Quiet-if true p q = p
Quiet-if false p q = q

pub emit-Quiet : {w v : World} (e : Effect) → Quiet w v → Quiet w (emit v e)
emit-Quiet e q = record { ids = q.ids; groups = q.groups }

same_id :
    (w : World) (ws k : ℕ) (d : PerSocketData)
    → d.group_id ≡ (w.user_data ws).group_id
    → ((set_data w ws d).user_data k).group_id ≡ (w.user_data k).group_id
same_id w ws k d e = elim (Bool-cases (k == ws)) [
  | inl h ↦ rw (h, (==_iff k ws).0 h) e
  | inr h ↦ rw h refl
]

pub retopic-Quiet :
    (w : World) (ws : ℕ) (ss : List TopicSlot)
    → Quiet w (set_data w ws (record (w.user_data ws) { topics = ss }))
retopic-Quiet w ws ss = record {
  ids = λ k. same_id w ws k (record (w.user_data ws) { topics = ss }) refl;
  groups = refl;
}

unsubscribe_found-Quiet :
    (w : World) (ws : ℕ) (r : List TopicSlot × Option Text) → Quiet w (unsubscribe_found w ws r)
unsubscribe_found-Quiet w ws (ss, none) = Quiet-refl
unsubscribe_found-Quiet w ws (ss, some t) = record {
  ids = (retopic-Quiet w ws ss).ids;
  groups = refl;
}

pub remove_group_subscription-Quiet :
    (w : World) (ws : ℕ) → Quiet w (remove_group_subscription w ws)
unfolding remove_group_subscription
remove_group_subscription-Quiet w ws = unsubscribe_found-Quiet w ws _

pub remove_topic_subscription-Quiet :
    (w : World) (ws : ℕ) (t : Text) → Quiet w (remove_topic_subscription w ws t)
unfolding remove_topic_subscription
remove_topic_subscription-Quiet w ws t = unsubscribe_found-Quiet w ws _

pub store_and_subscribe-Quiet :
    (w : World) (ws : ℕ) (t : Text) → Quiet w (store_and_subscribe w ws t)
unfolding store_and_subscribe
store_and_subscribe-Quiet w ws t =
    let r : List TopicSlot × Bool = store_topic t (w.user_data ws).topics in
    Quiet-if r.1 (emit-Quiet (subscribe ws t) (retopic-Quiet w ws r.0)) (retopic-Quiet w ws r.0)

pub handle_subscribe_message-Quiet :
    (w : World) (ws : ℕ) (m : Text) → Quiet w (handle_subscribe_message w ws m)
unfolding handle_subscribe_message
handle_subscribe_message-Quiet w ws m =
    Quiet-if _ Quiet-refl (Quiet-if _ Quiet-refl (store_and_subscribe-Quiet w ws _))

pub subscribe_group_topic-Quiet : (w : World) (ws : ℕ) → Quiet w (subscribe_group_topic w ws)
unfolding subscribe_group_topic
subscribe_group_topic-Quiet w ws = Quiet-if _ Quiet-refl (store_and_subscribe-Quiet w ws _)

pub subscribe_standard_topics-Quiet :
    (w : World) (ws : ℕ) → Quiet w (subscribe_standard_topics w ws)
unfolding subscribe_standard_topics
subscribe_standard_topics-Quiet w ws = Quiet-trans (store_and_subscribe-Quiet w ws _) (
    Quiet-trans (store_and_subscribe-Quiet _ ws _)
      (Quiet-trans (store_and_subscribe-Quiet _ ws _) (subscribe_group_topic-Quiet _ ws)))

pub send_group_update_info-Quiet :
    (w : World) (op : ℕ) (g : Text) → Quiet w (send_group_update_info w op g)
unfolding send_group_update_info
send_group_update_info-Quiet w op g = record { ids = λ k. refl; groups = refl }

-- A run of a handler for the socket `ws` of the character `n`.
pub record Keeps (ws : ℕ) (n : Text) (w v : World) : Type 0 where
  pub others : (k : ℕ) → k ≢ ws → (v.user_data k).group_id ≡ (w.user_data k).group_id
  pub elsewhere : (m : Text) → m ≢ n → group_of v.group_container m ≡ group_of w.group_container m
  pub own :
      (w.user_data ws).group_id ≡ group_of w.group_container n
      → (v.user_data ws).group_id ≡ group_of v.group_container n
  pub marks : Marks n w.group_container.my_groups v.group_container.my_groups

pub Quiet-Keeps : {ws : ℕ} {n : Text} {w v : World} → Quiet w v → Keeps ws n w v
Quiet-Keeps {ws} {n} q = record {
  others = λ k ne. q.ids k;
  elsewhere = λ m ne. ap (λ c. group_of c m) q.groups;
  own = λ e. q.ids ws ∙ e ∙ sym (ap (λ c. group_of c n) q.groups);
  marks = rw q.groups Marks-refl;
}

pub Keeps-trans :
    {ws : ℕ} {n : Text} {u v w : World} → Keeps ws n u v → Keeps ws n v w → Keeps ws n u w
Keeps-trans p q = record {
  others = λ k ne. q.others k ne ∙ p.others k ne;
  elsewhere = λ m ne. q.elsewhere m ne ∙ p.elsewhere m ne;
  own = λ e. q.own (p.own e);
  marks = Marks-trans p.marks q.marks;
}

pub Keeps-if :
    {ws : ℕ} {n : Text} {w u v : World} (b : Bool)
    → Keeps ws n w u
    → Keeps ws n w v
    → Keeps ws n w (if b then u else v)
Keeps-if true p q = p
Keeps-if false p q = q

-- A change of the container that moves nobody.
pub regroup-Keeps :
    {ws : ℕ} {n : Text} (w : World) (c : GroupContainer)
    → ((m : Text) → group_of c m ≡ group_of w.group_container m)
    → Marks n w.group_container.my_groups c.my_groups
    → Keeps ws n w (set_groups w c)
regroup-Keeps {n = n} w c same marks = record {
  others = λ k ne. refl;
  elsewhere = λ m ne. same m;
  own = λ e. e ∙ sym (same n);
  marks = marks;
}

-- A change of the container and of the socket's own group id, by way of the world `u`.
pub settle-Keeps :
    {ws : ℕ} {n : Text} (w u : World) (g : Text)
    → ((k : ℕ) → (u.user_data k).group_id ≡ (w.user_data k).group_id)
    → ((m : Text) → m ≢ n → group_of u.group_container m ≡ group_of w.group_container m)
    → g ≡ group_of u.group_container n
    → Marks n w.group_container.my_groups u.group_container.my_groups
    → Keeps ws n w (set_data u ws (record (u.user_data ws) { group_id = g }))
settle-Keeps {ws} w u g ids elsewhere own marks = record {
  others = λ k ne. ground (arith, ==_iff k ws, ids k);
  elsewhere = elsewhere;
  own = λ e. rw ((==_iff ws ws).1 refl) own;
  marks = marks;
}
