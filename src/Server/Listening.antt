-- ===== src/Server/Listening.antt =====
-- What a socket hears once it has logged in.
use u_dara_chat.Base.{
  ℕ, suc, ◌≤◌, ◌+◌, ◌≡◌, refl, sym, ◌∙◌, ◌⊎◌, inl, inr, Bool, true, false, List, [], ◌∷◌, ◌++◌,
  Text, codes, text_eq_refl, starts_with, is_empty, is_empty_iff, count_if, length, ◌==◌, ==_iff,
  arith, Bool-cases, if◌then◌else◌,
}
use u_dara_chat.Group.Container.{get_group_topic}
use u_dara_chat.Group.Names.{group_of}
use u_dara_chat.Login.Verify.{AuthenticatedLogin, accepted, verify_login}
use u_dara_chat.Server.Acts.{SameIdentity, Acts-SameIdentity}
use u_dara_chat.Server.Conduct.{store_and_subscribe-Acts}
use u_dara_chat.Server.Entered.{online, enter-Quiet, enter-own}
use u_dara_chat.Server.Events.{Env, enter, on_connect, on_text, on_message}
use u_dara_chat.Server.Groups.{Now, send_group_update_info}
use u_dara_chat.Server.Hearing.{hears, hears-append}
use u_dara_chat.Server.History.{Run}
use u_dara_chat.Server.Keeps.{store_and_subscribe-Quiet}
use u_dara_chat.Server.Privacy.{Run-IsGuarded}
use u_dara_chat.Server.Sessions.{seated-data}
use u_dara_chat.Server.Slots.{in_use, Stored-cases, length-store_topic}
use u_dara_chat.Server.State.{subscribe, TopicSlot, World}
use u_dara_chat.Server.Subscribing.{group_topic}
use u_dara_chat.Server.Topics.{
  to_lower, store_topic, store_and_subscribe, subscribe_group_topic, subscribe_standard_topics,
}

in_use-store_topic :
    (t : Text) (ss : List TopicSlot) → in_use (store_topic t ss).0 ≤ suc (in_use ss)
unfolding store_topic count_if
in_use-store_topic t [] = omega arith
in_use-store_topic t (s ∷ ss) = ground (arith, in_use-store_topic t ss)

-- There are `n` free slots at least.
abbrev HasRoom : ℕ → World → ℕ → Type 0
HasRoom n w ws = in_use (w.user_data ws).topics + n ≤ length (w.user_data ws).topics

-- All that the socket heard, it still hears.
abbrev Still : ℕ → World → World → Type 0
Still ws w v = (u : Text) → hears ws u w.effects ≡ true → hears ws u v.effects ≡ true

module _ (w : World) (ws : ℕ) (t : Text) where
  store_and_subscribe-hears :
      (n : ℕ)
      → HasRoom (suc n) w ws
      → (hears ws t (store_and_subscribe w ws t).effects ≡ true)
        × Still ws w (store_and_subscribe w ws t)
        × HasRoom n (store_and_subscribe w ws t) ws
  unfolding store_and_subscribe
  store_and_subscribe-hears n room = elim (Stored-cases t (w.user_data ws).topics) [
    | inl (stored, h) ↦
        let own : ws == ws ≡ true = (==_iff ws ws).1 refl in
        rw (stored, own)
          (
            hears-append ws t w.effects (subscribe ws t) ∙ ground (arith, own, text_eq_refl t),
            λ u h. hears-append ws u w.effects (subscribe ws t) ∙ ground (arith, h),
            omega (
              arith,
              room,
              in_use-store_topic t (w.user_data ws).topics,
              length-store_topic t (w.user_data ws).topics,
            ),
          )
    | inr (stored, h, full, k) ↦ absurd (omega (arith, room, full))
  ]

  store_and_subscribe-SameIdentity :
      SameIdentity ((store_and_subscribe w ws t).user_data ws) (w.user_data ws)
  store_and_subscribe-SameIdentity = Acts-SameIdentity (store_and_subscribe-Acts {n = []} w ws t) ws

  store_and_subscribe-group_id :
      ((store_and_subscribe w ws t).user_data ws).group_id ≡ (w.user_data ws).group_id
  store_and_subscribe-group_id = (store_and_subscribe-Quiet w ws t).ids ws

subscribe_group_topic-hears :
    (w : World) (ws : ℕ)
    → HasRoom 1 w ws
    → (((w.user_data ws).group_id ≡ [])
        ⊎ (hears ws (get_group_topic (w.user_data ws).group_id) (subscribe_group_topic w ws).effects
            ≡ true))
      × Still ws w (subscribe_group_topic w ws)
unfolding subscribe_group_topic
subscribe_group_topic-hears w ws room = elim (Bool-cases (is_empty (w.user_data ws).group_id)) [
  | inl none_of ↦ rw none_of (inl ((is_empty_iff _).0 none_of), λ u h. h)
  | inr some_of ↦
      let (topic, chosen) = group_topic (w.user_data ws).group_id some_of in
      let (h, still, more) =
        store_and_subscribe-hears w ws (get_group_topic (w.user_data ws).group_id) 0 room in
      rw (some_of, chosen) (inr h, still)
]

-- The socket hears what is meant for everybody, for the zone, for the name and for the group.
pub record Hears (ws : ℕ) (zone name group_id : Text) (w : World) : Type 0 where
  pub of_world : hears ws (codes "World") w.effects ≡ true
  pub of_zone : hears ws (codes "zone_" ++ zone) w.effects ≡ true
  pub of_name : hears ws (codes "tell_" ++ to_lower name) w.effects ≡ true
  pub of_group : (group_id ≡ []) ⊎ (hears ws (get_group_topic group_id) w.effects ≡ true)

subscribe_standard_topics-Hears :
    (w : World) (ws : ℕ)
    → HasRoom 4 w ws
    → Hears ws
        (w.user_data ws).zone
        (w.user_data ws).name
        (w.user_data ws).group_id
        (subscribe_standard_topics w ws)
unfolding subscribe_standard_topics
subscribe_standard_topics-Hears w ws room =
    let (h1, still1, room1) = store_and_subscribe-hears w ws (codes "World") 3 room in
    let i1 = store_and_subscribe-SameIdentity w ws (codes "World") in
    let w1 : World = store_and_subscribe w ws (codes "World") in
    let zone : Text = codes "zone_" ++ (w1.user_data ws).zone in
    let (h2, still2, room2) = store_and_subscribe-hears w1 ws zone 2 room1 in
    let i2 = store_and_subscribe-SameIdentity w1 ws zone in
    let w2 : World = store_and_subscribe w1 ws zone in
    let tell : Text = codes "tell_" ++ to_lower (w2.user_data ws).name in
    let (h3, still3, room3) = store_and_subscribe-hears w2 ws tell 1 room2 in
    let w3 : World = store_and_subscribe w2 ws tell in
    let (h4, still4) = subscribe_group_topic-hears w3 ws room3 in
    let id : (w3.user_data ws).group_id ≡ (w.user_data ws).group_id =
      store_and_subscribe-group_id w2 ws tell
      ∙ store_and_subscribe-group_id w1 ws zone
      ∙ store_and_subscribe-group_id w ws (codes "World") in
    record {
      of_world = still4 _ (still3 _ (still2 _ h1));
      of_zone = still4 _ (still3 _ (rw (sym i1.zone) h2));
      of_name = still4 _ (rw (sym (i2.name ∙ i1.name)) h3);
      of_group = rw (sym id) h4;
    }

Hears-Still :
    {ws : ℕ} {zone name id zone' name' id' : Text} {w v : World}
    → zone ≡ zone'
    → name ≡ name'
    → id ≡ id'
    → Still ws w v
    → Hears ws zone name id w
    → Hears ws zone' name' id' v
Hears-Still z n i still h = record {
  of_world = still _ h.of_world;
  of_zone = rw (sym z) (still _ h.of_zone);
  of_name = rw (sym n) (still _ h.of_name);
  of_group = rw (sym i) (elim h.of_group [ inl e ↦ inl e | inr e ↦ inr (still _ e) ]);
}

Still-if : (ws : ℕ) (w v : World) (b : Bool) → Still ws w v → Still ws w (if b then w else v)
Still-if ws w v true s = λ u h. h
Still-if ws w v false s = s

send_group_update_info-hears :
    (w : World) (ws op : ℕ) (g : Text) → Still ws w (send_group_update_info w op g)
unfolding send_group_update_info
send_group_update_info-hears w ws op g u h = hears-append ws u w.effects _ ∙ h

module _ (env : Env) (now : Now) (w : World) (ws : ℕ) (login : AuthenticatedLogin) (op : ℕ) where
  online-HasRoom :
      in_use (w.user_data ws).topics ≡ 0
      → 4 ≤ length (w.user_data ws).topics
      → HasRoom 4 (online env now w ws login op) ws
  online-HasRoom z room =
      let own : ws == ws ≡ true = (==_iff ws ws).1 refl in
      let d = seated-data env now w ws login in rw own (rw d (omega (arith, z, room)))

  enter-hears :
      Still ws
        (subscribe_standard_topics (online env now w ws login op) ws)
        (enter env now w ws login op)
  unfolding enter
  enter-hears =
      let w6 : World = subscribe_standard_topics (online env now w ws login op) ws in
      Still-if ws w6 _ (is_empty (w6.user_data ws).group_id)
        (send_group_update_info-hears w6 ws op (w6.user_data ws).group_id)

  enter-Hears :
      in_use (w.user_data ws).topics ≡ 0
      → 4 ≤ length (w.user_data ws).topics
      → Hears ws login.zone login.character_name
          (group_of (enter env now w ws login op).group_container login.character_name)
          (enter env now w ws login op)
  enter-Hears z room =
      let w5 : World = online env now w ws login op in
      let topics = subscribe_standard_topics-Hears w5 ws (online-HasRoom z room) in
      let own : ws == ws ≡ true = (==_iff ws ws).1 refl in
      let d = seated-data env now w ws login in
      let zone : (w5.user_data ws).zone ≡ login.zone = rw own (rw d refl) in
      let name : (w5.user_data ws).name ≡ login.character_name = rw own (rw d refl) in
      let id : (w5.user_data ws).group_id
          ≡ group_of (enter env now w ws login op).group_container login.character_name =
        sym ((enter-Quiet env now w ws login op).ids ws) ∙ enter-own env now w ws login op in
      Hears-Still zone name id enter-hears topics

-- In every run of the server, when a socket that has not logged in sends a login that is accepted,
-- and has four topic slots at least, it is afterwards subscribed to `World`, to the topic of the
-- login's zone, to the `tell_` topic of the login's name in small letters and, if the container has
-- a group for that name, to the topic of this group.
pub on_message-login-Hears :
    (env : Env) (now : Now) {gone : List ℕ} {w : World} (ws : ℕ) (msg : Text)
    (login : AuthenticatedLogin)
    → Run env gone w
    → (w.user_data ws).connected ≡ false
    → 4 ≤ length (w.user_data ws).topics
    → starts_with (codes "connect:") msg ≡ true
    → verify_login env.jwt msg env.secret now.ticks ≡ accepted login
    → Hears ws login.zone login.character_name
        (group_of (on_message env now w ws msg 1).group_container login.character_name)
        (on_message env now w ws msg 1)
unfolding on_message on_text on_connect
on_message-login-Hears env now {w = w} ws msg login run off room connect ok =
    rw (connect, off, ok)
      (enter-Hears env now w ws login 1 (((Run-IsGuarded env run).each ws).offline off) room)
