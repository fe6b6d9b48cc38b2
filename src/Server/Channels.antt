-- ===== src/Server/Channels.antt =====
-- The channels of one connection, and counting them all.
use u_dara_chat.Base.{
  ℕ, ◌+◌, ◌≡◌, refl, sym, ap, ◌∙◌, Bool, true, ◌&&◌, ◌||◌, List, [], ◌∷◌, Text, text_eq,
  text_eq_iff, any_of, count_if, count_if-append, if◌then◌else◌, arith, Bool-cases, inl, inr,
}
use u_dara_chat.Group.Info.{insert_unique}
use u_dara_chat.Server.Consistent.{any_of-append}
use u_dara_chat.Server.Snapshot.{increment, increment_all, is_channel_slot, channels_of}
use u_dara_chat.Server.State.{TopicSlot, PerSocketData}
use u_dara_chat.Server.Tally.{
  tally, tally-increment, is_ordered, increment-is_ordered, increment_comm,
}

-- The socket has a slot in use for the topic, which is a channel's.
abbrev pub is_on_channel : Text → PerSocketData → Bool
is_on_channel t d = any_of (λ s. is_channel_slot s && text_eq t s.topic) d.topics

pub tally-increment_all :
    (t : Text) (ks : List Text) (m : List (Text × ℕ))
    → tally t (increment_all ks m) ≡ count_if (text_eq t) ks + tally t m
unfolding increment_all count_if
tally-increment_all t [] m = omega arith
tally-increment_all t (k ∷ ks) m = ground (
  arith,
  tally-increment_all t ks (increment k m),
  tally-increment t k m,
  text_eq_iff k t,
  text_eq_iff t k,
)

pub increment_all-is_ordered :
    (ks : List Text) (m : List (Text × ℕ))
    → is_ordered m ≡ true
    → is_ordered (increment_all ks m) ≡ true
unfolding increment_all
increment_all-is_ordered [] m h = h
increment_all-is_ordered (k ∷ ks) m h =
    increment_all-is_ordered ks (increment k m) (increment-is_ordered k m h)

increment-increment_all :
    (j : Text) (ks : List Text) (m : List (Text × ℕ))
    → increment_all ks (increment j m) ≡ increment j (increment_all ks m)
unfolding increment_all
increment-increment_all j [] m = refl
increment-increment_all j (k ∷ ks) m =
    ap (increment_all ks) (increment_comm k j m) ∙ increment-increment_all j ks (increment k m)

pub increment_all_comm :
    (js ks : List Text) (m : List (Text × ℕ))
    → increment_all js (increment_all ks m) ≡ increment_all ks (increment_all js m)
unfolding increment_all
increment_all_comm [] ks m = refl
increment_all_comm (j ∷ js) ks m =
    ap (increment_all js) (sym (increment-increment_all j ks m))
    ∙ increment_all_comm js ks (increment j m)

count-insert_unique :
    (t k : Text) (ks : List Text)
    → count_if (text_eq t) ks ≡ (if any_of (text_eq t) ks then 1 else 0)
    → count_if (text_eq t) (insert_unique k ks)
      ≡ (if text_eq t k || any_of (text_eq t) ks then 1 else 0)
unfolding count_if any_of
count-insert_unique t k ks h =
    ground (arith, h, count_if-append (text_eq t) ks (k ∷ []), text_eq_iff t k)

any_of-insert_unique :
    (t k : Text) (ks : List Text)
    → any_of (text_eq t) (insert_unique k ks) ≡ (text_eq t k || any_of (text_eq t) ks)
unfolding any_of
any_of-insert_unique t k ks = ground (arith, any_of-append (text_eq t) ks (k ∷ []), text_eq_iff t k)

pub count-channels_of :
    (t : Text) (ss : List TopicSlot) (seen : List Text)
    → count_if (text_eq t) seen ≡ (if any_of (text_eq t) seen then 1 else 0)
    → count_if (text_eq t) (channels_of ss seen) ≡ (
        if any_of (λ (s : TopicSlot). is_channel_slot s && text_eq t s.topic) ss
          || any_of (text_eq t) seen
        then 1
        else 0)
unfolding channels_of any_of
count-channels_of t [] seen h = h
count-channels_of t (s ∷ ss) seen h = elim (Bool-cases (is_channel_slot s)) [
  | inl c ↦ rw c (
      count-channels_of t ss (insert_unique s.topic seen) (
        count-insert_unique t s.topic seen h
        ∙ ap (λ (b : Bool). if b then 1 else 0) (sym (any_of-insert_unique t s.topic seen)))
      ∙ ground (arith, any_of-insert_unique t s.topic seen))
  | inr c ↦ rw c (count-channels_of t ss seen h)
]
