-- ===== src/Server/Opening.antt =====
-- A new connection listens to topics of its own, which begin with its address.
use u_dara_chat.Base.Decimal.{digits_onto, to_string, is_digit, starts_with_digit}
use u_dara_chat.Base.{
  ℕ, zero, suc, ◌+◌, ◌/◌, ◌%◌, ◌≡◌, ◌∙◌, true, false, List, [], ◌∷◌, ◌++◌, Text, codes, text_eq,
  text_eq_iff, starts_with, count_if, count_if-append, any_of, ◌==◌, arith, Bool-cases, inl, inr,
}
use u_dara_chat.Server.Consistent.{any_of-append}
use u_dara_chat.Server.Events.{open_slots, on_open}
use u_dara_chat.Server.Grows.{one_slot}
use u_dara_chat.Server.Guarded.{other_socket, call-IsGuarded}
use u_dara_chat.Server.Hearing.{hears, hears-append, is_reserved, is_foreign, IsPrivate, IsGuarded}
use u_dara_chat.Server.State.{subscribe, TopicSlot, PerSocketData, World}
use u_dara_chat.Server.Topics.{is_group_slot, holds}

digits_onto-starts_with_digit :
    (fuel n : ℕ) (rest : Text)
    → starts_with_digit rest ≡ true
    → starts_with_digit (digits_onto fuel n rest) ≡ true
unfolding digits_onto
digits_onto-starts_with_digit zero n rest h = h
digits_onto-starts_with_digit (suc fuel) n rest h =
    let d : is_digit (b'0' + n % 10) ≡ true = ground arith in
    elim (Bool-cases (n / 10 == 0)) [
      | inl e ↦ rw e d
      | inr e ↦ rw e (digits_onto-starts_with_digit fuel (n / 10) ((b'0' + n % 10) ∷ rest) d)
    ]

to_string-starts_with_digit : (n : ℕ) → starts_with_digit (to_string n) ≡ true
unfolding to_string digits_onto
to_string-starts_with_digit n =
    let d : is_digit (b'0' + n % 10) ≡ true = ground arith in
    elim (Bool-cases (n / 10 == 0)) [
      | inl e ↦ rw e d
      | inr e ↦ rw e (digits_onto-starts_with_digit n (n / 10) ((b'0' + n % 10) ∷ []) d)
    ]

-- A topic that begins with a digit has no reserved prefix.
digit-is_reserved : (t rest : Text) → starts_with_digit t ≡ true → is_reserved (t ++ rest) ≡ false
unfolding is_reserved starts_with
digit-is_reserved [] rest h = ground arith
digit-is_reserved (c ∷ t) rest h = ground arith

slot-IsPrivate :
    (ws : ℕ) (d : PerSocketData) (w : World) (topic : Text)
    → is_reserved topic ≡ false
    → IsPrivate ws d w.effects
    → IsPrivate ws
        (record d { topics = d.topics ++ record { topic = topic; used = false } ∷ [] })
        (w.effects ++ subscribe ws topic ∷ [])
unfolding count_if any_of
slot-IsPrivate ws d w topic plain p =
    let slot : List TopicSlot = record { topic = topic; used = false } ∷ [] in
    record {
      heard = λ t r h.
          let differs : text_eq topic t ≡ false = ground (arith, text_eq_iff topic t, plain, r) in
          let before : hears ws t w.effects ≡ true =
            ground (arith, h, hears-append ws t w.effects (subscribe ws topic), differs) in
          omega (arith, p.heard t r before, count_if-append (holds t) d.topics slot);
      kept = any_of-append (is_foreign d) d.topics slot ∙ ground (arith, p.kept);
      one_group = ground (arith, p.one_group, count_if-append is_group_slot d.topics slot);
      offline = λ off.
          ground (arith, p.offline off, count_if-append (λ (s : TopicSlot). s.used) d.topics slot);
    }

open_slots-IsGuarded :
    (w : World) (ws : ℕ) (pointer i rounds : ℕ)
    → IsGuarded w
    → IsGuarded (open_slots w ws (to_string pointer) i rounds)
unfolding open_slots
open_slots-IsGuarded w ws pointer i zero g = g
open_slots-IsGuarded w ws pointer i (suc rounds) g =
    let topic : Text = to_string pointer ++ (codes "-" ++ to_string i) in
    let plain : is_reserved topic ≡ false =
      digit-is_reserved (to_string pointer) _ (to_string-starts_with_digit pointer) in
    open_slots-IsGuarded (one_slot w ws topic) ws pointer (suc i) rounds (
      call-IsGuarded w ws _ (subscribe ws topic)
        (λ k ne u. (other_socket k ws u topic w.effects ne).0)
        (slot-IsPrivate ws (w.user_data ws) w topic plain (g.each ws)) g)

pub on_open-IsGuarded :
    (w : World) (ws : ℕ) (pointer : ℕ) → IsGuarded w → IsGuarded (on_open w ws (to_string pointer))
unfolding on_open
on_open-IsGuarded w ws pointer g = open_slots-IsGuarded w ws pointer 0 32 g
