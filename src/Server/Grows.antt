-- ===== src/Server/Grows.antt =====
-- What frames other than logins only add to: the identities and the sessions stay, and effects are
-- appended.
use u_dara_chat.Base.Decimal.{to_string}
use u_dara_chat.Base.{
  ℕ, zero, suc, ◌≡◌, ◌&&◌, arith, refl, sym, ap, ◌∙◌, Bool, true, false, not, ◌||◌, List, [], ◌∷◌,
  ◌++◌, append-nil, append_assoc, Text, codes, starts_with, is_empty, drop, ◌==◌, if◌then◌else◌,
  Bool-cases, inl, inr, Option-cases,
}
use u_dara_chat.Chat.Message.{find_from}
use u_dara_chat.Chat.Raw.{deserialize_raw}
use u_dara_chat.Group.Count.{size}
use u_dara_chat.Group.NewId.{get_new_group_id}
use u_dara_chat.Server.Acts.{
  Acts, stay, after, retopic, effect, subscribed, SameIdentity, same, Acts-SameIdentity,
  Acts-active_sessions, Acts-effects,
}
use u_dara_chat.Server.Conduct.{
  handle_subscribe_message-Acts, remove_topic_subscription-Acts, on_text-Acts,
}
use u_dara_chat.Server.Events.{
  Env, open_slots, on_open, on_publish, on_text, on_binary, on_message, float_le_zero,
}
use u_dara_chat.Server.Groups.{Now}
use u_dara_chat.Server.Integrity.{outcome-cases}
use u_dara_chat.Server.Keeps.{Quiet, Quiet-refl, Quiet-trans, emit-Quiet, retopic-Quiet}
use u_dara_chat.Server.State.{Effect, subscribe, World, emit, set_data}

-- Effects are added behind the ones before.
pub record Adds (w v : World) : Type 0 where
  pub more : List Effect
  pub appended : v.effects ≡ w.effects ++ more

pub Adds-refl : {w : World} → Adds w w
Adds-refl {w} = record { more = []; appended = sym (append-nil w.effects) }

pub Adds-trans : {u v w : World} → Adds u v → Adds v w → Adds u w
Adds-trans {u} a b = record {
  more = a.more ++ b.more;
  appended = b.appended ∙ ap (λ x. x ++ b.more) a.appended ∙ append_assoc u.effects a.more b.more;
}

pub Adds-if : {w u v : World} (b : Bool) → Adds w u → Adds w v → Adds w (if b then u else v)
Adds-if true p q = p
Adds-if false p q = q

pub record Grows (w v : World) : Type 0 where
  pub identity : (k : ℕ) → SameIdentity (v.user_data k) (w.user_data k)
  pub sessions : v.active_sessions ≡ w.active_sessions
  pub effects : Adds w v

pub Grows-refl : {w : World} → Grows w w
Grows-refl {w} = record { identity = λ k. same; sessions = refl; effects = Adds-refl }

pub Acts-Grows : {n : Text} {w v : World} → Acts n w v → Grows w v
Acts-Grows a =
    let (es, e, _) = Acts-effects a in
    record {
      identity = Acts-SameIdentity a;
      sessions = Acts-active_sessions a;
      effects = record { more = es; appended = e };
    }

pub emit-Grows : (w : World) (e : Effect) → Grows w (emit w e)
emit-Grows w e = record {
  identity = λ k. same;
  sessions = refl;
  effects = record { more = e ∷ []; appended = refl };
}

Grows-if : {w u v : World} (b : Bool) → Grows w u → Grows w v → Grows w (if b then u else v)
Grows-if true p q = p
Grows-if false p q = q

-- The world after one round of the loop of `open`.
abbrev pub one_slot : World → ℕ → Text → World
one_slot w ws topic =
    emit
      (set_data w ws (record (w.user_data ws) {
        topics = (w.user_data ws).topics ++ record { topic = topic; used = false } ∷ [];
      }))
      (subscribe ws topic)

open_slots-Acts :
    (w : World) (ws : ℕ) (address : Text) (i rounds : ℕ)
    → Acts [] w (open_slots w ws address i rounds)
unfolding open_slots
open_slots-Acts w ws address i zero = stay
open_slots-Acts w ws address i (suc rounds) = after (retopic ws _) (
    after (effect (subscribed ws _)) (
      open_slots-Acts (one_slot w ws (address ++ (codes "-" ++ to_string i))) ws address (suc i)
        rounds))

open_slots-Quiet :
    (w : World) (ws : ℕ) (address : Text) (i rounds : ℕ)
    → Quiet w (open_slots w ws address i rounds)
unfolding open_slots
open_slots-Quiet w ws address i zero = Quiet-refl
open_slots-Quiet w ws address i (suc rounds) = Quiet-trans (emit-Quiet _ (retopic-Quiet w ws _)) (
    open_slots-Quiet (one_slot w ws (address ++ (codes "-" ++ to_string i))) ws address (suc i)
      rounds)

pub on_open-Grows :
    (w : World) (ws : ℕ) (address : Text)
    → Grows w (on_open w ws address) × Quiet w (on_open w ws address)
unfolding on_open
on_open-Grows w ws address =
    (Acts-Grows (open_slots-Acts w ws address 0 32), open_slots-Quiet w ws address 0 32)

on_publish-Grows : (w : World) (msg : Text) (op : ℕ) → Grows w (on_publish w msg op)
unfolding on_publish
on_publish-Grows w msg op = elim (Option-cases (find_from b':' msg 8)) [
  | inl e ↦ rw (e, on_publish) Grows-refl
  | inr (i, e) ↦ rw (e, on_publish) (emit-Grows w _)
]

module _ (env : Env) (now : Now) (w : World) (ws op : ℕ) (msg : Text) where
  on_binary-Grows : Grows w (on_binary env now w ws msg op)
  unfolding on_binary
  on_binary-Grows =
      Grows-if (not (w.user_data ws).connected || is_empty (w.user_data ws).group_id) Grows-refl
        (elim (outcome-cases (deserialize_raw msg)) [
          | inl e ↦ rw e Grows-refl
          | inr (inl e) ↦ rw e Grows-refl
          | inr (inr (m, e)) ↦ rw e (
              Grows-if (float_le_zero m.max_health) Grows-refl (record {
                identity = λ k. same;
                sessions = refl;
                effects = record { more = _; appended = refl };
              }))
        ])

  on_text_publish-Grows :
      starts_with (codes "connect:") msg ≡ false
      → starts_with (codes "publish:") msg ≡ true
      → Grows w (on_text env now w ws msg op)
  unfolding on_text
  on_text_publish-Grows c p =
      rw (c, p)
        (Grows-if (not (w.user_data ws).connected) Grows-refl (
          Grows-if (starts_with (codes "schedule:") msg) Grows-refl (
            Grows-if (starts_with (codes "subscribe:") msg)
              (Acts-Grows (handle_subscribe_message-Acts {n = []} w ws msg))
              (Grows-if (starts_with (codes "unsubscribe:") msg)
                (Acts-Grows (remove_topic_subscription-Acts {n = []} w ws (drop 12 msg)))
                (on_publish-Grows w msg op)))))

  pub on_message-Grows :
      size (get_new_group_id now.dis now.dis2) w.group_container.my_groups ≡ 0
      → (op == 1 && starts_with (codes "connect:") msg) ≡ false
      → Grows w (on_message env now w ws msg op)
  unfolding on_message
  on_message-Grows fresh no_login = elim (Bool-cases (op == 1)) [
    | inr h ↦ rw h on_binary-Grows
    | inl h ↦
        let c : starts_with (codes "connect:") msg ≡ false = ground arith in
        rw h (elim (Bool-cases (starts_with (codes "publish:") msg)) [
          | inl p ↦ on_text_publish-Grows c p
          | inr p ↦ Acts-Grows (on_text-Acts env now w ws op fresh msg c p)
        ])
  ]
