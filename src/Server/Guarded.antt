-- ===== src/Server/Guarded.antt =====
-- The primitive steps of the handlers keep the reserved topics with their owners.
use u_dara_chat.Base.{
  ℕ, ◌≤◌, ◌+◌, ◌≡◌, refl, sym, ◌∙◌, ◌≢◌, Bool, true, false, List, [], ◌∷◌, ◌++◌, some, Text, codes,
  text_eq_iff, text_cases, text_ne, starts_with, count_if, ◌==◌, ==_iff, if◌then◌else◌, arith,
  Bool-cases, inl, inr,
}
use u_dara_chat.Group.Types.{GroupContainer}
use u_dara_chat.Server.Hearing.{
  hears, hears-append, is_foreign, IsPrivate, IsGuarded, store_topic-kept, store_topic-count,
  free_first-kept, free_first-count, free_first-held, regroup-kept,
}
use u_dara_chat.Server.Slots.{held-store_other, Stored-cases}
use u_dara_chat.Server.State.{
  Effect, subscribe, unsubscribe, send, close_socket, publish, TopicSlot, PerSocketData, World,
  set_data, set_groups, emit,
}
use u_dara_chat.Server.Topics.{is_group_slot, free_first, store_topic}

-- What an effect leaves alone.
hears-cong :
    (ws : ℕ) (d : PerSocketData) (es fs : List Effect)
    → ((t : Text) → hears ws t fs ≡ hears ws t es)
    → IsPrivate ws d es
    → IsPrivate ws d fs
hears-cong ws d es fs same p = record {
  heard = λ t r h. p.heard t r (sym (same t) ∙ h);
  kept = p.kept;
  one_group = p.one_group;
  offline = p.offline;
}

-- An effect that is no call of `subscribe` or `unsubscribe`.
abbrev pub is_silent : Effect → Bool
is_silent (send _ _) = true
is_silent (close_socket _ _ _) = true
is_silent (publish _ _ _) = true
is_silent _ = false

silent-hears :
    (ws : ℕ) (t : Text) (es : List Effect) (e : Effect)
    → is_silent e ≡ true
    → hears ws t (es ++ e ∷ []) ≡ hears ws t es
silent-hears ws t es (send a b) s = hears-append ws t es (send a b)
silent-hears ws t es (close_socket a b c) s = hears-append ws t es (close_socket a b c)
silent-hears ws t es (publish a b c) s = hears-append ws t es (publish a b c)
silent-hears ws t es (subscribe a b) s = ground arith
silent-hears ws t es (unsubscribe a b) s = ground arith

pub silent-IsGuarded :
    (w : World) (e : Effect) → is_silent e ≡ true → IsGuarded w → IsGuarded (emit w e)
silent-IsGuarded w e s g = record {
  each = λ k.
      hears-cong k (w.user_data k) w.effects (w.effects ++ e ∷ [])
        (λ t. silent-hears k t w.effects e s) (g.each k);
}

pub IsGuarded-if :
    (b : Bool) (u v : World) → IsGuarded u → IsGuarded v → IsGuarded (if b then u else v)
IsGuarded-if true u v p q = p
IsGuarded-if false u v p q = q

pub set_groups-IsGuarded :
    (w : World) (c : GroupContainer) → IsGuarded w → IsGuarded (set_groups w c)
set_groups-IsGuarded w c g = record { each = g.each }

-- Other data for one socket.
pub set_data-IsGuarded :
    (w : World) (ws : ℕ) (d : PerSocketData)
    → IsPrivate ws d w.effects
    → IsGuarded w
    → IsGuarded (set_data w ws d)
set_data-IsGuarded w ws d p g = record {
  each = λ k. elim (Bool-cases (k == ws)) [
    | inl h ↦ rw (h, (==_iff k ws).0 h) p
    | inr h ↦ rw h (g.each k)
  ];
}

pub other_socket :
    (k ws : ℕ) (t u : Text) (es : List Effect)
    → k ≢ ws
    → (hears k t (es ++ subscribe ws u ∷ []) ≡ hears k t es)
      × (hears k t (es ++ unsubscribe ws u ∷ []) ≡ hears k t es)
other_socket k ws t u es ne = (
  hears-append k t es (subscribe ws u) ∙ ground (arith, ==_iff ws k),
  hears-append k t es (unsubscribe ws u) ∙ ground (arith, ==_iff ws k),
)

-- Other data and one more call of `subscribe` or `unsubscribe` for one socket.
pub call-IsGuarded :
    (w : World) (ws : ℕ) (d : PerSocketData) (e : Effect)
    → ((k : ℕ) → k ≢ ws → (t : Text) → hears k t (w.effects ++ e ∷ []) ≡ hears k t w.effects)
    → IsPrivate ws d (w.effects ++ e ∷ [])
    → IsGuarded w
    → IsGuarded (emit (set_data w ws d) e)
call-IsGuarded w ws d e others p g = record {
  each = λ k. elim (Bool-cases (k == ws)) [
    | inl h ↦ rw (h, (==_iff k ws).0 h) p
    | inr h ↦ rw h (
        hears-cong k (w.user_data k) w.effects (w.effects ++ e ∷ [])
          (others k (λ q. ground (arith, ==_iff k ws))) (g.each k))
  ];
}

module _ (ws : ℕ) (d : PerSocketData) (es : List Effect) where
  -- A topic that is stored may be subscribed to.
  pub stored-IsPrivate :
      (t : Text)
      → d.connected ≡ true
      → is_foreign d (record { topic = t; used = true }) ≡ false
      → (if starts_with (codes "group_") t then 1 else 0) + count_if is_group_slot d.topics ≤ 1
      → (store_topic t d.topics).1 ≡ true
      → IsPrivate ws d es
      → IsPrivate ws (record d { topics = (store_topic t d.topics).0 }) (es ++ subscribe ws t ∷ [])
  stored-IsPrivate t on own one s p = record {
    heard = λ u r h. elim (text_cases t u) [
      | inl same ↦ elim (Stored-cases t d.topics) [
        | inl (a, b) ↦ rw (sym same) b
        | inr (a, b, c, e) ↦ ground (arith, a, s)
      ]
      | inr ne ↦
          rw (held-store_other t u d.topics λ q. ne (sym q))
            (p.heard u r (ground (arith, h, hears-append ws u es (subscribe ws t), text_ne t u ne)))
    ];
    kept = store_topic-kept (is_foreign d) t d.topics own p.kept;
    one_group = omega (arith, one, store_topic-count t d.topics);
    offline = λ off. cc;
  }

  pub freed-IsPrivate :
      (q : TopicSlot → Bool) (t : Text)
      → d.connected ≡ true
      → (free_first q d.topics).1 ≡ some t
      → IsPrivate ws d es
      → IsPrivate ws (record d { topics = (free_first q d.topics).0 }) (es ++ unsubscribe ws t ∷ [])
  freed-IsPrivate q t on f p = record {
    heard = λ u r h. elim (text_cases t u) [
      | inl same ↦
          ground
            (arith, h, hears-append ws u es (unsubscribe ws t), ==_iff ws ws, text_eq_iff t u, same)
      | inr ne ↦
          rw (free_first-held q t u d.topics f ne) (
            p.heard u r
              (ground (arith, h, hears-append ws u es (unsubscribe ws t), text_ne t u ne)))
    ];
    kept = free_first-kept q (is_foreign d) d.topics refl p.kept;
    one_group = omega (arith, p.one_group, free_first-count q is_group_slot d.topics refl);
    offline = λ off. cc;
  }

  -- Slots that change without a call.
  pub retopic-IsPrivate :
      (ss : List TopicSlot)
      → ss ≡ d.topics
      → IsPrivate ws d es
      → IsPrivate ws (record d { topics = ss }) es
  retopic-IsPrivate ss e p = record {
    heard = λ t r h. rw e (p.heard t r h);
    kept = rw e p.kept;
    one_group = rw e p.one_group;
    offline = λ off. rw e (p.offline off);
  }

  -- The group id of a socket with no group topic.
  pub relabel-IsPrivate :
      (g : Text)
      → count_if is_group_slot d.topics ≡ 0
      → IsPrivate ws d es
      → IsPrivate ws (record d { group_id = g }) es
  relabel-IsPrivate g z p = record {
    heard = p.heard;
    kept = regroup-kept d g d.topics z p.kept;
    one_group = p.one_group;
    offline = p.offline;
  }
