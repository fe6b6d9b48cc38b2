-- ===== src/Chat/RoundTrip.antt =====
-- `TryParseMessage` against `Serialize`.
use native.Mathlib.Nat.{zero-add}
use u_dara_chat.Base.{
  ◌+◌, ◌-◌, ◌≡◌, refl, ◌∙◌, ◌≢◌, ◌⊎◌, inl, inr, true, false, [], ◌∷◌, ◌++◌, Text, codes, length,
  drop, any_of, arith, if◌then◌else◌,
}
use u_dara_chat.Chat.CmdType.{
  ChatCmdType, tell, group, raid, zone, channel, group_invite, group_join, group_join_info,
  group_disband, group_disband_info, group_kick, group_kick_info, group_info, alive, alive_info,
  admin_status, admin_groups, admin_zones, admin_channels, admin_info, admin_error, no_type,
  chat_cmd_type_to_string, chat_cmd_type_from_string, chat_cmd_type_from_string-to_string,
  chat_cmd_type_to_string-from_string,
}
use u_dara_chat.Chat.Find.{
  Free, find-cases, take-length, drop-add, drop_past, find_from-found, find_from-none,
}
use u_dara_chat.Chat.Message.{
  DaraChatMsg, new_chat_msg, Parsed, rejected, is_none, serialize, parse_fields, try_parse_message,
}

-- A frame put together from its four fields.
abbrev pub frame : Text → Text → Text → Text → Text
frame t u v w = t ++ (b':' ∷ (u ++ (b':' ∷ (v ++ (b':' ∷ w)))))

abbrev pub read_as : Text → Text → Text → Text → Parsed
read_as t u v w =
    if is_none (chat_cmd_type_from_string t)
    then rejected (codes "Unknown or inactive message type")
    else record {
      ok = true;
      output = record {
        kind = chat_cmd_type_from_string t;
        sender = u;
        recipient = v;
        message = w;
      };
      error = [];
    }

module _ (t u v w : Text) (ft : Free b':' t) (fu : Free b':' u) (fv : Free b':' v) where
  past_first : drop (length t + 1) (frame t u v w) ≡ u ++ (b':' ∷ (v ++ (b':' ∷ w)))
  past_first = drop_past b':' t _

  past_second : drop (length t + 1 + length u + 1) (frame t u v w) ≡ v ++ (b':' ∷ w)
  past_second =
      let e : length t + 1 + length u + 1 ≡ (length t + 1) + (length u + 1) = omega arith in
      rw (e, drop-add (length t + 1) (length u + 1) (frame t u v w), past_first)
        (drop_past b':' u _)

  past_third : drop (length t + 1 + length u + 1 + length v + 1) (frame t u v w) ≡ w
  past_third =
      let e : length t + 1 + length u + 1 + length v + 1
          ≡ (length t + 1 + length u + 1) + (length v + 1) =
        omega arith in
      rw (e, drop-add (length t + 1 + length u + 1) (length v + 1) (frame t u v w), past_second)
        (drop_past b':' v _)

  parse_fields-frame :
      parse_fields
        (frame t u v w)
        (length t)
        (length t + 1 + length u)
        (length t + 1 + length u + 1 + length v)
      ≡ read_as t u v w
  unfolding parse_fields
  parse_fields-frame =
      let a : length t + 1 + length u - length t - 1 ≡ length u = omega arith in
      let b : length t + 1 + length u + 1 + length v - (length t + 1 + length u) - 1 ≡ length v =
        omega arith in
      rw
        (
          take-length t (b':' ∷ (u ++ (b':' ∷ (v ++ (b':' ∷ w))))),
          a,
          b,
          past_first,
          past_second,
          past_third,
          take-length u (b':' ∷ (v ++ (b':' ∷ w))),
          take-length v (b':' ∷ w),
        )
        refl

  pub try_parse_message-frame : try_parse_message (frame t u v w) ≡ read_as t u v w
  unfolding try_parse_message
  try_parse_message-frame =
      rw
        (
          find_from-found b':' (frame t u v w) 0 t _ refl ft,
          zero-add (length t),
          find_from-found b':' (frame t u v w) (length t + 1) u _ past_first fu,
          find_from-found b':' (frame t u v w) (length t + 1 + length u + 1) v _ past_second fv,
        )
        parse_fields-frame

pub Free-to_string : (k : ChatCmdType) → Free b':' (chat_cmd_type_to_string k)
unfolding any_of
Free-to_string tell = refl
Free-to_string group = refl
Free-to_string raid = refl
Free-to_string zone = refl
Free-to_string channel = refl
Free-to_string group_invite = refl
Free-to_string group_join = refl
Free-to_string group_join_info = refl
Free-to_string group_disband = refl
Free-to_string group_disband_info = refl
Free-to_string group_kick = refl
Free-to_string group_kick_info = refl
Free-to_string group_info = refl
Free-to_string alive = refl
Free-to_string alive_info = refl
Free-to_string admin_status = refl
Free-to_string admin_groups = refl
Free-to_string admin_zones = refl
Free-to_string admin_channels = refl
Free-to_string admin_info = refl
Free-to_string admin_error = refl
Free-to_string no_type = refl

none-cases : (k : ChatCmdType) → (k ≡ no_type) ⊎ (k ≢ no_type)
none-cases no_type = inl refl
none-cases _ = inr λ e. cc

is_none-no_type : (k : ChatCmdType) → k ≢ no_type → is_none k ≡ false
is_none-no_type no_type e = absurd (e refl)
is_none-no_type _ e = refl

-- What `Serialize` writes is read back as it was, without an error, when the type is a real one and
-- neither the sender nor the recipient has a colon; the message text may have any bytes.
pub try_parse_message-serialize :
    (m : DaraChatMsg)
    → m.kind ≢ no_type
    → Free b':' m.sender
    → Free b':' m.recipient
    → try_parse_message (serialize m) ≡ record { ok = true; output = m; error = [] }
unfolding serialize
try_parse_message-serialize m known fs fr =
    try_parse_message-frame (chat_cmd_type_to_string m.kind) m.sender m.recipient m.message
      (Free-to_string m.kind) fs fr
    ∙ rw (chat_cmd_type_from_string-to_string m.kind, is_none-no_type m.kind known) refl

-- What a text without three colons, or with an unknown type, leaves behind.
abbrev pub Refuses : Parsed → Type 0
Refuses r = (r.ok ≡ false) × (r.output ≡ new_chat_msg) × (r.error ≢ [])

abbrev pub Accepts : Text → Parsed → Type 0
Accepts s r =
    (r.ok ≡ true)
    × (serialize r.output ≡ s)
    × (r.output.kind ≢ no_type)
    × Free b':' r.output.sender
    × Free b':' r.output.recipient
    × (r.error ≡ [])

read_as-cases :
    (t u v w : Text)
    → Free b':' u
    → Free b':' v
    → Accepts (frame t u v w) (read_as t u v w) ⊎ Refuses (read_as t u v w)
unfolding serialize
read_as-cases t u v w fu fv = elim (none-cases (chat_cmd_type_from_string t)) [
  | inl e ↦ inr (rw e (refl, refl, λ q. cc))
  | inr e ↦ inl (
      rw (is_none-no_type _ e)
        (refl, rw (chat_cmd_type_to_string-from_string t e) refl, e, fu, fv, refl))
]

abbrev missing : Parsed
missing = rejected (codes "Expected Type:Sender:Recipient:Message")

expected : Refuses missing
expected = (refl, refl, λ q. cc)

missing_first : (s : Text) → Free b':' s → try_parse_message s ≡ missing
unfolding try_parse_message
missing_first s f = rw (find_from-none b':' s 0 s refl f) refl

missing_second :
    (t r : Text) → Free b':' t → Free b':' r → try_parse_message (t ++ b':' ∷ r) ≡ missing
unfolding try_parse_message
missing_second t r ft f =
    rw
      (
        find_from-found b':' (t ++ b':' ∷ r) 0 t r refl ft,
        zero-add (length t),
        find_from-none b':' (t ++ b':' ∷ r) (length t + 1) r (drop_past b':' t r) f,
      )
      refl

missing_third :
    (t u r : Text)
    → Free b':' t
    → Free b':' u
    → Free b':' r
    → try_parse_message (t ++ (b':' ∷ (u ++ b':' ∷ r))) ≡ missing
unfolding try_parse_message
missing_third t u r ft fu f =
    let s : Text = t ++ (b':' ∷ (u ++ b':' ∷ r)) in
    let e : length t + 1 + length u + 1 ≡ (length t + 1) + (length u + 1) = omega arith in
    let past : drop (length t + 1 + length u + 1) s ≡ r =
      rw (e, drop-add (length t + 1) (length u + 1) s, drop_past b':' t (u ++ b':' ∷ r))
        (drop_past b':' u r) in
    rw
      (
        find_from-found b':' s 0 t (u ++ b':' ∷ r) refl ft,
        zero-add (length t),
        find_from-found b':' s (length t + 1) u r (drop_past b':' t (u ++ b':' ∷ r)) fu,
        find_from-none b':' s (length t + 1 + length u + 1) r past f,
      )
      refl

-- Parsing any text: either it is accepted without an error, and then writing the result gives the
-- text back, the type is a real one, and the sender and recipient have no colon; or it is refused,
-- the output is the empty message and the error text is not empty.
pub try_parse_message_outcome :
    (s : Text) → Accepts s (try_parse_message s) ⊎ Refuses (try_parse_message s)
try_parse_message_outcome s = elim (find-cases b':' s) [
  | inl f ↦ inr (rw (missing_first s f) expected)
  | inr (t, r, ft, e) ↦ rw e (elim (find-cases b':' r) [
    | inl f ↦ inr (rw (missing_second t r ft f) expected)
    | inr (u, r', fu, e') ↦ rw e' (elim (find-cases b':' r') [
      | inl f ↦ inr (rw (missing_third t u r' ft fu f) expected)
      | inr (v, w, fv, e'') ↦
          rw (e'', try_parse_message-frame t u v w ft fu fv) (read_as-cases t u v w fu fv)
    ])
  ])
]
