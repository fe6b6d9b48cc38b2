-- ===== src/Server/Attendance.antt =====
-- The table of sessions and the online flags of the members, and what a login, a close and a
-- group command do to both.
use u_dara_chat.Base.{
  ℕ, ◌≤◌, ◌≡◌, sym, ◌∙◌, true, false, List, none, some, Text, text_cases, inl, inr,
}
use u_dara_chat.Group.Container.{online_from}
use u_dara_chat.Group.Count.{occurrences}
use u_dara_chat.Group.Presence.{has_online, has_offline, Marks, online-others, online-own}
use u_dara_chat.Group.Types.{GroupMember}
use u_dara_chat.Server.Roster.{session-set_session_other, session-erase_session_other}
use u_dara_chat.Server.Sessions.{session-set_session}
use u_dara_chat.Server.State.{session, set_session, erase_session}

-- A name without a session is nowhere marked online, and a name with one is nowhere marked offline.
pub record Present (sessions : List (Text × ℕ)) (ms : List GroupMember) : Type 0 where
  pub absent : (n : Text) → session n sessions ≡ none → has_online n ms ≡ false
  pub present : (n : Text) (ws : ℕ) → session n sessions ≡ some ws → has_offline n ms ≡ false

module _ (now : ℕ) (n : Text) (m : List (Text × ℕ)) (ms : List GroupMember)
    (once : occurrences n ms ≤ 1) (p : Present m ms) where
  -- The session of a name ends.
  pub offline-Present :
      session n (erase_session n m) ≡ none
      → Present (erase_session n m) (online_from now n false ms).0
  offline-Present single = record {
    absent = λ k e. elim (text_cases k n) [
      | inl same ↦ rw same (online-own n now ms once).0
      | inr ne ↦
          (online-others n now false ms k ne).0
          ∙ p.absent k (sym (session-erase_session_other n k m ne) ∙ e)
    ];
    present = λ k ws s. elim (text_cases k n) [
      | inl same ↦ cc (rw (same, single) at s)
      | inr ne ↦
          (online-others n now false ms k ne).1
          ∙ p.present k ws (sym (session-erase_session_other n k m ne) ∙ s)
    ];
  }

  -- The session of a name begins.
  pub online-Present : (ws : ℕ) → Present (set_session n ws m) (online_from now n true ms).0
  online-Present ws = record {
    absent = λ k e. elim (text_cases k n) [
      | inl same ↦ cc (rw (same, session-set_session n ws m) at e)
      | inr ne ↦
          (online-others n now true ms k ne).0
          ∙ p.absent k (sym (session-set_session_other n k ws m ne) ∙ e)
    ];
    present = λ k v s. elim (text_cases k n) [
      | inl same ↦ rw same (online-own n now ms once).1
      | inr ne ↦
          (online-others n now true ms k ne).1
          ∙ p.present k v (sym (session-set_session_other n k ws m ne) ∙ s)
    ];
  }

-- The groups change by the doing of a name that has a session.
pub Marks-Present :
    {m : List (Text × ℕ)} {ms ns : List GroupMember} (n : Text) (ws : ℕ)
    → session n m ≡ some ws
    → Marks n ms ns
    → Present m ms
    → Present m ns
Marks-Present n ws own marks p = record {
  absent = λ k e. elim (text_cases k n) [
    | inl same ↦ cc (rw (same, own) at e)
    | inr ne ↦ marks.online_kept k ne ∙ p.absent k e
  ];
  present = λ k v s. elim (text_cases k n) [
    | inl same ↦ rw same (marks.own (p.present n ws own))
    | inr ne ↦ marks.offline_kept k ne ∙ p.present k v s
  ];
}
