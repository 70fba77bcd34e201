-- ===== src/Manager/Invariant.antt =====
-- The invariant of the live sessions, and that each step of a method keeps it.
pub mod Methods
pub mod Events
pub mod Opening
pub mod Runs
use slight.Base.{
  ℕ, ◌≤◌, [], ◌∷◌, ◌++◌, String, ◌≡◌, refl, sym, subst, List, Option, none, some, Bool, not, arith,
  if◌then◌else◌, length, Bool-cases, inl, inr, Option-cases,
}
use slight.Base.Text.{◌==◌, eq_iff}
use slight.Base.HashMap.{get, adjust, get-adjust, get-adjust_inv}
use slight.Base.Exec.{Result, ok_or, lift, ◌>>=◌}
use slight.Base.Exec.Keeps.{
  Keeps, Keeps-lift, Keeps-modify, Keeps-stateful, Keeps-bind, keeps_rules,
}
use slight.Acp.External.{Externals}
use slight.Acp.Kinds.{AcpError}
use slight.Types.Request.{unknown_session}
use slight.Types.Event.{SessionEvent, SequencedEvent}
use slight.Manager.State.{Session, Inner, System, M}
use slight.Manager.Journal.{push_event, sequence_event, next_sequence}
use slight.Manager.Journal.Chain.{EndsAt, EndsAt-snoc, EndsAt-trim_front, length-trim_front}
use slight.Manager.Steps.{require, change, observe, call, persist, persist_session, append}
use slight.Manager.Steps.Append.{
  append_known, append_unknown, appended, sessions-appended, limit-appended, stamped,
}

module _ {X : Externals} where
  -- A session under its id: its journal is consecutive, ends at its last sequence number and keeps
  -- within the limit, and it runs until its exit is reported.
  pub record IsSound (limit : ℕ) (id : String) (s : Session X) : Type 0 where
    pub chained : EndsAt s.summary.last_sequence s.journal
    pub bounded : length s.journal ≤ limit
    pub keyed : s.summary.id ≡ id
    pub exits : s.running ≡ not s.exit_reported

  pub record Inv (i : Inner X) : Type 0 where
    pub sound :
        (id : String) (s : Session X) → get i.sessions id ≡ some s → IsSound i.journal_limit id s

  -- The part of a session that the invariant speaks of.
  abbrev pub core : Session X → ℕ × List (SequencedEvent X) × String × Bool × Bool
  core s = (s.summary.last_sequence, s.journal, s.summary.id, s.running, s.exit_reported)

  abbrev OverCore : ℕ → String → ℕ × List (SequencedEvent X) × String × Bool × Bool → Type 0
  OverCore limit id c = EndsAt c.0 c.1 × (length c.1 ≤ limit) × (c.2 ≡ id) × (c.3 ≡ not c.4)

  pub IsSound-core :
      (limit : ℕ) (id : String) (s t : Session X)
      → core s ≡ core t
      → IsSound limit id s
      → IsSound limit id t
  IsSound-core limit id s t e h =
      let (chained, bounded, keyed, exits) =
        subst (OverCore limit id) e (h.chained, h.bounded, h.keyed, h.exits) in
      record { chained = chained; bounded = bounded; keyed = keyed; exits = exits }

  -- A change of one session keeps the invariant where it keeps that session sound.
  pub Inv-adjust :
      (i : Inner X) (id : String) (f : Session X → Session X)
      → ((s : Session X) → get i.sessions id ≡ some s → IsSound i.journal_limit id (f s))
      → Inv i
      → Inv (record i { sessions = adjust i.sessions id f })
  Inv-adjust i id f h v = record {
    sound = λ j s e. elim (get-adjust_inv i.sessions id j f s e) [
      | inl (w, p, q, r) ↦ rw (← p, r) (h w q)
      | inr q ↦ v.sound j s q
    ];
  }

  -- Nothing but the sessions and the limit matters.
  pub Inv-same :
      (i j : Inner X) → i.sessions ≡ j.sessions → i.journal_limit ≡ j.journal_limit → Inv i → Inv j
  Inv-same i j p q v = record { sound = λ id s e. rw (← q) (v.sound id s (rw p e)) }

  pub Keeps-require : (id : String) → Keeps Inv (require id)
  unfolding require
  Keeps-require id = record {
    at = λ i v. (Keeps-lift {P = Inv} (ok_or (get i.sessions id) (unknown_session id))).at i v;
  }

  pub Keeps-change :
      (id : String) (f : Session X → Session X)
      → ((limit : ℕ) (s : Session X) → IsSound limit id s → IsSound limit id (f s))
      → Keeps Inv (change id f)
  unfolding change
  Keeps-change id f h =
      Keeps-modify _ λ i v. Inv-adjust i id f (λ s e. h i.journal_limit s (v.sound id s e)) v

  -- A change that leaves that part alone.
  pub Keeps-quiet :
      (id : String) (f : Session X → Session X)
      → ((s : Session X) → core s ≡ core (f s))
      → Keeps Inv (change id f)
  Keeps-quiet id f h = Keeps-change id f λ limit s. IsSound-core limit id s (f s) (h s)

  pub Keeps-observe : {A : Type 0} (f : ℕ → A) → Keeps Inv (observe f)
  unfolding observe
  Keeps-observe f = Keeps-stateful _ λ i v. record { sound = v.sound }

  pub Keeps-call :
      {A : Type 0} (id : String) (f : X.Connection → Result A AcpError × X.Connection)
      → Keeps Inv (call id f)
  unfolding call
  Keeps-call id f =
      Keeps-bind _ _ (Keeps-require id)
        λ session. Keeps-bind _ _ (Keeps-quiet id _ λ s. refl) λ _. Keeps-lift _

  push_event-IsSound :
      (limit : ℕ) (id : String) (e : SequencedEvent X) (s : Session X)
      → e.sequence ≡ next_sequence s.summary.last_sequence
      → IsSound limit id s
      → IsSound limit id (push_event limit e s)
  unfolding push_event
  push_event-IsSound limit id e s q h = record {
    chained =
        EndsAt-trim_front limit e.sequence (s.journal ++ e ∷ [])
          (EndsAt-snoc s.summary.last_sequence s.journal e h.chained q);
    bounded = length-trim_front limit (s.journal ++ e ∷ []);
    keyed = h.keyed;
    exits = h.exits;
  }

module _ {X : Externals} (S : System X) where
  appended-Inv :
      (id : String) (event : SessionEvent X) (i : Inner X) (s : Session X)
      → get i.sessions id ≡ some s
      → Inv i
      → Inv (appended S id (stamped S s event i) i)
  unfolding sequence_event
  appended-Inv id event i s e v =
      let e' = stamped S s event i in
      Inv-same (record i { sessions = adjust i.sessions id (push_event i.journal_limit e') })
        (appended S id e' i) (sym (sessions-appended S id e' i)) (sym (limit-appended S id e' i))
        (Inv-adjust i id (push_event i.journal_limit e')
          (λ t q. push_event-IsSound i.journal_limit id e' t (cc (e, q)) (v.sound id t q)) v)

  pub Keeps-append : (id : String) (event : SessionEvent X) → Keeps Inv (append S id event)
  Keeps-append id event = record {
    at = λ i v. elim (Option-cases (get i.sessions id)) [
      | inl missing ↦ rw (append_unknown S id event i missing) v
      | inr (s, known) ↦ rw (append_known S id event i s known) (appended-Inv id event i s known v)
    ];
  }

  pub Keeps-persist_session : (id : String) → Keeps Inv (persist_session S id)
  unfolding persist_session persist
  Keeps-persist_session id = Keeps-modify _ λ i v. elim (Option-cases (get i.sessions id)) [
    | inl missing ↦ rw (missing, persist) v
    | inr (s, known) ↦ rw (known, persist) (record { sound = v.sound })
  ]
