-- ===== src/Missions/Outbox/Writes.antt =====
-- What an operation of the outbox may write: a record that is free for it, under its own id, or the
-- expired leases (src/lib/missions/outbox.ts).
use swarm_z.Base.{
  ℕ, ◌≡◌, refl, sym, ap, ◌∙◌, subst, inl, inr, Bool, true, false, Option, none, some, List, [], ◌∷◌,
  All, Number, Text, text_eq, text_eq_iff, get, get-put_ne, Bool-cases, Option-cases, arith,
}
use swarm_z.Missions.Outbox.Types.{
  MissionOutboxRecord, MissionOutboxSnapshot, OutboxReason, ClaimDecision,
}
use swarm_z.Missions.Outbox.Commands.{replace_record}
use swarm_z.Missions.Outbox.Claims.{
  is_delivered, is_claimed, is_dead, claim_record, bury_record, claim_blocker,
  is_attempts_exhausted, claim_step, after_blocker, expire_lease, reaped_snapshot, claim_first,
}
use swarm_z.Missions.Outbox.Keyed.{IsKeyed, put-IsKeyed, get-expire_all, expire_all-IsKeyed}

-- Every record of which P holds stays as it is, and records stay under their ids.
pub record Keeps (P : MissionOutboxRecord → Type 0) (s t : MissionOutboxSnapshot) : Type 0 where
  pub keyed : IsKeyed t.records
  pub final :
      (id : Text) (r : MissionOutboxRecord)
      → get s.records id ≡ some r
      → P r
      → get t.records id ≡ some r

-- The record is delivered.
abbrev pub IsFinal : MissionOutboxRecord → Type 0
IsFinal r = is_delivered r.status ≡ true

some-inj : {a b : MissionOutboxRecord} → Option.some a ≡ some b → a ≡ b
some-inj h = cc

true-false : Bool.true ≡ false → ⊥
true-false h = cc

none-some : {r : MissionOutboxRecord} → Option.none ≡ some r → ⊥
none-some h = cc

pub not-IsFinal : (r : MissionOutboxRecord) → is_delivered r.status ≡ false → ¬ IsFinal r
not-IsFinal r fresh final = true-false (sym final ∙ fresh)

module _ {P : MissionOutboxRecord → Type 0} where
  pub Keeps-refl : (s : MissionOutboxSnapshot) → IsKeyed s.records → Keeps P s s
  Keeps-refl s h = record { keyed = h; final = λ id r found held. found }

  pub Keeps-trans : (s t u : MissionOutboxSnapshot) → Keeps P s t → Keeps P t u → Keeps P s u
  Keeps-trans s t u h k = record {
    keyed = k.keyed;
    final = λ id r found held. k.final id r (h.final id r found held) held;
  }

  -- A write over no record.
  pub write-new :
      (s : MissionOutboxSnapshot) (w : MissionOutboxRecord)
      → IsKeyed s.records
      → get s.records w.id ≡ none
      → Keeps P s (replace_record s w)
  unfolding replace_record
  write-new s w h new = record {
    keyed = put-IsKeyed s.records w h;
    final = λ id r found held. elim (Bool-cases (text_eq w.id id)) [
      | inl same ↦
          absurd (none-some (sym new ∙ (ap (get s.records) ((text_eq_iff w.id id).0 same) ∙ found)))
      | inr apart ↦ get-put_ne s.records w.id id w apart ∙ found
    ];
  }

  -- A write, after others, over a record of which P did not hold before them.
  pub write-over :
      (s t : MissionOutboxSnapshot) (f w : MissionOutboxRecord)
      → Keeps P s t
      → get s.records f.id ≡ some f
      → ¬ P f
      → w.id ≡ f.id
      → Keeps P s (replace_record t w)
  unfolding replace_record
  write-over s t f w h here free own = record {
    keyed = put-IsKeyed t.records w h.keyed;
    final = λ id r found held. elim (Bool-cases (text_eq w.id id)) [
      | inl same ↦
          let equal : Option.some f ≡ some r =
            sym here ∙ (ap (get s.records) (sym own ∙ (text_eq_iff w.id id).0 same) ∙ found) in
          absurd (free (subst P (sym (some-inj equal)) held))
      | inr apart ↦ get-put_ne t.records w.id id w apart ∙ h.final id r found held
    ];
  }

-- At the time, a record of which P holds is neither expired nor claimed, buried or armed again.
pub record Guards (to_text : ℕ → Text) (P : MissionOutboxRecord → Type 0) (now : Number)
    : Type 0 where
  pub lasting : (r : MissionOutboxRecord) → P r → expire_lease to_text now r ≡ r
  pub unclaimed : (r : MissionOutboxRecord) → claim_blocker now r ≡ none → ¬ P r
  pub unburied :
      (r : MissionOutboxRecord) (reason : OutboxReason)
      → claim_blocker now r ≡ some reason
      → is_attempts_exhausted reason ≡ true
      → ¬ P r
  pub alive : (r : MissionOutboxRecord) → is_dead r.status ≡ true → ¬ P r

module _ (to_text : ℕ → Text) where
  expire_lease-final :
      (now : Number) (r : MissionOutboxRecord)
      → is_delivered r.status ≡ true
      → expire_lease to_text now r ≡ r
  unfolding expire_lease is_claimed is_delivered
  expire_lease-final now r h = ground arith

  pub reap-Keeps :
      (P : MissionOutboxRecord → Type 0) (now : Number) (s : MissionOutboxSnapshot)
      → Guards to_text P now
      → IsKeyed s.records
      → Keeps P s (reaped_snapshot to_text now s)
  unfolding reaped_snapshot
  reap-Keeps P now s guards h = record {
    keyed = expire_all-IsKeyed to_text now s.records h;
    final = λ id r found held.
        get-expire_all to_text now s.records id r found ∙ ap some (guards.lasting r held);
  }

claim_blocker-none :
    (now : Number) (r : MissionOutboxRecord)
    → claim_blocker now r ≡ none
    → is_delivered r.status ≡ false
unfolding claim_blocker
claim_blocker-none now r h = ground arith

claim_blocker-exhausted :
    (now : Number) (r : MissionOutboxRecord) (reason : OutboxReason)
    → claim_blocker now r ≡ some reason
    → is_attempts_exhausted reason ≡ true
    → is_delivered r.status ≡ false
unfolding claim_blocker is_attempts_exhausted
claim_blocker-exhausted now r reason h e = elim (Bool-cases (is_delivered r.status)) [
  | inl d ↦ absurd (ground (arith, d))
  | inr other ↦ other
]

is_dead-undelivered :
    (r : MissionOutboxRecord) → is_dead r.status ≡ true → is_delivered r.status ≡ false
unfolding is_dead is_delivered
is_dead-undelivered r h = ground arith

pub IsFinal-Guards : (to_text : ℕ → Text) (now : Number) → Guards to_text IsFinal now
IsFinal-Guards to_text now = record {
  lasting = expire_lease-final to_text now;
  unclaimed = λ r e. not-IsFinal r (claim_blocker-none now r e);
  unburied = λ r reason e out. not-IsFinal r (claim_blocker-exhausted now r reason e out);
  alive = λ r dead. not-IsFinal r (is_dead-undelivered r dead);
}

module _ (to_text : ℕ → Text) (P : MissionOutboxRecord → Type 0) (now : Number)
    (guards : Guards to_text P now) where
  pub after_blocker-Keeps :
      (s t : MissionOutboxSnapshot) (r : MissionOutboxRecord) (reason : OutboxReason)
      → Keeps P s t
      → get s.records r.id ≡ some r
      → claim_blocker now r ≡ some reason
      → Keeps P s (after_blocker now t r reason)
  unfolding after_blocker bury_record
  after_blocker-Keeps s t r reason h found e = elim (Bool-cases (is_attempts_exhausted reason)) [
    | inl out ↦
        rw out (write-over s t r (bury_record now r) h found (guards.unburied r reason e out) refl)
    | inr other ↦ rw other h
  ]

  module _ (owner_id claim_id : Text) (lease_ms : Number) (s : MissionOutboxSnapshot) where
    pub claim_record-Keeps :
        (t : MissionOutboxSnapshot) (r : MissionOutboxRecord)
        → Keeps P s t
        → get s.records r.id ≡ some r
        → claim_blocker now r ≡ none
        → Keeps P s (replace_record t (claim_record owner_id claim_id now lease_ms r))
    unfolding claim_record
    claim_record-Keeps t r h found e =
        write-over s t r (claim_record owner_id claim_id now lease_ms r) h found
          (guards.unclaimed r e) refl

    claim_step-Keeps :
        (r : MissionOutboxRecord) (decision : ClaimDecision)
        → Keeps P s decision.snapshot
        → get s.records r.id ≡ some r
        → Keeps P s (claim_step owner_id claim_id now lease_ms r decision).snapshot
    unfolding claim_step
    claim_step-Keeps r decision h found = elim (Option-cases (claim_blocker now r)) [
      | inr (reason, e) ↦
          rw (e, claim_step) (after_blocker-Keeps s decision.snapshot r reason h found e)
      | inl e ↦ elim (Option-cases decision.claimed) [
        | inr (other, k) ↦ rw (e, claim_step, k) h
        | inl k ↦ rw (e, claim_step, k) (claim_record-Keeps decision.snapshot r h found e)
      ]
    ]

    pub claim_first-Keeps :
        (rs : List MissionOutboxRecord) (decision : ClaimDecision)
        → Keeps P s decision.snapshot
        → All (λ (r : MissionOutboxRecord). get s.records r.id ≡ some r) rs
        → Keeps P s (claim_first owner_id claim_id now lease_ms rs decision).snapshot
    unfolding claim_first
    claim_first-Keeps [] decision h found = h
    claim_first-Keeps (r ∷ rs) decision h (here, found) =
        claim_first-Keeps rs (claim_step owner_id claim_id now lease_ms r decision)
          (claim_step-Keeps r decision h here) found
