-- ===== src/Missions/Outbox/Kept.antt =====
-- Failures, expiries, claims and enqueueing keep the records that they may not write
-- (src/lib/missions/outbox.ts).
use swarm_z.Base.{
  ℕ, ◌≡◌, refl, subst, inl, inr, Bool, false, not, ◌||◌, none, some, [], All-sort_by, sort_by,
  Number, Text, get, values, Bool-cases, Option-cases, arith,
}
use swarm_z.Missions.Outbox.Types.{
  MissionOutboxCommand, MissionOutboxRecord, MissionOutboxSnapshot, EnqueueMissionCommand,
  ClaimDecision, MutationDecision, OutboxLabel, done, >>=-eq-done,
}
use swarm_z.Missions.Outbox.Commands.{
  assert_id, assert_ready, finite_time, validate_command, find_key, replace_record, new_record,
  reuse_record, admit_command, enqueue_mission_command,
}
use swarm_z.Missions.Outbox.Claims.{
  is_delivered, is_exhausted, claim_blocker, after_blocker, claim_record, reap_expired_claims,
  open_claim, claim_mission_command_by_id, is_due_before, claim_next_mission_command,
}
use swarm_z.Missions.Outbox.Delivery.{record_for_claim, failed_record, fail_mission_command}
use swarm_z.Missions.Outbox.Keyed.{IsKeyed, values-get}
use swarm_z.Missions.Outbox.Writes.{
  Guards, Keeps, Keeps-refl, Keeps-trans, write-new, reap-Keeps, after_blocker-Keeps,
  claim_record-Keeps, claim_first-Keeps,
}
use swarm_z.Missions.Outbox.Steps.{done-inj, get-own}
use swarm_z.Missions.Outbox.Finality.{unchanged-Keeps, changed-Keeps, record_for_claim-get}

module _ (to_text : ℕ → Text) where
  pub fail_mission_command-Keeps :
      {P : MissionOutboxRecord → Type 0} (s : MissionOutboxSnapshot) (id claim_id error : Text)
      (now : Number) (retryable : Bool) (d : MutationDecision)
      → ((r : MissionOutboxRecord)
          → record_for_claim s id claim_id ≡ done r
          → is_delivered r.status ≡ false
          → ¬ P r)
      → IsKeyed s.records
      → fail_mission_command to_text s id claim_id error now retryable ≡ done d
      → Keeps P s d.snapshot
  unfolding fail_mission_command failed_record
  fail_mission_command-Keeps s id claim_id error now retryable d free h ran =
      let (ready, a, timed) = >>=-eq-done (assert_ready s) _ ran in
      let (time, b, claimed) = >>=-eq-done (finite_time now) _ timed in
      let (r, c, last) = >>=-eq-done (record_for_claim s id claim_id) _ claimed in
      elim (Bool-cases (is_delivered r.status)) [
        | inl e ↦ unchanged-Keeps s r d h (ground (arith, e, last))
        | inr e ↦
            changed-Keeps s r (failed_record to_text (not retryable || is_exhausted r) error now r)
              d h (get-own s id r h (record_for_claim-get s id claim_id r c)) (free r c e) refl
              (ground (arith, e, last))
      ]

  pub reap_expired_claims-Keeps :
      (P : MissionOutboxRecord → Type 0) (s t : MissionOutboxSnapshot) (now : Number)
      → Guards to_text P now
      → IsKeyed s.records
      → reap_expired_claims to_text s now ≡ done t
      → Keeps P s t
  unfolding reap_expired_claims
  reap_expired_claims-Keeps P s t now guards h ran =
      let (ready, a, timed) = >>=-eq-done (assert_ready s) _ ran in
      let (time, b, last) = >>=-eq-done (finite_time now) _ timed in
      subst (Keeps P s) (done-inj last) (reap-Keeps to_text P now s guards h)

  open_claim-Keeps :
      (P : MissionOutboxRecord → Type 0) (s t : MissionOutboxSnapshot) (owner_id claim_id : Text)
      (now : Number)
      → Guards to_text P now
      → IsKeyed s.records
      → open_claim to_text s owner_id claim_id now ≡ done t
      → Keeps P s t
  unfolding open_claim
  open_claim-Keeps P s t owner_id claim_id now guards h ran =
      let (o, a, rest) = >>=-eq-done (assert_id OutboxLabel.claim_owner owner_id) _ ran in
      let (c, b, timed) = >>=-eq-done (assert_id OutboxLabel.claim_id claim_id) _ rest in
      let (time, e, last) = >>=-eq-done (finite_time now) _ timed in
      reap_expired_claims-Keeps P s t now guards h last

  pub claim_mission_command_by_id-Keeps :
      (P : MissionOutboxRecord → Type 0) (s : MissionOutboxSnapshot) (id owner_id claim_id : Text)
      (now lease_ms : Number) (d : ClaimDecision)
      → Guards to_text P now
      → IsKeyed s.records
      → claim_mission_command_by_id to_text s id owner_id claim_id now lease_ms ≡ done d
      → Keeps P s d.snapshot
  unfolding claim_mission_command_by_id
  claim_mission_command_by_id-Keeps P s id owner_id claim_id now lease_ms d guards h ran =
      let (ready, a, named) = >>=-eq-done (assert_ready s) _ ran in
      let (valid, b, opened) = >>=-eq-done (assert_id OutboxLabel.record_id id) _ named in
      let (t, c, rest) = >>=-eq-done (open_claim to_text s owner_id claim_id now) _ opened in
      let h' = open_claim-Keeps P s t owner_id claim_id now guards h c in
      let same : Keeps P t t = Keeps-refl t h'.keyed in
      Keeps-trans s t d.snapshot h' (elim (Option-cases (get t.records id)) [
        | inl e ↦ absurd (ground (arith, e, rest))
        | inr (r, e) ↦
            let own = get-own t id r h'.keyed e in
            elim (Option-cases (claim_blocker now r)) [
              | inr (reason, k) ↦
                  let written : after_blocker now t r reason ≡ d.snapshot =
                    ground (arith, e, k, rest) in
                  subst (Keeps P t) written
                    (after_blocker-Keeps to_text P now guards t t r reason same own k)
              | inl k ↦
                  let written : replace_record t (claim_record owner_id claim_id now lease_ms r)
                      ≡ d.snapshot =
                    ground (arith, e, k, rest) in
                  subst (Keeps P t) written (
                    claim_record-Keeps to_text P now guards owner_id claim_id lease_ms t t r same
                      own k)
            ]
      ])

  pub claim_next_mission_command-Keeps :
      (P : MissionOutboxRecord → Type 0) (compare : Text → Text → Bool) (s : MissionOutboxSnapshot)
      (owner_id claim_id : Text) (now lease_ms : Number) (d : ClaimDecision)
      → Guards to_text P now
      → IsKeyed s.records
      → claim_next_mission_command to_text compare s owner_id claim_id now lease_ms ≡ done d
      → Keeps P s d.snapshot
  unfolding claim_next_mission_command
  claim_next_mission_command-Keeps P compare s owner_id claim_id now lease_ms d guards h ran =
      let (ready, a, opened) = >>=-eq-done (assert_ready s) _ ran in
      let (t, c, last) = >>=-eq-done (open_claim to_text s owner_id claim_id now) _ opened in
      let h' = open_claim-Keeps P s t owner_id claim_id now guards h c in
      let found = λ (r : MissionOutboxRecord). get t.records r.id ≡ some r in
      let loop =
        claim_first-Keeps to_text P now guards owner_id claim_id lease_ms t
          (sort_by (is_due_before compare) (values t.records))
          (record { snapshot = t; claimed = none; evaluations = [] }) (Keeps-refl t h'.keyed)
          (All-sort_by (is_due_before compare) found (values t.records)
            (values-get t.records h'.keyed)) in
      Keeps-trans s t d.snapshot h'
        (subst (λ (x : ClaimDecision). Keeps P t x.snapshot) (done-inj last) loop)

module _ (payload_text : MissionOutboxCommand → Text)
    (fingerprint : Text → Text → MissionOutboxCommand → Text) where
  pub enqueue_mission_command-Keeps :
      {P : MissionOutboxRecord → Type 0} (s : MissionOutboxSnapshot)
      (command : EnqueueMissionCommand) (id : Text) (now : Number) (d : MutationDecision)
      → IsKeyed s.records
      → enqueue_mission_command payload_text fingerprint s command id now ≡ done d
      → Keeps P s d.snapshot
  unfolding enqueue_mission_command reuse_record admit_command new_record
  enqueue_mission_command-Keeps {P} s command id now d h ran =
      let (ready, a, checked) = >>=-eq-done (assert_ready s) _ ran in
      let (valid, b, named) =
        >>=-eq-done (validate_command payload_text fingerprint command) _ checked in
      let (good, c, timed) = >>=-eq-done (assert_id OutboxLabel.record_id id) _ named in
      let (time, e, rest) = >>=-eq-done (finite_time now) _ timed in
      elim (Option-cases (find_key s command.idempotency_key)) [
        | inr (r, k) ↦
            let same : s ≡ d.snapshot = ground (arith, k, rest) in
            subst (Keeps P s) same (Keeps-refl s h)
        | inl k ↦
            let more : admit_command payload_text fingerprint s command id now ≡ done d =
              ground (arith, k, rest) in
            let new : get s.records id ≡ none = ground (arith, more) in
            let written : replace_record s (new_record command id now) ≡ d.snapshot =
              ground (arith, more) in
            subst (Keeps P s) written (write-new s (new_record command id now) h new)
      ]
