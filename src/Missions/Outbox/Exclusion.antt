-- ===== src/Missions/Outbox/Exclusion.antt =====
-- A claim of the outbox is exclusive until its lease runs out (src/lib/missions/outbox.ts).
use swarm_z.Base.{
  ◌≡◌, ap, ◌∙◌, true, false, text_eq, none, some, Number, lt_num, add_num, Text, Dict, get, arith,
}
use swarm_z.Missions.Outbox.Types.{
  MissionOutboxRecord, MissionOutboxSnapshot, ClaimDecision, OutboxLabel, done, >>=-eq-done,
}
use swarm_z.Missions.Outbox.Commands.{assert_id, assert_ready}
use swarm_z.Missions.Outbox.Claims.{
  is_delivered, lease_duration, open_claim, claim_mission_command_by_id,
}
use swarm_z.Missions.Outbox.Keyed.{IsKeyed, get-expire_all}
use swarm_z.Missions.Outbox.Delivery.{record_for_claim, is_lease_of}
use swarm_z.Missions.Outbox.Writes.{Keeps, Keeps-refl, Keeps-trans}
use swarm_z.Missions.Outbox.Steps.{
  OutboxSurroundings, Step, enqueued, reaped, claimed_by_id, claimed_next, delivered, failed,
  adopted, rearmed,
}
use swarm_z.Missions.Outbox.Finality.{
  record_for_claim-get, deliver_mission_command-Keeps, retry_dead_letter-Keeps,
}
use swarm_z.Missions.Outbox.Kept.{
  fail_mission_command-Keeps, reap_expired_claims-Keeps, claim_mission_command_by_id-Keeps,
  claim_next_mission_command-Keeps, enqueue_mission_command-Keeps,
}
use swarm_z.Missions.Outbox.Held.{
  IsHeld, IsHeld-blocked, IsHeld-alive, IsHeld-Guards, claim-taken, open_claim-records,
}

module _ (env : OutboxSurroundings) where
  -- A call that may be made during another's lease: at a time before its end where the call looks at
  -- leases, and no settlement in the name of its claim and no adoption of a receipt.
  abbrev pub IsDuring :
      (claim_id : Text) (until : Number) (s t : MissionOutboxSnapshot) → Step env s t → Type 0
  IsDuring claim_id until s t (enqueued command id now d e) = Unit
  IsDuring claim_id until s t (reaped now u e) = lt_num now until ≡ true
  IsDuring claim_id until s t (claimed_by_id id owner_id claim_id' now lease_ms d e) =
      lt_num now until ≡ true
  IsDuring claim_id until s t (claimed_next owner_id claim_id' now lease_ms d e) =
      lt_num now until ≡ true
  IsDuring claim_id until s t (delivered id claim_id' receipt now d e) =
      text_eq claim_id claim_id' ≡ false
  IsDuring claim_id until s t (failed id claim_id' error now retryable d e) =
      text_eq claim_id claim_id' ≡ false
  IsDuring claim_id until s t (adopted key receipt now d e) = ⊥
  IsDuring claim_id until s t (rearmed id now d e) = Unit

  -- Any number of such calls.
  pub data Meanwhile (claim_id : Text) (until : Number) (s : MissionOutboxSnapshot)
      : MissionOutboxSnapshot → Type 0 where
    unchanged_yet : Meanwhile claim_id until s s
    after :
        (t u : MissionOutboxSnapshot)
        → Meanwhile claim_id until s t
        → (step : Step env t u) → IsDuring claim_id until t u step
        → Meanwhile claim_id until s u

  -- A record that is held by one claim is not settled in the name of another.
  IsHeld-record_for_claim :
      (claim_id claim_id' id : Text) (until : Number) (s : MissionOutboxSnapshot)
      (r : MissionOutboxRecord)
      → text_eq claim_id claim_id' ≡ false
      → record_for_claim s id claim_id' ≡ done r
      → is_delivered r.status ≡ false
      → ¬ IsHeld claim_id until r
  unfolding record_for_claim is_lease_of
  IsHeld-record_for_claim claim_id claim_id' id until s r other ran fresh held =
      let found = record_for_claim-get s id claim_id' r ran in
      let claimed = held.status in
      let leased = held.leased in
      let named = held.named in
      let stale : is_lease_of claim_id' r.lease ≡ false = rw (leased, named) other in
      absurd (ground (arith, found, fresh, claimed, stale, ran))

  module _ (claim_id : Text) (until : Number) where
    during-Keeps :
        (s t : MissionOutboxSnapshot) (step : Step env s t)
        → IsKeyed s.records
        → IsDuring claim_id until s t step
        → Keeps (IsHeld claim_id until) s t
    during-Keeps s t (enqueued command id now d e) h ok =
        enqueue_mission_command-Keeps env.payload_text env.fingerprint s command id now d h e
    during-Keeps s t (reaped now u e) h ok =
        reap_expired_claims-Keeps env.to_text (IsHeld claim_id until) s u now
          (IsHeld-Guards env.to_text claim_id until now ok) h e
    during-Keeps s t (claimed_by_id id owner_id claim_id' now lease_ms d e) h ok =
        claim_mission_command_by_id-Keeps env.to_text (IsHeld claim_id until) s id owner_id
          claim_id' now lease_ms d (IsHeld-Guards env.to_text claim_id until now ok) h e
    during-Keeps s t (claimed_next owner_id claim_id' now lease_ms d e) h ok =
        claim_next_mission_command-Keeps env.to_text (IsHeld claim_id until) env.compare s owner_id
          claim_id' now lease_ms d (IsHeld-Guards env.to_text claim_id until now ok) h e
    during-Keeps s t (delivered id claim_id' receipt now d e) h ok =
        deliver_mission_command-Keeps env.receipt_text env.stable_value env.compare s id claim_id'
          receipt now d
          (λ r ran fresh. IsHeld-record_for_claim claim_id claim_id' id until s r ok ran fresh) h e
    during-Keeps s t (failed id claim_id' error now retryable d e) h ok =
        fail_mission_command-Keeps env.to_text s id claim_id' error now retryable d
          (λ r ran fresh. IsHeld-record_for_claim claim_id claim_id' id until s r ok ran fresh) h e
    during-Keeps s t (adopted key receipt now d e) h ok = absurd ok
    during-Keeps s t (rearmed id now d e) h ok =
        retry_dead_letter-Keeps s id now d (IsHeld-alive claim_id until) h e

    Meanwhile-Keeps :
        (s t : MissionOutboxSnapshot)
        → IsKeyed s.records
        → Meanwhile claim_id until s t
        → Keeps (IsHeld claim_id until) s t
    Meanwhile-Keeps s t h unchanged_yet = Keeps-refl s h
    Meanwhile-Keeps s t h (after u v before step ok) =
        let k = Meanwhile-Keeps s u h before in
        Keeps-trans s u v k (during-Keeps u v step k.keyed ok)

  -- In an outbox whose records stand once and under their own ids, a claim by id that returns a record
  -- holds it while its lease lasts: after every sequence of further calls but pruning, of which each that reaps or
  -- claims is made before the lease ends, none delivers or fails in the name of the claim and none adopts
  -- a receipt, the record is as the claim returned it, and a claim of it by id that is made before the
  -- lease ends and returns, returns no record.
  pub claim-exclusive :
      (s t : MissionOutboxSnapshot) (id owner_id claim_id : Text) (now lease_ms : Number)
      (d : ClaimDecision) (r : MissionOutboxRecord) (owner_id' claim_id' : Text)
      (later lease_ms' : Number) (d' : ClaimDecision)
      → IsKeyed s.records
      → claim_mission_command_by_id env.to_text s id owner_id claim_id now lease_ms ≡ done d
      → d.claimed ≡ some r
      → Meanwhile claim_id (add_num now (lease_duration lease_ms)) d.snapshot t
      → lt_num later (add_num now (lease_duration lease_ms)) ≡ true
      → claim_mission_command_by_id env.to_text t id owner_id' claim_id' later lease_ms' ≡ done d'
      → (get t.records id ≡ some r) × (d'.claimed ≡ none)
  unfolding claim_mission_command_by_id
  claim-exclusive s t id owner_id claim_id now lease_ms d r owner_id' claim_id' later lease_ms' d' h
        ran won meanwhile before ran' =
      let until = add_num now (lease_duration lease_ms) in
      let (keyed, here, held) =
        claim-taken env.to_text s id owner_id claim_id now lease_ms d r h ran won in
      let still =
        (Meanwhile-Keeps claim_id until d.snapshot t keyed meanwhile).final id r here held in
      let (ready, a, named) = >>=-eq-done (assert_ready t) _ ran' in
      let (valid, b, opened) = >>=-eq-done (assert_id OutboxLabel.record_id id) _ named in
      let (u, c, rest) =
        >>=-eq-done (open_claim env.to_text t owner_id' claim_id' later) _ opened in
      let guards = IsHeld-Guards env.to_text claim_id until later before in
      let found : get u.records id ≡ some r =
        ap (λ (x : Dict MissionOutboxRecord). get x id)
          (open_claim-records env.to_text t u owner_id' claim_id' later c)
        ∙ (get-expire_all env.to_text later t.records id r still
            ∙ ap some (guards.lasting r held)) in
      let blocked = IsHeld-blocked claim_id until later r held in
      (still, ground (arith, found, blocked, rest))
