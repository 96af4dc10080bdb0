-- ===== src/Missions/Outbox/Runs.antt =====
-- A delivered command stays delivered (src/lib/missions/outbox.ts).
use swarm_z.Base.{◌≡◌, true, some, Number, Text, get}
use swarm_z.Missions.Outbox.Types.{MissionOutboxRecord, MissionOutboxSnapshot}
use swarm_z.Missions.Outbox.Commands.{empty_mission_outbox}
use swarm_z.Missions.Outbox.Claims.{is_delivered}
use swarm_z.Missions.Outbox.Keyed.{IsKeyed}
use swarm_z.Missions.Outbox.Writes.{
  IsFinal, not-IsFinal, Guards, IsFinal-Guards, Keeps, Keeps-refl, Keeps-trans,
}
use swarm_z.Missions.Outbox.Steps.{
  OutboxSurroundings, Step, enqueued, reaped, claimed_by_id, claimed_next, delivered, failed,
  adopted, rearmed, Steps, start, next,
}
use swarm_z.Missions.Outbox.Finality.{
  deliver_mission_command-Keeps, adopt_mission_command_receipt-Keeps, retry_dead_letter-Keeps,
}
use swarm_z.Missions.Outbox.Kept.{
  fail_mission_command-Keeps, reap_expired_claims-Keeps, claim_mission_command_by_id-Keeps,
  claim_next_mission_command-Keeps, enqueue_mission_command-Keeps,
}

module _ (env : OutboxSurroundings) where
  guards : (now : Number) → Guards env.to_text IsFinal now
  guards now = IsFinal-Guards env.to_text now

  Step-Keeps : (s t : MissionOutboxSnapshot) → IsKeyed s.records → Step env s t → Keeps IsFinal s t
  Step-Keeps s t h (enqueued command id now d e) =
      enqueue_mission_command-Keeps env.payload_text env.fingerprint s command id now d h e
  Step-Keeps s t h (reaped now u e) =
      reap_expired_claims-Keeps env.to_text IsFinal s u now (guards now) h e
  Step-Keeps s t h (claimed_by_id id owner_id claim_id now lease_ms d e) =
      claim_mission_command_by_id-Keeps env.to_text IsFinal s id owner_id claim_id now lease_ms d
        (guards now) h e
  Step-Keeps s t h (claimed_next owner_id claim_id now lease_ms d e) =
      claim_next_mission_command-Keeps env.to_text IsFinal env.compare s owner_id claim_id now
        lease_ms d (guards now) h e
  Step-Keeps s t h (delivered id claim_id receipt now d e) =
      deliver_mission_command-Keeps env.receipt_text env.stable_value env.compare s id claim_id
        receipt now d (λ r c. not-IsFinal r) h e
  Step-Keeps s t h (failed id claim_id error now retryable d e) =
      fail_mission_command-Keeps env.to_text s id claim_id error now retryable d
        (λ r c. not-IsFinal r) h e
  Step-Keeps s t h (adopted key receipt now d e) =
      adopt_mission_command_receipt-Keeps env.receipt_text env.stable_value env.compare s key
        receipt now d h e
  Step-Keeps s t h (rearmed id now d e) = retry_dead_letter-Keeps s id now d (guards now).alive h e

  Steps-Keeps :
      (s t : MissionOutboxSnapshot) → IsKeyed s.records → Steps env s t → Keeps IsFinal s t
  Steps-Keeps s t h start = Keeps-refl s h
  Steps-Keeps s t h (next u v before last) =
      let k = Steps-Keeps s u h before in Keeps-trans s u v k (Step-Keeps u v k.keyed last)

  -- In an outbox that calls of enqueue, reap, claim, deliver, fail, adopt and manual retry have made out
  -- of the empty one, every record stands once and under its own id. A claim of a property that the
  -- records inherit is not among the calls.
  pub Steps-IsKeyed :
      (s : MissionOutboxSnapshot) → Steps env empty_mission_outbox s → IsKeyed s.records
  unfolding empty_mission_outbox
  Steps-IsKeyed s run = (Steps-Keeps empty_mission_outbox s tt run).keyed

  -- In an outbox that calls have made out of the empty one, a delivered record stays exactly as it is,
  -- with its receipt, under every later sequence of calls of enqueue, reap, claim, deliver, fail, adopt
  -- and manual retry. Pruning, which removes delivered records, is not among the calls.
  pub Steps-delivered :
      (s t : MissionOutboxSnapshot) (id : Text) (r : MissionOutboxRecord)
      → Steps env empty_mission_outbox s
      → Steps env s t
      → get s.records id ≡ some r
      → is_delivered r.status ≡ true
      → get t.records id ≡ some r
  Steps-delivered s t id r run more found final =
      ((Steps-Keeps s t (Steps-IsKeyed s run) more).final id r found final)
