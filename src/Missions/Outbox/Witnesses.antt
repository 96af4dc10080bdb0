-- ===== src/Missions/Outbox/Witnesses.antt =====
-- A small run of the outbox, and the theorems about its runs at it.
use swarm_z.Base.{◌≡◌, refl, true, false, none, some, [], ◌∷◌, of_nat, codes, get, library}
use swarm_z.Missions.Types.{Json}
use swarm_z.Missions.Outbox.Types.{
  ClaimDecision, done, OutboxHydration, prompt, MissionOutboxRecord, MissionOutboxSnapshot,
  EnqueueMissionCommand, OutboxReason, thrown, stale_claim,
}
use swarm_z.Missions.Outbox.Commands
use swarm_z.Missions.Outbox.Commands.{empty_mission_outbox, new_record, enqueue_mission_command}
use swarm_z.Missions.Outbox.Claims
use swarm_z.Missions.Outbox.Claims.{claim_record, claim_mission_command_by_id, is_delivered}
use swarm_z.Missions.Outbox.Delivery
use swarm_z.Missions.Outbox.Delivery.{
  delivered_record, deliver_mission_command, fail_mission_command,
}
use swarm_z.Missions.Outbox.Keyed.{IsKeyed}
use swarm_z.Missions.Outbox.Steps.{
  OutboxSurroundings, Step, enqueued, claimed_by_id, delivered, failed, Steps, start, next,
}
use swarm_z.Missions.Outbox.Runs.{Steps-IsKeyed, Steps-delivered}
use swarm_z.Missions.Outbox.Exclusion.{unchanged_yet, after, claim-exclusive}
use swarm_z.Missions.Outbox.Idempotence.{enqueue-idempotent}
use swarm_z.Missions.Samples.{comes_before}

-- What a run of the outbox computes with.
unfoldable outbox : Unit {0}
unfolding library comes_before Commands.is_valid_id Commands.assert_id Commands.is_ready
    Commands.assert_ready Commands.finite_time Commands.validate_payload Commands.replace_record
    Commands.find_key Commands.attempt_limit Commands.new_record Commands.command_fingerprint
    Commands.validate_command Commands.admit_command Commands.enqueue_mission_command
    Commands.empty_mission_outbox Commands.is_settle Claims.is_delivered Claims.is_claimed
    Claims.is_dead Claims.is_exhausted Claims.lease_duration Claims.claim_record
    Claims.claim_blocker Claims.expire_lease Claims.is_expired Claims.expire_all
    Claims.reaped_snapshot Commands.is_inherited Commands.has_inherited Claims.reap_expired_claims
    Claims.open_claim Claims.claim_mission_command_by_id Delivery.is_lease_of
    Delivery.record_for_claim Delivery.unchanged Delivery.changed_to Delivery.safe_receipt
    Delivery.delivered_record Delivery.deliver_record Delivery.deliver_mission_command
    Delivery.fail_mission_command
outbox = tt

abbrev env : OutboxSurroundings
env = record {
  payload_text = λ command. [];
  fingerprint = λ mission key command. key;
  to_text = λ n. n ∷ [];
  receipt_text = λ receipt. [];
  stable_value = λ value. value;
  compare = comes_before;
}

abbrev command : EnqueueMissionCommand
command = record {
  command = prompt (record {
    session_id = codes "s1";
    task_id = codes "t1";
    attempt_id = codes "a1";
    prompt = codes "Go";
    expect_report = true;
  });
  mission_id = codes "m1";
  idempotency_key = codes "k1";
  max_attempts = none;
}

abbrev holding : MissionOutboxRecord → MissionOutboxSnapshot
holding r = record {
  hydration = OutboxHydration.ready;
  inherits = true;
  records = (codes "r1", r) ∷ [];
}

abbrev queued : MissionOutboxRecord
queued = new_record command (codes "r1") (of_nat 5)

abbrev taken : MissionOutboxRecord
taken = claim_record (codes "w") (codes "c1") (of_nat 6) (of_nat 60000) queued

abbrev settled : MissionOutboxRecord
settled =
    delivered_record env.receipt_text env.stable_value env.compare (of_nat 7)
      ((codes "ok", Json.number (of_nat 1)) ∷ []) taken

run : Steps env empty_mission_outbox (holding settled)
unfolding outbox
run =
    next (holding taken) (holding settled)
      (next (holding queued) (holding taken)
        (next empty_mission_outbox (holding queued) start (
          enqueued command (codes "r1") (of_nat 5)
            (record { snapshot = holding queued; written = queued; changed = true }) refl))
        (claimed_by_id (codes "r1") (codes "w") (codes "c1") (of_nat 6) (of_nat 60000)
          (record {
            snapshot = holding taken;
            claimed = some taken;
            evaluations =
                record { record_id = codes "r1"; eligible = true; reason = OutboxReason.ready }
                ∷ [];
          })
          refl))
      (delivered (codes "r1") (codes "c1") ((codes "ok", Json.number (of_nat 1)) ∷ []) (of_nat 7)
        (record { snapshot = holding settled; written = settled; changed = true }) refl)

-- A failure that is reported late changes nothing.
late_failure : Step env (holding settled) (holding settled)
unfolding outbox
late_failure =
    failed (codes "r1") (codes "c1") (codes "timeout") (of_nat 9) true
      (record { snapshot = holding settled; written = settled; changed = false }) refl

-- Another claim's delivery is refused.
stale-delivery :
    deliver_mission_command env.receipt_text env.stable_value env.compare
      (holding taken)
      (codes "r1")
      (codes "c2")
      []
      (of_nat 7)
    ≡ thrown stale_claim
unfolding outbox
stale-delivery = refl

Steps-IsKeyed_example : IsKeyed (holding settled).records
Steps-IsKeyed_example = Steps-IsKeyed env (holding settled) run

Steps-delivered_example : get (holding settled).records (codes "r1") ≡ some settled
unfolding outbox
Steps-delivered_example =
    Steps-delivered env (holding settled) (holding settled) (codes "r1") settled run
      (next (holding settled) (holding settled) start late_failure) refl refl

abbrev claim : ClaimDecision
claim = record {
  snapshot = holding taken;
  claimed = some taken;
  evaluations =
      record { record_id = codes "r1"; eligible = true; reason = OutboxReason.ready } ∷ [];
}

abbrev lost_claim : ClaimDecision
lost_claim = record {
  snapshot = holding taken;
  claimed = none;
  evaluations =
      record { record_id = codes "r1"; eligible = false; reason = OutboxReason.lease_active } ∷ [];
}

-- Another claim is refused.
refused_claim : Step env (holding taken) (holding taken)
unfolding outbox Claims.after_blocker Claims.refusal Claims.is_attempts_exhausted
refused_claim =
    claimed_by_id (codes "r1") (codes "w2") (codes "c2") (of_nat 7) (of_nat 60000) lost_claim refl

claim-exclusive_example :
    (get (holding taken).records (codes "r1") ≡ some taken) × (lost_claim.claimed ≡ none)
unfolding outbox Claims.after_blocker Claims.refusal Claims.is_attempts_exhausted refused_claim
claim-exclusive_example =
    claim-exclusive env (holding queued) (holding taken) (codes "r1") (codes "w") (codes "c1")
      (of_nat 6) (of_nat 60000) claim taken (codes "w2") (codes "c2") (of_nat 8) (of_nat 60000)
      lost_claim (refl, refl, tt) refl refl
      (after (holding taken) (holding taken) unchanged_yet refused_claim refl) refl refl

enqueue-idempotent_example :
    enqueue_mission_command env.payload_text env.fingerprint
      (holding queued)
      command
      (codes "r2")
      (of_nat 9)
    ≡ done (record { snapshot = holding queued; written = queued; changed = false })
unfolding outbox
enqueue-idempotent_example =
    enqueue-idempotent env.payload_text env.fingerprint empty_mission_outbox command (codes "r1")
      (codes "r2") (of_nat 5) (of_nat 9) (of_nat 9)
      (record { snapshot = holding queued; written = queued; changed = true }) refl refl refl
