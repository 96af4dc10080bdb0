-- ===== src/Missions/Outbox/Steps.antt =====
-- The outbox as a state machine: its operations as steps (src/lib/missions/outbox.ts).
use swarm_z.Base.{ℕ, ◌≡◌, ap, ◌∙◌, Bool, some, Number, Text, Dict, get, values}
use swarm_z.Missions.Types.{Json}
use swarm_z.Missions.Outbox.Types.{
  MissionOutboxCommand, MissionOutboxRecord, MissionOutboxSnapshot, EnqueueMissionCommand,
  ClaimDecision, MutationDecision, OutboxResult, done,
}
use swarm_z.Missions.Outbox.Commands.{find_key, enqueue_mission_command}
use swarm_z.Missions.Outbox.Claims.{
  reap_expired_claims, claim_mission_command_by_id, claim_next_mission_command,
}
use swarm_z.Missions.Outbox.Delivery.{
  changed_to, deliver_mission_command, adopt_mission_command_receipt, fail_mission_command,
  retry_dead_letter,
}
use swarm_z.Missions.Outbox.Keyed.{IsKeyed, get-id, values-get, find-All}
use swarm_z.Missions.Outbox.Writes.{Keeps, Keeps-refl, write-over}

-- The functions that the outbox is parametric in.
pub record OutboxSurroundings : Type 0 where
  pub payload_text : MissionOutboxCommand → Text
  pub fingerprint : Text → Text → MissionOutboxCommand → Text
  pub to_text : ℕ → Text
  pub receipt_text : Dict Json → Text
  pub stable_value : Json → Json
  pub compare : Text → Text → Bool

module _ (env : OutboxSurroundings) where
  -- One call of an operation that did not throw; pruning is left out, and so is a claim that takes a
  -- function of `Object.prototype` for a record.
  pub data Step (s : MissionOutboxSnapshot) : MissionOutboxSnapshot → Type 0 where
    enqueued :
        (command : EnqueueMissionCommand) (id : Text) (now : Number) (d : MutationDecision)
        → enqueue_mission_command env.payload_text env.fingerprint s command id now ≡ done d
        → Step s d.snapshot
    reaped :
        (now : Number) (t : MissionOutboxSnapshot)
        → reap_expired_claims env.to_text s now ≡ done t
        → Step s t
    claimed_by_id :
        (id owner_id claim_id : Text) (now lease_ms : Number) (d : ClaimDecision)
        → claim_mission_command_by_id env.to_text s id owner_id claim_id now lease_ms ≡ done d
        → Step s d.snapshot
    claimed_next :
        (owner_id claim_id : Text) (now lease_ms : Number) (d : ClaimDecision)
        → claim_next_mission_command env.to_text env.compare s owner_id claim_id now lease_ms
          ≡ done d
        → Step s d.snapshot
    delivered :
        (id claim_id : Text) (receipt : Dict Json) (now : Number) (d : MutationDecision)
        → deliver_mission_command env.receipt_text env.stable_value env.compare s id claim_id
            receipt now
          ≡ done d
        → Step s d.snapshot
    failed :
        (id claim_id error : Text) (now : Number) (retryable : Bool) (d : MutationDecision)
        → fail_mission_command env.to_text s id claim_id error now retryable ≡ done d
        → Step s d.snapshot
    adopted :
        (key : Text) (receipt : Dict Json) (now : Number) (d : MutationDecision)
        → adopt_mission_command_receipt env.receipt_text env.stable_value env.compare s key receipt
            now
          ≡ done (some d)
        → Step s d.snapshot
    rearmed :
        (id : Text) (now : Number) (d : MutationDecision)
        → retry_dead_letter s id now ≡ done d
        → Step s d.snapshot

  -- Any number of calls.
  pub data Steps (s : MissionOutboxSnapshot) : MissionOutboxSnapshot → Type 0 where
    start : Steps s s
    next : (t u : MissionOutboxSnapshot) → Steps s t → Step t u → Steps s u

pub done-inj {κ} : {V : Type κ} {a b : V} → OutboxResult.done a ≡ done b → a ≡ b
done-inj h = cc

pub changed_to-Keeps :
    {P : MissionOutboxRecord → Type 0} (s : MissionOutboxSnapshot) (f w : MissionOutboxRecord)
    → IsKeyed s.records
    → get s.records f.id ≡ some f
    → ¬ P f
    → w.id ≡ f.id
    → Keeps P s (changed_to s w).snapshot
unfolding changed_to
changed_to-Keeps s f w h found free own = write-over s s f w (Keeps-refl s h) found free own

-- A record under an id stands under its own.
pub get-own :
    (s : MissionOutboxSnapshot) (id : Text) (r : MissionOutboxRecord)
    → IsKeyed s.records
    → get s.records id ≡ some r
    → get s.records r.id ≡ some r
get-own s id r h e = ap (get s.records) (get-id s.records id r h e) ∙ e

pub find_key-own :
    (s : MissionOutboxSnapshot) (key : Text) (r : MissionOutboxRecord)
    → IsKeyed s.records
    → find_key s key ≡ some r
    → get s.records r.id ≡ some r
unfolding find_key
find_key-own s key r h e =
    find-All (λ (x : MissionOutboxRecord). get s.records x.id ≡ some x) _ (values s.records) r
      (values-get s.records h) e
