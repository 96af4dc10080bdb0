-- ===== src/Missions/Outbox/Finality.antt =====
-- What settling a command writes: never over a delivered record (src/lib/missions/outbox.ts).
use swarm_z.Base.{
  ◌≡◌, refl, ap, ◌∙◌, subst, inl, inr, Bool, true, false, Option, some, Number, Text, Dict, get,
  Bool-cases, Option-cases, arith,
}
use swarm_z.Missions.Types.{Json}
use swarm_z.Missions.Outbox.Types.{
  MissionOutboxRecord, MissionOutboxSnapshot, MutationDecision, OutboxResult, done, ◌>>=◌,
  >>=-eq-done,
}
use swarm_z.Missions.Outbox.Commands.{assert_ready, finite_time, find_key}
use swarm_z.Missions.Outbox.Claims.{is_delivered, is_dead}
use swarm_z.Missions.Outbox.Delivery.{
  record_for_claim, unchanged, changed_to, safe_receipt, delivered_record, deliver_record,
  deliver_mission_command, adopt_mission_command_receipt, rearmed_record, retry_dead_letter,
}
use swarm_z.Missions.Outbox.Keyed.{IsKeyed}
use swarm_z.Missions.Outbox.Writes.{Keeps, Keeps-refl, IsFinal, not-IsFinal}
use swarm_z.Missions.Outbox.Steps.{done-inj, changed_to-Keeps, get-own, find_key-own}

pub record_for_claim-get :
    (s : MissionOutboxSnapshot) (id claim_id : Text) (r : MissionOutboxRecord)
    → record_for_claim s id claim_id ≡ done r
    → get s.records id ≡ some r
unfolding record_for_claim
record_for_claim-get s id claim_id r ran = elim (Option-cases (get s.records id)) [
  | inl e ↦ absurd (ground (arith, e))
  | inr (f, e) ↦ e ∙ ap some (ground (arith, e))
]

some-inj : {a b : MutationDecision} → Option.some a ≡ some b → a ≡ b
some-inj h = cc

pub unchanged-Keeps :
    {P : MissionOutboxRecord → Type 0} (s : MissionOutboxSnapshot) (r : MissionOutboxRecord)
    (d : MutationDecision)
    → IsKeyed s.records
    → OutboxResult.done (unchanged s r) ≡ done d
    → Keeps P s d.snapshot
unfolding unchanged
unchanged-Keeps {P} s r d h e =
    subst (λ (x : MutationDecision). Keeps P s x.snapshot) (done-inj e) (Keeps-refl s h)

pub changed-Keeps :
    {P : MissionOutboxRecord → Type 0} (s : MissionOutboxSnapshot) (f w : MissionOutboxRecord)
    (d : MutationDecision)
    → IsKeyed s.records
    → get s.records f.id ≡ some f
    → ¬ P f
    → w.id ≡ f.id
    → OutboxResult.done (changed_to s w) ≡ done d
    → Keeps P s d.snapshot
changed-Keeps {P} s f w d h found free own e =
    subst (λ (x : MutationDecision). Keeps P s x.snapshot) (done-inj e)
      (changed_to-Keeps s f w h found free own)

pub retry_dead_letter-Keeps :
    {P : MissionOutboxRecord → Type 0} (s : MissionOutboxSnapshot) (id : Text) (now : Number)
    (d : MutationDecision)
    → ((r : MissionOutboxRecord) → is_dead r.status ≡ true → ¬ P r)
    → IsKeyed s.records
    → retry_dead_letter s id now ≡ done d
    → Keeps P s d.snapshot
unfolding retry_dead_letter rearmed_record
retry_dead_letter-Keeps s id now d alive h ran =
    let (ready, a, rest) = >>=-eq-done (assert_ready s) _ ran in
    elim (Option-cases (get s.records id)) [
      | inl e ↦ absurd (ground (arith, e, rest))
      | inr (r, e) ↦ elim (Bool-cases (is_dead r.status)) [
        | inl dead ↦
            let more : (finite_time now >>= λ (time : Number).
            done (changed_to s (rearmed_record time now r)))
                ≡ done d =
              ground (arith, e, dead, rest) in
            let (time, b, last) = >>=-eq-done (finite_time now) _ more in
            changed-Keeps s r (rearmed_record time now r) d h (get-own s id r h e) (alive r dead)
              refl last
        | inr other ↦ unchanged-Keeps s r d h (ground (arith, e, other, rest))
      ]
    ]

module _ (receipt_text : Dict Json → Text) (stable_value : Json → Json)
    (compare : Text → Text → Bool) where
  deliver_record-Keeps :
      {P : MissionOutboxRecord → Type 0} (s : MissionOutboxSnapshot) (receipt : Dict Json)
      (now : Number) (r : MissionOutboxRecord) (d : MutationDecision)
      → (is_delivered r.status ≡ false → ¬ P r)
      → IsKeyed s.records
      → get s.records r.id ≡ some r
      → deliver_record receipt_text stable_value compare s receipt now r ≡ done d
      → Keeps P s d.snapshot
  unfolding deliver_record delivered_record
  deliver_record-Keeps s receipt now r d free h found ran =
      elim (Bool-cases (is_delivered r.status)) [
        | inl e ↦ unchanged-Keeps s r d h (ground (arith, e))
        | inr e ↦
            let more : (safe_receipt receipt_text stable_value compare receipt
                  >>= λ (safe : Dict Json). done (
                      changed_to s (delivered_record receipt_text stable_value compare now safe r)))
                ≡ done d =
              ground (arith, e) in
            let (safe, a, last) =
              >>=-eq-done (safe_receipt receipt_text stable_value compare receipt) _ more in
            changed-Keeps s r (delivered_record receipt_text stable_value compare now safe r) d h
              found (free e) refl last
      ]

  pub deliver_mission_command-Keeps :
      {P : MissionOutboxRecord → Type 0} (s : MissionOutboxSnapshot) (id claim_id : Text)
      (receipt : Dict Json) (now : Number) (d : MutationDecision)
      → ((r : MissionOutboxRecord)
          → record_for_claim s id claim_id ≡ done r
          → is_delivered r.status ≡ false
          → ¬ P r)
      → IsKeyed s.records
      → deliver_mission_command receipt_text stable_value compare s id claim_id receipt now ≡ done d
      → Keeps P s d.snapshot
  unfolding deliver_mission_command
  deliver_mission_command-Keeps s id claim_id receipt now d free h ran =
      let (ready, a, timed) = >>=-eq-done (assert_ready s) _ ran in
      let (time, b, claimed) = >>=-eq-done (finite_time now) _ timed in
      let (r, c, last) = >>=-eq-done (record_for_claim s id claim_id) _ claimed in
      deliver_record-Keeps s receipt now r d (free r c) h
        (get-own s id r h (record_for_claim-get s id claim_id r c)) last

  pub adopt_mission_command_receipt-Keeps :
      (s : MissionOutboxSnapshot) (key : Text) (receipt : Dict Json) (now : Number)
      (d : MutationDecision)
      → IsKeyed s.records
      → adopt_mission_command_receipt receipt_text stable_value compare s key receipt now
        ≡ done (some d)
      → Keeps IsFinal s d.snapshot
  unfolding adopt_mission_command_receipt
  adopt_mission_command_receipt-Keeps s key receipt now d h ran =
      let (ready, a, timed) = >>=-eq-done (assert_ready s) _ ran in
      let (time, b, rest) = >>=-eq-done (finite_time now) _ timed in
      elim (Option-cases (find_key s key)) [
        | inl e ↦ absurd (ground (arith, e, rest))
        | inr (r, e) ↦
            let more : (deliver_record receipt_text stable_value compare s receipt now r
                  >>= λ (decision : MutationDecision). done (some decision))
                ≡ done (some d) =
              ground (arith, e, rest) in
            let (decision, c, last) =
              >>=-eq-done (deliver_record receipt_text stable_value compare s receipt now r) _
                more in
            subst (λ (x : MutationDecision). Keeps IsFinal s x.snapshot) (some-inj (done-inj last))
              (deliver_record-Keeps s receipt now r decision (not-IsFinal r) h
                (find_key-own s key r h e) c)
      ]
