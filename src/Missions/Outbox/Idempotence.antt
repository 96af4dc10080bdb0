-- ===== src/Missions/Outbox/Idempotence.antt =====
-- A command is queued once (src/lib/missions/outbox.ts).
use swarm_z.Base.{
  ◌≡◌, refl, sym, ap, ◌∙◌, subst, inl, inr, Bool, true, false, none, some, List, [], ◌∷◌, ◌++◌,
  find, Number, Text, text_eq, text_eq_refl, get, values, values-put_new, Bool-cases, Option-cases,
  arith,
}
use swarm_z.Missions.Outbox.Types.{
  MissionOutboxCommand, MissionOutboxRecord, MissionOutboxSnapshot, EnqueueMissionCommand,
  MutationDecision, OutboxLabel, done, >>=-eq-done,
}
use swarm_z.Missions.Outbox.Commands.{
  is_valid_id, assert_id, is_ready, assert_ready, finite_time, validate_command, find_key,
  replace_record, new_record, reuse_record, admit_command, enqueue_mission_command,
  record_fingerprint, command_fingerprint,
}

find-snoc :
    (p : MissionOutboxRecord → Bool) (xs : List MissionOutboxRecord) (x : MissionOutboxRecord)
    → find p xs ≡ none
    → p x ≡ true
    → find p (xs ++ x ∷ []) ≡ some x
unfolding find
find-snoc p [] x none_before here = ground (arith, here)
find-snoc p (y ∷ ys) x none_before here = elim (Bool-cases (p y)) [
  | inl e ↦ absurd (ground (arith, e, none_before))
  | inr e ↦ rw e (find-snoc p ys x (ground (arith, e, none_before)) here)
]

ready-true :
    (s : MissionOutboxSnapshot) {v : Unit {0}}
    → assert_ready s ≡ done v
    → is_ready s.hydration ≡ true
unfolding assert_ready
ready-true s h = ground arith

module _ (payload_text : MissionOutboxCommand → Text)
    (fingerprint : Text → Text → MissionOutboxCommand → Text) where
  -- What an accepted command leaves: the record of its key, with its fingerprint.
  record Queued (command : EnqueueMissionCommand) (s : MissionOutboxSnapshot) (d : MutationDecision)
      : Type 0 where
    ready : is_ready d.snapshot.hydration ≡ is_ready s.hydration
    found : find_key d.snapshot command.idempotency_key ≡ some d.written
    same :
        text_eq
          (record_fingerprint payload_text fingerprint d.written)
          (command_fingerprint payload_text fingerprint command)
        ≡ true

  reuse-Queued :
      (s : MissionOutboxSnapshot) (command : EnqueueMissionCommand) (r : MissionOutboxRecord)
      (d : MutationDecision)
      → find_key s command.idempotency_key ≡ some r
      → reuse_record payload_text fingerprint s command r ≡ done d
      → Queued command s d
  unfolding reuse_record
  reuse-Queued s command r d e ran =
      let snapshot : s ≡ d.snapshot = ground arith in
      let written : r ≡ d.written = ground arith in
      record {
        ready = ap (λ (x : MissionOutboxSnapshot). is_ready x.hydration) (sym snapshot);
        found =
            subst
              (λ (x : MissionOutboxSnapshot). find_key x command.idempotency_key ≡ some d.written)
              snapshot (e ∙ ap some written);
        same =
            subst
              (λ (x : MissionOutboxRecord).
                text_eq (record_fingerprint payload_text fingerprint x)
                  (command_fingerprint payload_text fingerprint command)
                ≡ true)
              written (ground arith);
      }

  new-Queued :
      (s : MissionOutboxSnapshot) (command : EnqueueMissionCommand) (id : Text) (now : Number)
      → find_key s command.idempotency_key ≡ none
      → get s.records id ≡ none
      → Queued command s (record {
        snapshot = replace_record s (new_record command id now);
        written = new_record command id now;
        changed = true;
      })
  unfolding replace_record new_record find_key record_fingerprint command_fingerprint
  new-Queued s command id now e new = record {
    ready = refl;
    found =
        let p = λ (r : MissionOutboxRecord). text_eq r.idempotency_key command.idempotency_key in
        let w = new_record command id now in
        ap (find p) (values-put_new s.records id w new)
        ∙ find-snoc p (values s.records) w e (text_eq_refl command.idempotency_key);
    same = text_eq_refl (command_fingerprint payload_text fingerprint command);
  }

  admit-Queued :
      (s : MissionOutboxSnapshot) (command : EnqueueMissionCommand) (id : Text) (now : Number)
      (d : MutationDecision)
      → find_key s command.idempotency_key ≡ none
      → admit_command payload_text fingerprint s command id now ≡ done d
      → Queued command s d
  unfolding admit_command
  admit-Queued s command id now d e ran =
      let new : get s.records id ≡ none = ground (arith, ran) in
      let made : record {
        snapshot = replace_record s (new_record command id now);
        written = new_record command id now;
        changed = true;
      }
          ≡ d =
        ground (arith, ran) in
      subst (Queued command s) made (new-Queued s command id now e new)

  -- Once a command was accepted, sending it again, under any valid record id and at any valid time,
  -- changes nothing and answers with the record that it got.
  pub enqueue-idempotent :
      (s : MissionOutboxSnapshot) (command : EnqueueMissionCommand) (id id' : Text)
      (now now' time : Number) (d : MutationDecision)
      → enqueue_mission_command payload_text fingerprint s command id now ≡ done d
      → is_valid_id id' ≡ true
      → finite_time now' ≡ done time
      → enqueue_mission_command payload_text fingerprint d.snapshot command id' now'
        ≡ done (record { snapshot = d.snapshot; written = d.written; changed = false })
  unfolding enqueue_mission_command assert_ready assert_id reuse_record
  enqueue-idempotent s command id id' now now' time d ran valid timely =
      let (ready, a, checked) = >>=-eq-done (assert_ready s) _ ran in
      let (fine, b, named) =
        >>=-eq-done (validate_command payload_text fingerprint command) _ checked in
      let (good, c, timed) = >>=-eq-done (assert_id OutboxLabel.record_id id) _ named in
      let (t, e, rest) = >>=-eq-done (finite_time now) _ timed in
      let q : Queued command s d = elim (Option-cases (find_key s command.idempotency_key)) [
        | inr (r, k) ↦ reuse-Queued s command r d k (ground (arith, k, rest))
        | inl k ↦ admit-Queued s command id now d k (ground (arith, k, rest))
      ] in
      let open_again : is_ready d.snapshot.hydration ≡ true = q.ready ∙ ready-true s a in
      rw (open_again, b, valid, timely, q.found, q.same) refl
