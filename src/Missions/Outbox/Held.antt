-- ===== src/Missions/Outbox/Held.antt =====
-- A claimed record, and what keeps it while its lease lasts (src/lib/missions/outbox.ts).
use swarm_z.Base.{
  ℕ, ◌≡◌, refl, sym, ap, ◌∙◌, subst, inl, inr, true, Option, none, some, Number, lt_num, add_num,
  Text, Dict, get, put, get-put_self, Option-cases, arith,
}
use swarm_z.Missions.Outbox.Types.{
  MissionOutboxRecord, MissionOutboxSnapshot, ClaimDecision, OutboxLease, OutboxLabel, OutboxReason,
  done, >>=-eq-done,
}
use swarm_z.Missions.Outbox.Commands.{assert_id, assert_ready, finite_time, replace_record}
use swarm_z.Missions.Outbox.Claims.{
  is_delivered, is_claimed, is_dead, is_attempts_exhausted, lease_duration, claim_record,
  claim_blocker, expire_lease, expire_all, reaped_snapshot, reap_expired_claims, open_claim,
  claim_mission_command_by_id,
}
use swarm_z.Missions.Outbox.Keyed.{IsKeyed, put-IsKeyed, get-id, expire_all-IsKeyed}
use swarm_z.Missions.Outbox.Writes.{Guards}
use swarm_z.Missions.Outbox.Steps.{done-inj}

-- The record is claimed, with a lease of the claim that lasts until the time.
pub record IsHeld (claim_id : Text) (until : Number) (r : MissionOutboxRecord) : Type 0 where
  pub status : is_claimed r.status ≡ true
  pub lease : OutboxLease
  pub leased : r.lease ≡ some lease
  pub named : lease.claim_id ≡ claim_id
  pub lasts : lease.expires_at ≡ until

claim_record-IsHeld :
    (owner_id claim_id : Text) (now lease_ms : Number) (r : MissionOutboxRecord)
    → IsHeld claim_id
        (add_num now (lease_duration lease_ms))
        (claim_record owner_id claim_id now lease_ms r)
unfolding claim_record is_claimed
claim_record-IsHeld owner_id claim_id now lease_ms r = record {
  status = refl;
  lease = record {
    owner_id = owner_id;
    claim_id = claim_id;
    claimed_at = now;
    expires_at = add_num now (lease_duration lease_ms);
  };
  leased = refl;
  named = refl;
  lasts = refl;
}

pub IsHeld-alive :
    (claim_id : Text) (until : Number) (r : MissionOutboxRecord)
    → is_dead r.status ≡ true
    → ¬ IsHeld claim_id until r
unfolding is_dead is_claimed
IsHeld-alive claim_id until r dead held =
    let claimed = held.status in absurd (ground (arith, dead, claimed))

pub IsHeld-blocked :
    (claim_id : Text) (until now : Number) (r : MissionOutboxRecord)
    → IsHeld claim_id until r
    → claim_blocker now r ≡ some OutboxReason.lease_active
unfolding claim_blocker is_delivered is_dead is_claimed
IsHeld-blocked claim_id until now r held = let claimed = held.status in ground (arith, claimed)

none-some : {r : MissionOutboxRecord} → Option.none ≡ some r → ⊥
none-some h = cc

taken-get :
    (d : Dict MissionOutboxRecord) (owner_id claim_id id : Text) (now lease_ms : Number)
    (f : MissionOutboxRecord)
    → f.id ≡ id
    → get
        (put d
          (claim_record owner_id claim_id now lease_ms f).id
          (claim_record owner_id claim_id now lease_ms f))
        id
      ≡ some (claim_record owner_id claim_id now lease_ms f)
unfolding claim_record
taken-get d owner_id claim_id id now lease_ms f own =
    let taken = claim_record owner_id claim_id now lease_ms f in
    subst (λ (k : Text). get (put d taken.id taken) k ≡ some taken) own
      (get-put_self d taken.id taken)

module _ (to_text : ℕ → Text) where
  pub open_claim-records :
      (s t : MissionOutboxSnapshot) (owner_id claim_id : Text) (now : Number)
      → open_claim to_text s owner_id claim_id now ≡ done t
      → t.records ≡ expire_all to_text now s.records
  unfolding open_claim reap_expired_claims reaped_snapshot
  open_claim-records s t owner_id claim_id now ran =
      let (o, a, rest) = >>=-eq-done (assert_id OutboxLabel.claim_owner owner_id) _ ran in
      let (c, b, timed) = >>=-eq-done (assert_id OutboxLabel.claim_id claim_id) _ rest in
      let (time, e, reap) = >>=-eq-done (finite_time now) _ timed in
      let (ready, f, again) = >>=-eq-done (assert_ready s) _ reap in
      let (time', g, last) = >>=-eq-done (finite_time now) _ again in
      sym (ap (λ (x : MissionOutboxSnapshot). x.records) (done-inj last))

  -- Until its lease runs out a held record is neither expired nor claimed, buried or armed again.
  pub IsHeld-Guards :
      (claim_id : Text) (until now : Number)
      → lt_num now until ≡ true
      → Guards to_text (IsHeld claim_id until) now
  unfolding expire_lease is_attempts_exhausted
  IsHeld-Guards claim_id until now during = record {
    lasting = λ r held.
        let claimed = held.status in
        let leased = held.leased in
        let before : lt_num now held.lease.expires_at ≡ true =
          subst (λ (t : Number). lt_num now t ≡ true) (sym held.lasts) during in
        rw (leased, before, claimed) refl;
    unclaimed = λ r free held.
        let blocked = IsHeld-blocked claim_id until now r held in
        absurd (ground (arith, free, blocked));
    unburied = λ r reason e out held.
        let blocked = IsHeld-blocked claim_id until now r held in
        absurd (ground (arith, e, blocked, out));
    alive = IsHeld-alive claim_id until;
  }

  -- A claim that succeeds leaves the claimed record under the id, and it is held.
  pub claim-taken :
      (s : MissionOutboxSnapshot) (id owner_id claim_id : Text) (now lease_ms : Number)
      (d : ClaimDecision) (r : MissionOutboxRecord)
      → IsKeyed s.records
      → claim_mission_command_by_id to_text s id owner_id claim_id now lease_ms ≡ done d
      → d.claimed ≡ some r
      → IsKeyed d.snapshot.records
        × (get d.snapshot.records id ≡ some r)
        × IsHeld claim_id (add_num now (lease_duration lease_ms)) r
  unfolding claim_mission_command_by_id replace_record
  claim-taken s id owner_id claim_id now lease_ms d r h ran won =
      let (ready, a, named) = >>=-eq-done (assert_ready s) _ ran in
      let (valid, b, opened) = >>=-eq-done (assert_id OutboxLabel.record_id id) _ named in
      let (t, c, rest) = >>=-eq-done (open_claim to_text s owner_id claim_id now) _ opened in
      let keyed : IsKeyed t.records =
        subst IsKeyed (sym (open_claim-records s t owner_id claim_id now c))
          (expire_all-IsKeyed to_text now s.records h) in
      elim (Option-cases (get t.records id)) [
        | inl e ↦ absurd (ground (arith, e, rest))
        | inr (f, e) ↦ elim (Option-cases (claim_blocker now f)) [
          | inr (reason, k) ↦
              let lost : none ≡ d.claimed = ground (arith, e, k, rest) in
              absurd (none-some (lost ∙ won))
          | inl k ↦
              let taken = claim_record owner_id claim_id now lease_ms f in
              let written : put t.records taken.id taken ≡ d.snapshot.records =
                ground (arith, e, k, rest) in
              let is_r : taken ≡ r = ground (arith, e, k, rest) in
              (
                subst IsKeyed written (put-IsKeyed t.records taken keyed),
                subst (λ (x : Dict MissionOutboxRecord). get x id ≡ some taken) written
                      (taken-get t.records owner_id claim_id id now lease_ms f
                        (get-id t.records id f keyed e))
                    ∙ ap some is_r,
                subst (IsHeld claim_id (add_num now (lease_duration lease_ms))) is_r
                    (claim_record-IsHeld owner_id claim_id now lease_ms f),
              )
        ]
      ]
