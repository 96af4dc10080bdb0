-- ===== src/Missions/Effects/Schedules.antt =====
-- How a handler writes the schedules (src/lib/missions/core.ts).
use swarm_z.Base.{
  ◌≡◌, sym, ◌∙◌, subst, ◌⊎◌, inl, inr, Bool, true, false, Option, none, some, is_some, or_else,
  Number, Text, text_eq, text_eq_refl, text_eq_sound, trim, get, put, get-put, Bool-cases,
  Option-cases, ◌+◌, arith,
}
use swarm_z.Missions.Types.{
  Mission, MissionSchedule, MissionProjection, MissionEvent, MissionEventPayload, schedule_created,
  schedule_cancelled, schedule_claimed, schedule_delivery_failed, schedule_fired,
  candidate_batch_selected, candidate_batch_overridden, mission_created,
}
use swarm_z.Missions.Result.{ok}
use swarm_z.Missions.Handlers.{
  Surroundings, own, own_schedule, new_schedule, put_schedule, create_schedule, cancel_schedule,
  claim_schedule, fail_delivery, fire_schedule,
}
use swarm_z.Missions.Reduce.{handle}
use swarm_z.Missions.Effects.Opened.{handlers}
use swarm_z.Missions.Effects.Frame.{choose_candidate-frame}

-- A schedule stands under its own id, and a fired one holds a claim.
pub record IsSound (k : Text) (x : MissionSchedule) : Type 0 where
  pub keyed : text_eq x.id k ≡ true
  pub fired_claimed : is_some x.claimed_at ≡ false → is_some x.fired_at ≡ false

abbrev pub SchedulesSound : MissionProjection → Type 0
SchedulesSound s = (k : Text) (x : MissionSchedule) → get s.schedules k ≡ some x → IsSound k x

-- No fired schedule stands under the id.
abbrev pub IsUnfired : Option MissionSchedule → Type 0
IsUnfired none = Unit
IsUnfired (some x) = is_some x.fired_at ≡ false

-- A sound schedule is written under its id, over no fired one.
pub record ScheduleWrite (s s' : MissionProjection) : Type 0 where
  pub schedule : MissionSchedule
  pub written : s'.schedules ≡ put s.schedules schedule.id schedule
  pub unfired : IsUnfired (get s.schedules schedule.id)
  pub sound : IsSound schedule.id schedule

module _ (event : MissionEvent) (s : MissionProjection) {s' : MissionProjection} where
  create_schedule-write :
      (mission : Mission) (x : MissionSchedule)
      → create_schedule event mission s x ≡ ok s'
      → ScheduleWrite s s'
  unfolding create_schedule put_schedule new_schedule
  create_schedule-write mission x h = record {
    schedule = new_schedule x;
    written = ground arith;
    unfired = fresh (ground arith);
    sound = record { keyed = text_eq_refl x.id; fired_claimed = λ e. ground arith };
  }
    where
      fresh : get s.schedules x.id ≡ none → IsUnfired (get s.schedules x.id)
      fresh n = rw n tt

  module _ (sound : SchedulesSound s) (id : Text) where
    -- An update of the schedule found under `id`.
    updated :
        (x y : MissionSchedule)
        → get s.schedules id ≡ some x
        → text_eq y.id x.id ≡ true
        → s'.schedules ≡ put s.schedules y.id y
        → is_some x.fired_at ≡ false
        → (is_some y.claimed_at ≡ false → is_some y.fired_at ≡ false)
        → ScheduleWrite s s'
    updated x y here same written unfired holds =
        let key = text_eq_sound x.id id (sound id x here).keyed in
        let at_id = text_eq_sound y.id x.id same ∙ key in
        record {
          schedule = y;
          written = written;
          unfired = rw (at_id, here) unfired;
          sound = record { keyed = text_eq_refl y.id; fired_claimed = holds };
        }

    cancel_schedule-write : (t : Number) → cancel_schedule event s id t ≡ ok s' → ScheduleWrite s s'
    unfolding cancel_schedule put_schedule own_schedule own
    cancel_schedule-write t h = elim (Option-cases (get s.schedules id)) [
      | inl n ↦ absurd (ground arith)
      | inr (x, here) ↦
          let free : is_some x.fired_at ≡ false = (sound id x here).fired_claimed (ground arith) in
          updated x (record x { cancelled_at = some t }) here (text_eq_refl x.id) (ground arith)
            free (λ e. free)
    ]

    claim_schedule-write : (t : Number) → claim_schedule event s id t ≡ ok s' → ScheduleWrite s s'
    unfolding claim_schedule put_schedule own_schedule own
    claim_schedule-write t h = elim (Option-cases (get s.schedules id)) [
      | inl n ↦ absurd (ground arith)
      | inr (x, here) ↦
          let free : is_some x.fired_at ≡ false = (sound id x here).fired_claimed (ground arith) in
          updated x
            (record x {
              claimed_at = some t;
              delivery_attempts = some (or_else x.delivery_attempts 0 + 1);
              last_delivery_error = none;
            })
            here (text_eq_refl x.id) (ground arith) free (λ e. free)
    ]

    fail_delivery-write :
        (t : Number) (e : Text) (n : Number)
        → fail_delivery event s id t e n ≡ ok s'
        → ScheduleWrite s s'
    unfolding fail_delivery put_schedule own_schedule own
    fail_delivery-write t e n h = elim (Option-cases (get s.schedules id)) [
      | inl absent ↦ absurd (ground arith)
      | inr (x, here) ↦
          let free : is_some x.fired_at ≡ false = ground arith in
          updated x
            (record x {
              claimed_at = none;
              last_delivery_error = some (trim e);
              next_attempt_at = some n;
            })
            here (text_eq_refl x.id) (ground arith) free (λ c. free)
    ]

    fire_schedule-write : (t : Number) → fire_schedule event s id t ≡ ok s' → ScheduleWrite s s'
    unfolding fire_schedule put_schedule own_schedule own
    fire_schedule-write t h = elim (Option-cases (get s.schedules id)) [
      | inl n ↦ absurd (ground arith)
      | inr (x, here) ↦
          let free : is_some x.fired_at ≡ false = ground arith in
          let held : is_some x.claimed_at ≡ true = ground arith in
          updated x
            (record x { fired_at = some t; last_delivery_error = none; next_attempt_at = none })
            here (text_eq_refl x.id) (ground arith) free (λ c. ground arith)
    ]

-- A handler writes at most one schedule.
pub handle-schedules :
    (env : Surroundings) (event : MissionEvent) (mission : Mission) (s : MissionProjection)
    (p : MissionEventPayload) {s' : MissionProjection}
    → SchedulesSound s
    → handle env event mission s p ≡ ok s'
    → (s'.schedules ≡ s.schedules) ⊎ ScheduleWrite s s'
unfolding handlers
handle-schedules env event mission s (mission_created i) sound h = inl (ground arith)
handle-schedules env event mission s (schedule_created x) sound h =
    inr (create_schedule-write event s mission x h)
handle-schedules env event mission s (schedule_cancelled id t) sound h =
    inr (cancel_schedule-write event s sound id t h)
handle-schedules env event mission s (schedule_claimed id t) sound h =
    inr (claim_schedule-write event s sound id t h)
handle-schedules env event mission s (schedule_delivery_failed id t e n) sound h =
    inr (fail_delivery-write event s sound id t e n h)
handle-schedules env event mission s (schedule_fired id t) sound h =
    inr (fire_schedule-write event s sound id t h)
handle-schedules env event mission s (candidate_batch_selected b a t) sound h =
    inl (choose_candidate-frame env event s b a none t h).2
handle-schedules env event mission s (candidate_batch_overridden b a r t) sound h =
    inl (choose_candidate-frame env event s b a (some r) t h).2
handle-schedules env event mission s _ sound h = inl (ground arith)

-- A write over no fired schedule leaves the fired ones as they are.
pub ScheduleWrite-fired :
    {s s' : MissionProjection}
    → ScheduleWrite s s'
    → (k : Text) (x : MissionSchedule) → get s.schedules k ≡ some x
    → is_some x.fired_at ≡ true
    → get s'.schedules k ≡ some x
ScheduleWrite-fired {s} {s'} w k x here fired = elim (Bool-cases (text_eq w.schedule.id k)) [
  | inl same ↦
      let at_key : get s.schedules w.schedule.id ≡ some x =
        rw (text_eq_sound w.schedule.id k same) here in
      absurd (true_ne_false (sym fired ∙ subst IsUnfired at_key w.unfired))
  | inr other ↦ rw (w.written, get-put s.schedules w.schedule.id k w.schedule, other) here
]
  where
    true_ne_false : ◌≡◌ {A = Bool} true false → ⊥
    true_ne_false e = cc

pub ScheduleWrite-sound :
    {s s' : MissionProjection} → ScheduleWrite s s' → SchedulesSound s → SchedulesSound s'
ScheduleWrite-sound {s} {s'} w sound k x e = elim (Bool-cases (text_eq w.schedule.id k)) [
  | inl same ↦
      let found : some w.schedule ≡ some x =
        rw (w.written, get-put s.schedules w.schedule.id k w.schedule, same) at e in
      let it : w.schedule ≡ x = cc in
      subst (IsSound k) it (subst (λ j. IsSound j w.schedule) (text_eq_sound _ k same) w.sound)
  | inr other ↦
      sound k x (rw (w.written, get-put s.schedules w.schedule.id k w.schedule, other) at e)
]
