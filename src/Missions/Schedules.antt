-- ===== src/Missions/Schedules.antt =====
-- The reminders of a mission that wait for delivery (src/lib/missions/schedule-core.ts).
use swarm_z.Base.{
  All-select, All-sort_by, All-mono, max_num, ◌+◌, ◌≡◌, refl, ◌↔◌, ◌⊎◌, Bool, true, false, not,
  ◌&&◌, Option, none, some, is_some, or_else, List, [], ◌∷◌, length, select, sort_by, All,
  if◌then◌else◌, Number, finite, infinity, neg_infinity, nan, of_nat, is_finite, lt_num, le_num,
  add_nat, sub_nat, Text, arith,
}
use swarm_z.Missions.Types.{MissionSchedule}
use swarm_z.Missions.Handlers.{is_time_bad, year_ms}

pub data ScheduleTimeError : Type 0 where
  not_valid in_the_past too_far_ahead : ScheduleTimeError

unfoldable pub validate_schedule_time : Number → Number → Option ScheduleTimeError
validate_schedule_time now at_time =
    if not (is_finite at_time)
    then some not_valid
    else if lt_num at_time (sub_nat now 60000)
    then some in_the_past
    else if lt_num (add_nat now year_ms) at_time
    then some too_far_ahead
    else none

-- `Math.max(item.at, item.nextAttemptAt ?? 0)`: when the reminder may be delivered.
unfoldable pub due_at : MissionSchedule → Number
due_at item = max_num item.at_time (or_else item.next_attempt_at (of_nat 0))

unfoldable pub is_pending : MissionSchedule → Bool
is_pending item = not (is_some item.cancelled_at) && not (is_some item.claimed_at)

unfoldable pub is_due : Number → MissionSchedule → Bool
is_due now item = le_num (due_at item) now

unfoldable pub is_future : Number → MissionSchedule → Bool
is_future now item = lt_num now (due_at item)

pub record SplitSchedules : Type 0 where
  pub due : List MissionSchedule
  pub future : List MissionSchedule

-- `compare a b` says that a comes before b in the order of `localeCompare`.
module _ (compare : Text → Text → Bool) where
  unfoldable pub is_earlier_schedule : MissionSchedule → MissionSchedule → Bool
  is_earlier_schedule left right =
      if lt_num (due_at left) (due_at right)
      then true
      else if lt_num (due_at right) (due_at left)
      then false
      else compare left.id right.id

  unfoldable pub pending_schedules : List MissionSchedule → List MissionSchedule
  pending_schedules schedules = sort_by is_earlier_schedule (select is_pending schedules)

  unfoldable pub split_schedule_due : List MissionSchedule → Number → SplitSchedules
  split_schedule_due schedules now =
      let pending = pending_schedules schedules in
      record { due = select (is_due now) pending; future = select (is_future now) pending }

-- A time is offered to the user exactly when the reducer accepts it for an event of the same instant.
pub validate_schedule_time-is_time_bad :
    (now at_time : Number)
    → (validate_schedule_time now at_time ≡ none) ↔ (is_time_bad now at_time ≡ false)
unfolding validate_schedule_time is_time_bad
validate_schedule_time-is_time_bad now at_time = ground arith

lt_num-le_num :
    (a b : Number)
    → is_finite a ≡ true
    → is_finite b ≡ true
    → ((le_num b a ≡ true) × (lt_num a b ≡ false)) ⊎ ((le_num b a ≡ false) × (lt_num a b ≡ true))
unfolding lt_num le_num is_finite
lt_num-le_num (finite a) (finite b) ha hb = ground arith
lt_num-le_num (finite a) infinity ha hb = cc
lt_num-le_num (finite a) neg_infinity ha hb = cc
lt_num-le_num (finite a) nan ha hb = cc
lt_num-le_num infinity b ha hb = cc
lt_num-le_num neg_infinity b ha hb = cc
lt_num-le_num nan b ha hb = cc

-- A due time that is a number.
unfoldable pub IsTimed : MissionSchedule → Type 0
IsTimed item = is_finite (due_at item) ≡ true

length-split :
    (now : Number) (xs : List MissionSchedule)
    → is_finite now ≡ true
    → All IsTimed xs
    → length (select (is_due now) xs) + length (select (is_future now) xs) ≡ length xs
unfolding select is_due is_future IsTimed
length-split now [] hn h = refl
length-split now (x ∷ xs) hn (hx, h) =
    ground (arith, lt_num-le_num now (due_at x) hn hx, length-split now xs hn h)

-- Each reminder that is due is among those to be delivered: not cancelled, not claimed, and its time
-- has come. At a finite instant and with finite due times, every pending reminder is either due or in the
-- future and none is both: the two lists are together as long as the pending ones.
pub split_schedule_due_complete :
    (compare : Text → Text → Bool) (schedules : List MissionSchedule) (now : Number)
    → is_finite now ≡ true
    → All IsTimed schedules
    → let split = split_schedule_due compare schedules now in
      All (λ x. (is_pending x ≡ true) × (is_due now x ≡ true)) split.due
      × All (λ x. (is_pending x ≡ true) × (is_future now x ≡ true)) split.future
      × (length split.due + length split.future ≡ length (pending_schedules compare schedules))
unfolding split_schedule_due pending_schedules
split_schedule_due_complete compare schedules now hn h =
    let P : MissionSchedule → Type 0 = λ x. is_pending x ≡ true in
    let pending = sort_by (is_earlier_schedule compare) (select is_pending schedules) in
    let all =
      All-sort_by (is_earlier_schedule compare) (λ x. IsTimed x × (is_pending x ≡ true))
        (select is_pending schedules) (All-select is_pending IsTimed schedules h) in
    let good = All-mono (λ x. IsTimed x × (is_pending x ≡ true)) P (λ x g. g.1) pending all in
    let timed =
      All-mono (λ x. IsTimed x × (is_pending x ≡ true)) IsTimed (λ x g. g.0) pending all in
    (
      All-select (is_due now) P pending good,
      All-select (is_future now) P pending good,
      length-split now pending hn timed,
    )
