-- ===== src/Scheduler/Selection/Safety.antt =====
-- An admission plan keeps every cap and every lock (src/lib/scheduler/core.ts).
use mathlib.Core.List.{Mem, append-nil, append_assoc, map-append}
use swarm_z.Base.{
  ℕ, suc, ◌+◌, ◌≤◌, ◌≡◌, refl, sym, ap, ◌∙◌, subst, Bool, false, ◌&&◌, List, [], ◌∷◌, ◌++◌, map,
  length, length-append, All, All-append, append-All, leb, if◌then◌else◌, Text, text_eq,
  text_eq_sound, Dict, get, get-put, Bool-cases, inl, inr, arith, max,
}
use swarm_z.Scheduler.Types.{SchedulableTask, SchedulerInput, ActiveLease, StartDecision}
use swarm_z.Scheduler.Paths.{path_intents_overlap}
use swarm_z.Scheduler.Locks.{lock_keys_for_task, provisional_lease}
use swarm_z.Scheduler.Locks.Apart.{
  share_key, IsApart, conflict_with_leases-none, lock_keys-provisional_lease,
}
use swarm_z.Scheduler.Priority.{project_limit, mission_limit}
use swarm_z.Scheduler.Selection.{
  Round, count_of, count_up, count_leases, refuse, admit_task, start_decision, initial_round,
  capacity_of, final_round, schedule,
}
use swarm_z.Scheduler.Selection.Loop.{IsKept, final_round-kept}

-- Two tasks that may run at once: no lock key in common and, in one project, no declared path in
-- common.
pub record AreApart (d c : SchedulableTask) : Type 0 where
  pub keys : share_key (lock_keys_for_task d) (lock_keys_for_task c) ≡ false
  pub intents :
      (text_eq d.task.root.project_id c.task.root.project_id
        && path_intents_overlap d.task.declared_files d.task.declared_globs c.task.declared_files
            c.task.declared_globs)
      ≡ false

-- Each task is apart from the active leases and from the tasks before it.
abbrev pub Separate : List ActiveLease → List SchedulableTask → List SchedulableTask → Type 0
Separate held before [] = Unit
Separate held before (c ∷ cs) =
    All (IsApart c) held × All (AreApart c) before × Separate held (before ++ c ∷ []) cs

Separate-append :
    (held : List ActiveLease) (before cs : List SchedulableTask) (c : SchedulableTask)
    → Separate held before cs
    → All (IsApart c) held
    → All (AreApart c) (before ++ cs)
    → Separate held before (cs ++ c ∷ [])
Separate-append held before [] c h free apart =
    (free, subst (All (AreApart c)) (append-nil before) apart, tt)
Separate-append held before (d ∷ ds) c (hf, ha, h) free apart = (
  hf,
  ha,
  Separate-append held (before ++ d ∷ []) ds c h free
      (subst (All (AreApart c)) (sym (append_assoc before (d ∷ []) ds)) apart),
)

-- A task that is apart from the leases of tasks is apart from the tasks.
IsApart-AreApart :
    (c : SchedulableTask) (ds : List SchedulableTask)
    → All (IsApart c) (map provisional_lease ds)
    → All (AreApart c) ds
unfolding provisional_lease
IsApart-AreApart c [] h = tt
IsApart-AreApart c (d ∷ ds) (hd, h) = (
  record {
    keys =
        subst (λ keys. share_key (lock_keys_for_task c) keys ≡ false)
          (lock_keys-provisional_lease d) hd.keys;
    intents = hd.intents;
  },
  IsApart-AreApart c ds h,
)

-- How many have the id, of a project or of a mission.
module _ {ℓ} {A : Type ℓ} (key : A → Text) (id : Text) where
  unfoldable pub count_where : List A → ℕ
  count_where [] = 0
  count_where (x ∷ xs) = let rest = count_where xs in if text_eq (key x) id then suc rest else rest

  count_where-append :
      (xs : List A) (x : A)
      → count_where (xs ++ x ∷ [])
        ≡ (if text_eq (key x) id then suc (count_where xs) else count_where xs)
  unfolding count_where
  count_where-append [] x = refl
  count_where-append (y ∷ ys) x = ground (arith, count_where-append ys x)

count_of-empty : (id : Text) → count_of [] id ≡ 0
unfolding count_of get
count_of-empty id = refl

count_of-count_up :
    (counts : Dict ℕ) (k id : Text)
    → count_of (count_up counts k) id
      ≡ (if text_eq k id then suc (count_of counts k) else count_of counts id)
unfolding count_of count_up
count_of-count_up counts k id = ground (arith, get-put counts k id (count_of counts k + 1))

count_of-count_leases :
    (key : ActiveLease → Text) (ls : List ActiveLease) (counts : Dict ℕ) (id : Text)
    → count_of (count_leases key ls counts) id ≡ count_of counts id + count_where key id ls
unfolding count_leases count_where
count_of-count_leases key [] counts id = omega arith
count_of-count_leases key (l ∷ ls) counts id = ground (
  arith,
  count_of-count_leases key ls (count_up counts (key l)) id,
  count_of-count_up counts (key l) id,
  text_eq_sound (key l) id,
)

module _ (input : SchedulerInput) where
  -- The tasks that a project or a mission runs, with those that are started.
  unfoldable pub project_load : Text → List StartDecision → ℕ
  project_load id starts =
      count_where (λ (l : ActiveLease). l.project_id) id input.active_leases
      + count_where (λ (s : StartDecision). s.project_id) id starts

  unfoldable pub mission_load : Text → List StartDecision → ℕ
  mission_load id starts =
      count_where (λ (l : ActiveLease). l.mission_id) id input.active_leases
      + count_where (λ (s : StartDecision). s.mission_id) id starts

  project_load-append :
      (id : Text) (starts : List StartDecision) (s : StartDecision)
      → project_load id (starts ++ s ∷ [])
        ≡ (if text_eq s.project_id id then suc (project_load id starts) else project_load id starts)
  unfolding project_load
  project_load-append id starts s =
      ground (arith, count_where-append (λ (s : StartDecision). s.project_id) id starts s)

  mission_load-append :
      (id : Text) (starts : List StartDecision) (s : StartDecision)
      → mission_load id (starts ++ s ∷ [])
        ≡ (if text_eq s.mission_id id then suc (mission_load id starts) else mission_load id starts)
  unfolding mission_load
  mission_load-append id starts s =
      ground (arith, count_where-append (λ (s : StartDecision). s.mission_id) id starts s)

module _ (compare : Text → Text → Bool) (input : SchedulerInput) where
  -- The slots left and the tasks started make up the slots that were available.
  WithinSlots : Round → Type 0
  WithinSlots round = round.remaining + length round.starts ≡ (capacity_of input).available

  WithinSlots-kept : IsKept compare input WithinSlots
  unfolding WithinSlots refuse admit_task
  WithinSlots-kept = record {
    refused = λ candidate reason round h. h;
    admitted = λ candidate round ok a h.
        ground (arith, a.slot, length-append round.starts (start_decision input candidate ∷ []));
  }

  -- No more tasks are started than slots are available.
  pub length-starts :
      length (schedule compare input).starts ≤ (schedule compare input).capacity.available
  unfolding schedule initial_round WithinSlots
  length-starts =
      let end = final_round-kept compare input WithinSlots WithinSlots-kept (omega arith) in
      omega (arith, end)

  -- The counts are the loads, and no project or mission that gets a task passes its cap.
  record WithinCaps (round : Round) : Type 0 where
    projects : (id : Text) → count_of round.project_counts id ≡ project_load input id round.starts
    missions : (id : Text) → count_of round.mission_counts id ≡ mission_load input id round.starts
    project_caps :
        (id : Text)
        → project_load input id round.starts
          ≤ max (project_limit input.limits id) (project_load input id [])
    mission_caps :
        (id : Text)
        → mission_load input id round.starts
          ≤ max (mission_limit input.limits id) (mission_load input id [])

  WithinCaps-kept : IsKept compare input WithinCaps
  unfolding refuse admit_task start_decision
  WithinCaps-kept = record {
    refused = λ candidate reason round h. record {
      projects = h.projects;
      missions = h.missions;
      project_caps = h.project_caps;
      mission_caps = h.mission_caps;
    };
    admitted = λ candidate round ok a h.
        let s = start_decision input candidate in
        let p = candidate.task.root.project_id in
        let m = candidate.task.mission_id in
        record {
          projects = λ id. ground (
            arith,
            h.projects id,
            h.projects p,
            count_of-count_up round.project_counts p id,
            project_load-append input id round.starts s,
            text_eq_sound p id,
          );
          missions = λ id. ground (
            arith,
            h.missions id,
            h.missions m,
            count_of-count_up round.mission_counts m id,
            mission_load-append input id round.starts s,
            text_eq_sound m id,
          );
          project_caps = λ id. elim (Bool-cases (text_eq p id)) [
            | inl same ↦
                let same_id = text_eq_sound p id same in
                let full =
                  subst
                    (λ (k : Text).
                      leb (project_limit input.limits k) (count_of round.project_counts k) ≡ false)
                    same_id a.project in
                ground (
                  arith,
                  same,
                  full,
                  h.projects id,
                  h.project_caps id,
                  project_load-append input id round.starts s,
                )
            | inr other ↦
                ground
                  (arith, other, h.project_caps id, project_load-append input id round.starts s)
          ];
          mission_caps = λ id. elim (Bool-cases (text_eq m id)) [
            | inl same ↦
                let same_id = text_eq_sound m id same in
                let full =
                  subst
                    (λ (k : Text).
                      leb (mission_limit input.limits k) (count_of round.mission_counts k) ≡ false)
                    same_id a.mission in
                ground (
                  arith,
                  same,
                  full,
                  h.missions id,
                  h.mission_caps id,
                  mission_load-append input id round.starts s,
                )
            | inr other ↦
                ground
                  (arith, other, h.mission_caps id, mission_load-append input id round.starts s)
          ];
        };
  }

  final_round-WithinCaps : WithinCaps (final_round compare input)
  unfolding initial_round project_load mission_load count_where
  final_round-WithinCaps = final_round-kept compare input WithinCaps WithinCaps-kept (record {
    projects = λ id. ground (
      arith,
      count_of-count_leases (λ l. l.project_id) input.active_leases [] id,
      count_of-empty id,
    );
    missions = λ id. ground (
      arith,
      count_of-count_leases (λ l. l.mission_id) input.active_leases [] id,
      count_of-empty id,
    );
    project_caps = λ id. ground arith;
    mission_caps = λ id. ground arith;
  })

  -- A project's running and started tasks are together at most its cap, or as many as ran before; and
  -- so are a mission's.
  pub schedule_within_caps :
      (id : Text)
      → (project_load input id (schedule compare input).starts
          ≤ max (project_limit input.limits id) (project_load input id []))
        × (mission_load input id (schedule compare input).starts
            ≤ max (mission_limit input.limits id) (mission_load input id []))
  unfolding schedule
  schedule_within_caps id =
      (final_round-WithinCaps.project_caps id, final_round-WithinCaps.mission_caps id)

  -- The loop added the leases of the started tasks, each apart from those before it.
  record Granted (round : Round) : Type 0 where
    started : List SchedulableTask
    added : round.active ≡ input.active_leases ++ map provisional_lease started
    starts : map (start_decision input) started ≡ round.starts
    listed : All (λ c. Mem c input.tasks) started
    separate : Separate input.active_leases [] started

  Granted-kept : IsKept compare input Granted
  unfolding refuse admit_task
  Granted-kept = record {
    refused = λ candidate reason round h. record {
      started = h.started;
      added = h.added;
      starts = h.starts;
      listed = h.listed;
      separate = h.separate;
    };
    admitted = λ candidate round ok a h.
        let free =
          append-All (IsApart candidate) input.active_leases (map provisional_lease h.started) (
            subst (All (IsApart candidate)) h.added
              (conflict_with_leases-none compare candidate round.active a.free)) in
        record {
          started = h.started ++ candidate ∷ [];
          added =
              ap (λ (ls : List ActiveLease). ls ++ provisional_lease candidate ∷ []) h.added
              ∙ append_assoc input.active_leases (map provisional_lease h.started)
                  (provisional_lease candidate ∷ [])
              ∙ ap (λ (ls : List ActiveLease). input.active_leases ++ ls)
                  (sym (map-append provisional_lease h.started (candidate ∷ [])));
          starts =
              map-append (start_decision input) h.started (candidate ∷ [])
              ∙ ap (λ (ss : List StartDecision). ss ++ start_decision input candidate ∷ [])
                  h.starts;
          listed =
              All-append (λ c. Mem c input.tasks) h.started (candidate ∷ []) h.listed (ok.0, tt);
          separate =
              Separate-append input.active_leases [] h.started candidate h.separate free.0
                (IsApart-AreApart candidate h.started free.1);
        };
  }

  -- The plan can be carried out at once: its starts are those of tasks of the input of which each shares
  -- no lock key with an active lease or with a task started before it and, within a project, declares
  -- no file and no glob that overlaps with what the lease or the task declares.
  pub schedule-Separate :
      (started : List SchedulableTask) × (map (start_decision input) started
        ≡ (schedule compare input).starts)
      × All (λ c. Mem c input.tasks) started
      × Separate input.active_leases [] started
  unfolding schedule initial_round
  schedule-Separate =
      let end = final_round-kept compare input Granted Granted-kept (record {
        started = [];
        added = sym (append-nil input.active_leases);
        starts = refl;
        listed = tt;
        separate = tt;
      }) in
      (end.started, end.starts, end.listed, end.separate)
