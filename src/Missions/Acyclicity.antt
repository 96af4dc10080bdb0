-- ===== src/Missions/Acyclicity.antt =====
-- What assertAcyclicMissionTasks decides (src/lib/missions/core.ts).
pub mod Order
mod Outcome
use swarm_z.Base.{
  ℕ, ◌+◌, ◌<◌, ◌≡◌, refl, sym, ◌∙◌, ◌⊎◌, inl, inr, Bool, true, false, List, [], length, Text, mem,
  Dict, values, arith,
}
use swarm_z.Missions.Types.{MissionTask}
use swarm_z.Missions.Result.{Result, ok, err, ◌>>=◌, dependency_cycle, Result-cases}
use swarm_z.Missions.Graph.{followed, visit, visit_all, own_ids, acyclic_order, assert_acyclic}
use swarm_z.Missions.Acyclicity.Order.{Reaches, visit_all-Visited, ordered_acyclic, All-mem}
use swarm_z.Missions.Acyclicity.Outcome.{Ends, ended, cyclic, visit_own-Ends}

-- The check's result, given the loop's.
abbrev checked : Result (List Text) → Result (Unit {0})
checked r = r >>= λ visited. ok tt

module _ (tasks : Dict MissionTask) (mission_id : Text) where
  -- Where the check accepts, no task of the mission reaches itself over dependencies that the check
  -- follows.
  pub assert_acyclic_sound :
      (id : Text)
      → assert_acyclic tasks mission_id ≡ ok tt
      → mem id (own_ids mission_id (values tasks)) ≡ true
      → Reaches tasks mission_id id id
      → ⊥
  unfolding assert_acyclic acyclic_order mem
  assert_acyclic_sound id h own loop = elim (Result-cases (acyclic_order tasks mission_id)) [
    | inr (e, x) ↦ absurd (ground arith)
    | inl (order, x) ↦
        let v =
          visit_all-Visited tasks mission_id (length tasks + 1) []
            (own_ids mission_id (values tasks)) [] order tt (λ k e. refl) x in
        ordered_acyclic tasks mission_id id order v.0.ordered
          (All-mem id (own_ids mission_id (values tasks)) order v.1 own) loop
  ]

  -- What the outcome of the loop makes of the check.
  settle :
      {r : Result (List Text)}
      → Ends tasks mission_id r
      → (checked r ≡ ok tt)
        ⊎ ((checked r ≡ err dependency_cycle) × (id : Text) × Reaches tasks mission_id id id)
  settle (ended out) = inl refl
  settle (cyclic id loop) = inr (refl, id, loop)

  -- The check always ends, within its bound on nested calls, and it refuses only real cycles: it
  -- accepts, or it throws the cycle error and some id reaches itself.
  pub assert_acyclic_total :
      (assert_acyclic tasks mission_id ≡ ok tt)
      ⊎ ((assert_acyclic tasks mission_id ≡ err dependency_cycle)
          × (id : Text) × Reaches tasks mission_id id id)
  unfolding assert_acyclic acyclic_order
  assert_acyclic_total =
      settle (visit_own-Ends tasks mission_id (own_ids mission_id (values tasks)))
