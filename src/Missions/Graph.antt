-- ===== src/Missions/Graph.antt =====
-- The check that a mission's task dependencies have no cycle (assertAcyclicMissionTasks of
-- src/lib/missions/core.ts), and the edges that the projection derives from them.
use swarm_z.Base.{
  ℕ, zero, suc, ◌+◌, none, some, List, [], ◌∷◌, ◌++◌, length, if◌then◌else◌, Text, codes, text_eq,
  mem, Dict, get, put, values, delete_where,
}
use swarm_z.Missions.Types.{MissionTask, MissionDependency, MissionProjection}
use swarm_z.Missions.Result.{Result, ok, err, ◌>>=◌, dependency_cycle, out_of_fuel}

-- The dependencies that `visit` follows: those of a task of the mission.
unfoldable pub followed : Dict MissionTask → Text → Text → List Text
followed tasks mission_id id = elim (get tasks id) [
  | none ↦ []
  | some task ↦ if text_eq task.mission_id mission_id then task.dependency_ids else []
]

-- `for (const id of ids) visit(id);`. The set `visited` is passed on.
unfoldable pub visit_all :
    (List Text → Text → Result (List Text)) → List Text → List Text → Result (List Text)
visit_all f visited [] = ok visited
visit_all f visited (id ∷ ids) = f visited id >>= λ visited'. visit_all f visited' ids

-- `visit(taskId)`. `visiting` holds the calls under way: the source deletes what it added, so a call
-- leaves the set as it was. The first argument bounds the depth of the calls.
unfoldable pub visit :
    Dict MissionTask → Text → ℕ → List Text → List Text → Text → Result (List Text)
visit tasks mission_id zero visiting visited id = err out_of_fuel
visit tasks mission_id (suc depth) visiting visited id =
    let deeper =
      visit_all (visit tasks mission_id depth (id ∷ visiting)) visited
        (followed tasks mission_id id)
      >>= λ visited'. ok (id ∷ visited') in
    if mem id visiting then err dependency_cycle else if mem id visited then ok visited else deeper

-- The ids that the outer loop visits.
unfoldable pub own_ids : Text → List MissionTask → List Text
own_ids mission_id [] = []
own_ids mission_id (task ∷ tasks) =
    let rest = own_ids mission_id tasks in
    if text_eq task.mission_id mission_id then task.id ∷ rest else rest

-- The visited set at the end. The calls nest once for each task at most, and once more.
unfoldable pub acyclic_order : Dict MissionTask → Text → Result (List Text)
acyclic_order tasks mission_id =
    visit_all (visit tasks mission_id (length tasks + 1) []) [] (own_ids mission_id (values tasks))

unfoldable pub assert_acyclic : Dict MissionTask → Text → Result (Unit {0})
assert_acyclic tasks mission_id = acyclic_order tasks mission_id >>= λ visited. ok tt

unfoldable pub dependency_id : Text → Text → Text
dependency_id task_id depends_on_task_id =
    codes "dependency:" ++ (task_id ++ (codes ":" ++ depends_on_task_id))

unfoldable pub put_edges : MissionTask → List Text → Dict MissionDependency → Dict MissionDependency
put_edges task [] edges = edges
put_edges task (id ∷ ids) edges = put_edges task ids (
    put edges (dependency_id task.id id) (record {
      id = dependency_id task.id id;
      mission_id = task.mission_id;
      task_id = task.id;
      depends_on_task_id = id;
      created_at = task.created_at;
    }))

unfoldable pub replace_task_dependencies : MissionProjection → MissionTask → MissionProjection
replace_task_dependencies state task = record state {
  dependencies =
      put_edges task task.dependency_ids
        (delete_where (λ edge. text_eq edge.task_id task.id) state.dependencies);
}
