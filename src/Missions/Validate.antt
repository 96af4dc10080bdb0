-- ===== src/Missions/Validate.antt =====
-- The assertions on identities, texts and task inputs of src/lib/missions/core.ts.
use swarm_z.Base.{
  ℕ, Bool, true, false, not, ◌&&◌, ◌||◌, Option, none, some, List, [], ◌∷◌, ltb, ◌==◌, is_some,
  Number, of_nat, is_finite, is_integer, lt_num, le_num, length, any, every, Text, codes, text_eq,
  is_blank, is_alphanumeric, is_hex_digit, has_duplicates, mem, Dict, get, library,
}
use swarm_z.Missions.Types.{
  MissionTask, MissionTaskInput, MissionPolicy, MissionBudget, MissionRuntimeBinding, TaskRoot,
  MissionProjection,
}
use swarm_z.Missions.Result.{
  Label, Result, ◌>>◌, throw_if, invalid_id, too_long_or_empty, contains_duplicates, too_many_items,
  task_of_another_mission, task_exists, description_too_long, invalid_priority,
  invalid_max_attempts, task_root_missing, task_root_too_long, too_many_dependencies,
  unknown_dependency,
}

-- `/^[first][rest]{0,max}$/`.
matches_name : (ℕ → Bool) → (ℕ → Bool) → ℕ → Text → Bool
matches_name first rest max [] = false
matches_name first rest max (c ∷ cs) = first c && every rest cs && not (ltb max (length cs))

is_id_start : ℕ → Bool
is_id_start c = is_alphanumeric c || c == b'_' || c == b'-'

is_id_part : ℕ → Bool
is_id_part c = is_alphanumeric c || c == b'.' || c == b'_' || c == b':' || c == b'-'

-- `ID_RE` and `FORBIDDEN_IDS`.
unfoldable pub is_valid_id : Text → Bool
unfolding matches_name is_id_start is_id_part
is_valid_id s =
    matches_name is_id_start is_id_part 127 s
    && not (mem s (codes "__proto__" ∷ codes "prototype" ∷ codes "constructor" ∷ []))

unfoldable pub assert_id : Label → Text → Result (Unit {0})
assert_id label value = throw_if (not (is_valid_id value)) (invalid_id label)

unfoldable pub is_bad_text : Text → ℕ → Bool
is_bad_text value max = is_blank value || ltb max (length value)

unfoldable pub assert_string : Label → Text → ℕ → Result (Unit {0})
assert_string label value max = throw_if (is_bad_text value max) (too_long_or_empty label)

unfoldable pub unique : List Text → Label → Result (Unit {0})
unique values label = throw_if (has_duplicates values) (contains_duplicates label)

unfoldable pub assert_string_list : Label → List Text → ℕ → ℕ → Result (Unit {0})
assert_string_list label values max_items max_length = do
  throw_if (ltb max_items (length values)) (too_many_items label)
  throw_if (any (λ value. is_bad_text value max_length) values) (too_long_or_empty label)

-- `!Number.isInteger(n) || n < low || n > high`.
unfoldable pub is_outside : Number → ℕ → ℕ → Bool
is_outside n low high = not (is_integer n) || lt_num n (of_nat low) || lt_num (of_nat high) n

-- The test of one dependency id: it is not a task of the mission.
unfoldable pub is_foreign : Dict MissionTask → Text → Text → Bool
is_foreign tasks mission_id id = elim (get tasks id) [
  | none ↦ true
  | some task ↦ not (text_eq task.mission_id mission_id)
]

unfoldable pub assert_dependencies : Dict MissionTask → Text → List Text → Result (Unit {0})
assert_dependencies tasks mission_id ids =
    throw_if (any (is_foreign tasks mission_id) ids) unknown_dependency

unfoldable pub is_root_blank : TaskRoot → Bool
is_root_blank root = is_blank root.path || is_blank root.project_id

unfoldable pub is_root_too_long : TaskRoot → Bool
is_root_too_long root = ltb 8192 (length root.path) || ltb 200 (length root.project_id)

-- The three lists that a new and an edited task share.
unfoldable pub assert_task_lists : List Text → List Text → List Text → Result (Unit {0})
assert_task_lists criteria files globs = do
  assert_string_list Label.acceptance_criterion criteria 100 1000
  assert_string_list Label.declared_file files 1000 2000
  assert_string_list Label.declared_glob globs 1000 2000

unfoldable pub assert_task_input : MissionProjection → Text → MissionTaskInput → Result (Unit {0})
assert_task_input state mission_id task = do
  assert_id Label.task_id task.id
  throw_if (not (text_eq task.mission_id mission_id)) task_of_another_mission
  throw_if (is_some (get state.tasks task.id)) task_exists
  assert_string Label.task_title task.title 300
  throw_if (ltb 20000 (length task.description)) description_too_long
  assert_string Label.task_role task.role 100
  throw_if (is_outside task.priority 0 100) invalid_priority
  throw_if (is_outside task.max_attempts 1 20) invalid_max_attempts
  throw_if (is_root_blank task.root) task_root_missing
  throw_if (is_root_too_long task.root) task_root_too_long
  assert_task_lists task.acceptance_criteria task.declared_files task.declared_globs
  throw_if (ltb 500 (length task.dependency_ids)) too_many_dependencies
  unique task.dependency_ids Label.task_dependencies
  assert_dependencies state.tasks mission_id task.dependency_ids

is_environment_part : ℕ → Bool
is_environment_part c = is_alphanumeric c || c == b'.' || c == b'_' || c == b'-'

-- `/^sha256:[0-9a-f]{64}$/`.
is_fingerprint : Text → Bool
is_fingerprint s = strip (codes "sha256:") s
  where
    strip : Text → Text → Bool
    strip [] t = every is_hex_digit t && length t == 64
    strip (c ∷ cs) [] = false
    strip (c ∷ cs) (d ∷ ds) = c == d && strip cs ds

is_binding_bad : MissionRuntimeBinding → Bool
is_binding_bad b =
    not (matches_name is_alphanumeric is_environment_part 79 b.environment_id)
    || not (is_fingerprint b.spec_fingerprint)

are_tools_bad : List Text → Bool
are_tools_bad tools =
    ltb 100 (length tools) || any (λ tool. not (matches_name is_id_start is_id_part 199 tool)) tools

are_commands_bad : List Text → Bool
are_commands_bad commands =
    ltb 20 (length commands) || any (λ command. is_bad_text command 1000) commands

-- `x !== undefined && test(x)`.
given_and {ℓ} : {A : Type ℓ} → (A → Bool) → Option A → Bool
given_and p none = false
given_and p (some a) = p a

-- "mission execution policy is invalid"; the tests of enumerated fields hold by their types.
unfoldable pub is_policy_invalid : MissionPolicy → Bool
unfolding given_and are_tools_bad are_commands_bad is_binding_bad matches_name is_id_start
    is_id_part is_environment_part is_fingerprint
is_policy_invalid policy =
    given_and are_tools_bad policy.allowed_tools
    || given_and are_commands_bad policy.quality_commands
    || given_and is_binding_bad policy.runtime_environment

unfoldable pub is_budget_invalid : MissionBudget → Bool
unfolding given_and
is_budget_invalid budget =
    given_and (λ n. not (is_integer n) || lt_num n (of_nat 1)) budget.max_attempts_total
    || given_and (λ n. not (is_finite n) || le_num n (of_nat 0)) budget.max_active_minutes
    || given_and (λ n. not (is_integer n) || lt_num n (of_nat 1)) budget.max_tokens
    || given_and (λ n. not (is_finite n) || le_num n (of_nat 0)) budget.max_cost_usd

-- What a run of the assertions computes with.
unfoldable pub validation : Unit {0}
unfolding matches_name is_id_start is_id_part is_valid_id assert_id is_bad_text assert_string unique
    assert_string_list is_outside is_foreign assert_dependencies is_root_blank is_root_too_long
    assert_task_lists assert_task_input is_environment_part is_fingerprint is_binding_bad
    are_tools_bad are_commands_bad given_and is_policy_invalid is_budget_invalid library
validation = tt
