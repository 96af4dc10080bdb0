-- ===== src/Missions/Acyclicity/Outcome.antt =====
-- The calls of assertAcyclicMissionTasks end within their bound, and throw for real cycles only
-- (src/lib/missions/core.ts).
use swarm_z.Base.{
  ℕ, zero, suc, ◌+◌, ◌≤◌, ◌<◌, ◌≡◌, sym, subst, inl, inr, true, false, some, List, [], ◌∷◌, length,
  if◌then◌else◌, Text, text_eq, text_eq_refl, text_eq_sound, text_eq_comm, mem, Dict, get,
  Bool-cases, Option-cases, arith,
}
use swarm_z.Missions.Types.{MissionTask}
use swarm_z.Missions.Result.{Result, ok, err, ◌>>=◌, dependency_cycle}
use swarm_z.Missions.Graph.{followed, visit, visit_all}
use swarm_z.Missions.Acyclicity.Order.{Reaches, one, more}

-- How many entries have a key outside of the list.
pub unvisited {ℓ} : {V : Type ℓ} → List Text → Dict V → ℕ
unvisited visiting [] = 0
unvisited visiting ((j, v) ∷ d) =
    let rest = unvisited visiting d in if mem j visiting then rest else suc rest

pub unvisited-le_length {ℓ} :
    {V : Type ℓ} (visiting : List Text) (d : Dict V) → unvisited visiting d ≤ length d
unfolding unvisited
unvisited-le_length visiting [] = omega arith
unvisited-le_length visiting ((j, v) ∷ d) = ground (arith, unvisited-le_length visiting d)

unvisited_mono {ℓ} :
    {V : Type ℓ} (id : Text) (visiting : List Text) (d : Dict V)
    → unvisited (id ∷ visiting) d ≤ unvisited visiting d
unfolding unvisited mem
unvisited_mono id visiting [] = omega arith
unvisited_mono id visiting ((j, v) ∷ d) = ground (arith, unvisited_mono id visiting d)

unvisited-lt {ℓ} :
    {V : Type ℓ} (id : Text) (visiting : List Text) (d : Dict V) {v : V}
    → get d id ≡ some v
    → mem id visiting ≡ false
    → unvisited (id ∷ visiting) d < unvisited visiting d
unfolding unvisited mem get
unvisited-lt id visiting [] h free = cc
unvisited-lt id visiting ((j, w) ∷ d) {v} h free = elim (Bool-cases (text_eq j id)) [
  | inl same ↦
      let key = text_eq_sound j id same in
      let free' : mem j visiting ≡ false = rw key free in
      ground (arith, text_eq_refl j, unvisited_mono id visiting d, sym key, text_eq_refl id)
  | inr other ↦
      let rest : get d id ≡ some v = ground arith in
      ground (arith, text_eq_comm id j, unvisited-lt id visiting d rest free)
]

module _ (tasks : Dict MissionTask) (mission_id : Text) where
  -- The call returns a set, or throws the cycle error where some id reaches itself.
  pub data Ends : Result (List Text) → Type 0 where
    ended : (out : List Text) → Ends (ok out)
    cyclic : (id : Text) → Reaches tasks mission_id id id → Ends (err dependency_cycle)

  bind-Ends :
      {r : Result (List Text)} (f : List Text → Result (List Text))
      → Ends r
      → ((out : List Text) → Ends (f out))
      → Ends (r >>= f)
  bind-Ends f (ended out) h = h out
  bind-Ends f (cyclic id loop) h = cyclic id loop

  pub visit_all-Ends :
      (f : List Text → Text → Result (List Text)) (ids : List Text)
      → ((id : Text) → mem id ids ≡ true → (visited : List Text) → Ends (f visited id))
      → (visited : List Text) → Ends (visit_all f visited ids)
  unfolding visit_all mem
  visit_all-Ends f [] h visited = ended visited
  visit_all-Ends f (id ∷ ids) h visited =
      bind-Ends (λ visited'. visit_all f visited' ids)
        (h id (ground (arith, text_eq_refl id)) visited)
        (visit_all-Ends f ids (λ k m. h k (ground arith)))

  Reaches-next :
      {x y d : Text}
      → Reaches tasks mission_id x y
      → mem d (followed tasks mission_id y) ≡ true
      → Reaches tasks mission_id x d
  Reaches-next (one f) g = more f (one g)
  Reaches-next (more f r) g = more f (Reaches-next r g)

  -- The ids under way reach the dependency.
  all_reach :
      (id d : Text) (visiting : List Text)
      → ((v : Text) → mem v visiting ≡ true → Reaches tasks mission_id v id)
      → mem d (followed tasks mission_id id) ≡ true
      → (v : Text) → mem v (id ∷ visiting) ≡ true
      → Reaches tasks mission_id v d
  unfolding mem
  all_reach id d visiting chain f v m = elim (Bool-cases (text_eq id v)) [
    | inl same ↦ subst (λ x. Reaches tasks mission_id x d) (text_eq_sound id v same) (one f)
    | inr other ↦ Reaches-next (chain v (ground arith)) f
  ]

  -- An id with dependencies to follow has an entry.
  followed_entry :
      (id d : Text)
      → mem d (followed tasks mission_id id) ≡ true
      → (task : MissionTask) × (get tasks id ≡ some task)
  unfolding followed mem
  followed_entry id d f = elim (Option-cases (get tasks id)) [
    | inl n ↦ absurd (ground arith)
    | inr e ↦ e
  ]

  pub visit-Ends :
      (depth : ℕ) (visiting : List Text)
      → unvisited visiting tasks < depth
      → (id : Text) → ((v : Text) → mem v visiting ≡ true → Reaches tasks mission_id v id)
      → (visited : List Text) → Ends (visit tasks mission_id depth visiting visited id)
  unfolding visit
  visit-Ends zero visiting room id chain visited = absurd (omega arith)
  visit-Ends (suc depth) visiting room id chain visited = elim (Bool-cases (mem id visiting)) [
    | inl under_way ↦ rw under_way (cyclic id (chain id under_way))
    | inr free ↦ elim (Bool-cases (mem id visited)) [
      | inl seen ↦ rw (free, seen) (ended visited)
      | inr unseen ↦
          rw (free, unseen)
            (bind-Ends (λ visited'. ok (id ∷ visited'))
              (visit_all-Ends (visit tasks mission_id depth (id ∷ visiting))
                (followed tasks mission_id id)
                (λ d f.
                  let (task, here) = followed_entry id d f in
                  let less = unvisited-lt id visiting tasks here free in
                  visit-Ends depth (id ∷ visiting) (omega arith) d
                    (all_reach id d visiting chain f))
                visited)
              (λ out. ended (id ∷ out)))
    ]
  ]

  -- The outer loop.
  pub visit_own-Ends :
      (ids : List Text) → Ends (visit_all (visit tasks mission_id (length tasks + 1) []) [] ids)
  unfolding mem
  visit_own-Ends ids =
      visit_all-Ends (visit tasks mission_id (length tasks + 1) []) ids
        (λ id m.
          visit-Ends (length tasks + 1) [] (omega (arith, unvisited-le_length [] tasks)) id
            (λ v e. absurd (ground arith)))
        []
