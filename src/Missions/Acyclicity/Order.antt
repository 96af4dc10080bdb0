-- ===== src/Missions/Acyclicity/Order.antt =====
-- The visited set of assertAcyclicMissionTasks (src/lib/missions/core.ts) lists each id behind the
-- ids that it depends on.
use swarm_z.Base.{
  ℕ, zero, suc, ◌≡◌, refl, sym, subst, inl, inr, true, false, List, [], ◌∷◌, All, if◌then◌else◌,
  Text, text_eq, text_eq_refl, text_eq_sound, mem, Dict, Bool-cases, arith,
}
use swarm_z.Missions.Types.{MissionTask}
use swarm_z.Missions.Result.{Result, ok, Result-cases}
use swarm_z.Missions.Graph.{followed, visit, visit_all}

-- By one dependency or more, the first id depends on the second.
pub data Reaches (tasks : Dict MissionTask) (mission_id : Text) : Text → Text → Type 0 where
  one : {x d : Text} → mem d (followed tasks mission_id x) ≡ true → Reaches tasks mission_id x d
  more :
      {x d y : Text}
      → mem d (followed tasks mission_id x) ≡ true
      → Reaches tasks mission_id d y
      → Reaches tasks mission_id x y

pub All-mem :
    (id : Text) (ids out : List Text)
    → All (λ x. mem x out ≡ true) ids
    → mem id ids ≡ true
    → mem id out ≡ true
unfolding mem
All-mem id [] out h m = cc
All-mem id (x ∷ ids) out h m = elim (Bool-cases (text_eq x id)) [
  | inl same ↦ subst (λ k. mem k out ≡ true) (text_eq_sound x id same) h.0
  | inr other ↦ All-mem id ids out h.1 (ground arith)
]

module _ (tasks : Dict MissionTask) (mission_id : Text) where
  abbrev pub IsOrdered : List Text → Type 0
  IsOrdered [] = Unit
  IsOrdered (x ∷ xs) =
      (mem x xs ≡ false) × All (λ d. mem d xs ≡ true) (followed tasks mission_id x) × IsOrdered xs

  -- What a visit makes of the visited set, while the calls for `visiting` are under way.
  pub record Visited (visiting visited out : List Text) : Type 0 where
    pub ordered : IsOrdered out
    pub grows : (k : Text) → mem k visited ≡ true → mem k out ≡ true
    pub avoids : (k : Text) → mem k visiting ≡ true → mem k out ≡ false

  Visits : (List Text → Text → Result (List Text)) → List Text → Type 0
  Visits f visiting =
      (id : Text) (visited out : List Text)
      → IsOrdered visited
      → ((k : Text) → mem k visiting ≡ true → mem k visited ≡ false)
      → f visited id ≡ ok out
      → Visited visiting visited out × (mem id out ≡ true)

  visit_all-Visits :
      (f : List Text → Text → Result (List Text)) (visiting : List Text)
      → Visits f visiting
      → (ids visited out : List Text) → IsOrdered visited
      → ((k : Text) → mem k visiting ≡ true → mem k visited ≡ false)
      → visit_all f visited ids ≡ ok out
      → Visited visiting visited out × All (λ x. mem x out ≡ true) ids
  unfolding visit_all Visits
  visit_all-Visits f visiting v [] visited out ordered apart h =
      let same : visited ≡ out = ground arith in
      (
        subst (Visited visiting visited) same
            (record { ordered = ordered; grows = λ k m. m; avoids = apart }),
        tt,
      )
  visit_all-Visits f visiting v (id ∷ ids) visited out ordered apart h =
      elim (Result-cases (f visited id)) [
        | inr (e, x) ↦ absurd (ground arith)
        | inl (mid, x) ↦
            let (a, here) = v id visited mid ordered apart x in
            let (b, rest) =
              visit_all-Visits f visiting v ids mid out a.ordered a.avoids (ground arith) in
            (
              record {
                ordered = b.ordered;
                grows = λ k m. b.grows k (a.grows k m);
                avoids = b.avoids;
              },
              (b.grows id here, rest),
            )
      ]

  apart_more :
      (id : Text) (visiting visited : List Text)
      → mem id visited ≡ false
      → ((k : Text) → mem k visiting ≡ true → mem k visited ≡ false)
      → (k : Text) → mem k (id ∷ visiting) ≡ true
      → mem k visited ≡ false
  unfolding mem
  apart_more id visiting visited unseen apart k m = elim (Bool-cases (text_eq id k)) [
    | inl same ↦ subst (λ j. mem j visited ≡ false) (text_eq_sound id k same) unseen
    | inr other ↦ apart k (ground arith)
  ]

  -- The id joins the set behind what it depends on.
  finish :
      (id : Text) (visiting visited mid : List Text)
      → mem id visiting ≡ false
      → Visited (id ∷ visiting) visited mid
      → All (λ d. mem d mid ≡ true) (followed tasks mission_id id)
      → Visited visiting visited (id ∷ mid) × (mem id (id ∷ mid) ≡ true)
  unfolding mem
  finish id visiting visited mid free a deps = (
    record {
      ordered = (a.avoids id (ground (arith, text_eq_refl id)), deps, a.ordered);
      grows = λ k m. ground (arith, a.grows k m);
      avoids = λ k m. elim (Bool-cases (text_eq id k)) [
        | inl same ↦
            let clash : mem id visiting ≡ true =
              subst (λ j. mem j visiting ≡ true) (sym (text_eq_sound id k same)) m in
            absurd (ground arith)
        | inr other ↦ ground (arith, a.avoids k)
      ];
    },
    ground (arith, text_eq_refl id),
  )

  visit-Visits :
      (depth : ℕ) (visiting : List Text) → Visits (visit tasks mission_id depth visiting) visiting
  unfolding visit Visits
  visit-Visits zero visiting id visited out ordered apart h = cc
  visit-Visits (suc depth) visiting id visited out ordered apart h =
      elim (Bool-cases (mem id visiting)) [
        | inl under_way ↦ absurd (ground arith)
        | inr free ↦ elim (Bool-cases (mem id visited)) [
          | inl seen ↦
              let same : visited ≡ out = ground arith in
              (
                subst (Visited visiting visited) same
                    (record { ordered = ordered; grows = λ k m. m; avoids = apart }),
                rw same at seen,
              )
          | inr unseen ↦
              elim (Result-cases (
                visit_all (visit tasks mission_id depth (id ∷ visiting)) visited
                  (followed tasks mission_id id))) [
                    | inr (e, x) ↦ absurd (ground arith)
                    | inl (mid, x) ↦
                        let (a, deps) =
                          visit_all-Visits (visit tasks mission_id depth (id ∷ visiting))
                            (id ∷ visiting) (visit-Visits depth (id ∷ visiting))
                            (followed tasks mission_id id) visited mid ordered
                            (apart_more id visiting visited unseen apart) x in
                        let same : id ∷ mid ≡ out = ground arith in
                        subst (λ o. Visited visiting visited o × (mem id o ≡ true)) same
                          (finish id visiting visited mid free a deps)
                  ]
        ]
      ]

  pub visit_all-Visited :
      (depth : ℕ) (visiting ids visited out : List Text)
      → IsOrdered visited
      → ((k : Text) → mem k visiting ≡ true → mem k visited ≡ false)
      → visit_all (visit tasks mission_id depth visiting) visited ids ≡ ok out
      → Visited visiting visited out × All (λ x. mem x out ≡ true) ids
  visit_all-Visited depth visiting =
      visit_all-Visits (visit tasks mission_id depth visiting) visiting
        (visit-Visits depth visiting)

  -- The part of an ordered list behind an id.
  below : Text → List Text → List Text
  below x [] = []
  below x (y ∷ ys) = let rest = below x ys in if text_eq y x then ys else rest

  below-IsOrdered : (x : Text) (order : List Text) → IsOrdered order → IsOrdered (below x order)
  unfolding below
  below-IsOrdered x [] o = tt
  below-IsOrdered x (y ∷ ys) o = elim (Bool-cases (text_eq y x)) [
    | inl same ↦ rw same o.2
    | inr other ↦ rw other (below-IsOrdered x ys o.2)
  ]

  below-mem : (x k : Text) (order : List Text) → mem k (below x order) ≡ true → mem k order ≡ true
  unfolding below mem
  below-mem x k [] m = cc
  below-mem x k (y ∷ ys) m = ground (arith, below-mem x k ys)

  below_self : (x : Text) (order : List Text) → IsOrdered order → mem x (below x order) ≡ false
  unfolding below mem
  below_self x [] o = refl
  below_self x (y ∷ ys) o = elim (Bool-cases (text_eq y x)) [
    | inl same ↦
        let at_x = subst (λ k. mem k ys ≡ false) (text_eq_sound y x same) o.0 in rw same at_x
    | inr other ↦ rw other (below_self x ys o.2)
  ]

  below-dependency :
      (x d : Text) (order : List Text)
      → IsOrdered order
      → mem x order ≡ true
      → mem d (followed tasks mission_id x) ≡ true
      → mem d (below x order) ≡ true
  unfolding below mem
  below-dependency x d [] o m f = cc
  below-dependency x d (y ∷ ys) o m f = elim (Bool-cases (text_eq y x)) [
    | inl same ↦
        let deps =
          subst (λ k. All (λ e. mem e ys ≡ true) (followed tasks mission_id k))
            (text_eq_sound y x same) o.1 in
        rw same (All-mem d (followed tasks mission_id x) ys deps f)
    | inr other ↦ rw other (below-dependency x d ys o.2 (ground arith) f)
  ]

  below-Reaches :
      {x y : Text}
      → Reaches tasks mission_id x y
      → (order : List Text) → IsOrdered order
      → mem x order ≡ true
      → mem y (below x order) ≡ true
  below-Reaches (one {x = x} {d = d} f) order o m = below-dependency x d order o m f
  below-Reaches (more {x = x} {d = d} {y = y} f r) order o m = below-mem d y (below x order) (
      below-Reaches r (below x order) (below-IsOrdered x order o)
        (below-dependency x d order o m f))

  -- An ordered list holds no id that reaches itself.
  pub ordered_acyclic :
      (id : Text) (order : List Text)
      → IsOrdered order
      → mem id order ≡ true
      → Reaches tasks mission_id id id
      → ⊥
  ordered_acyclic id order o m loop =
      ground (arith, below_self id order o, below-Reaches loop order o m)
