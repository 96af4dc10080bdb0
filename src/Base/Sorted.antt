-- ===== src/Base/Sorted.antt =====
-- The order of a sorted list.
use mathlib.Core.Path.{◌≡◌}
use mathlib.Core.Logic.{inl, inr}
use mathlib.Core.Bool.{Bool, true, false}
use mathlib.Core.List.{List, [], ◌∷◌}
use swarm_z.Base.Tests.{Bool-cases}
use swarm_z.Base.Lists.{insert_by, sort_by, All}
use swarm_z.Base.Elements.{All-mono, All-insert_by, All-sort_by}

-- Each element is related to all that follow it.
abbrev pub IsOrdered {ℓ κ} : {A : Type ℓ} → (A → A → Type κ) → List A → Type κ
IsOrdered R [] = Unit
IsOrdered R (x ∷ xs) = All (R x) xs × IsOrdered R xs

-- `before` decides a transitive relation R on the elements with D, up to ties.
module _ {ℓ κ μ} {A : Type ℓ} (before : A → A → Bool) (R : A → A → Type κ) (D : A → Type μ)
    (first : (x y : A) → D x → D y → before x y ≡ true → R x y)
    (second : (x y : A) → D x → D y → before y x ≡ false → R x y)
    (trans : (x y z : A) → R x y → R y z → R x z) where
  insert_by-IsOrdered :
      (x : A) (xs : List A) → D x → All D xs → IsOrdered R xs → IsOrdered R (insert_by before x xs)
  unfolding insert_by
  insert_by-IsOrdered x [] dx ds o = (tt, tt)
  insert_by-IsOrdered x (y ∷ ys) dx (dy, ds) (oy, o) = elim (Bool-cases (before y x)) [
    | inl b ↦
        rw b
          (All-insert_by before (R y) x ys (first y x dy dx b) oy, insert_by-IsOrdered x ys dx ds o)
    | inr b ↦
        let r = second x y dx dy b in
        rw b ((r, All-mono (R y) (R x) (λ z s. trans x y z r s) ys oy), (oy, o))
  ]

  pub sort_by-IsOrdered : (xs : List A) → All D xs → IsOrdered R (sort_by before xs)
  unfolding sort_by
  sort_by-IsOrdered [] ds = tt
  sort_by-IsOrdered (x ∷ xs) (dx, ds) =
      insert_by-IsOrdered x (sort_by before xs) dx (All-sort_by before D xs ds)
        (sort_by-IsOrdered xs ds)
