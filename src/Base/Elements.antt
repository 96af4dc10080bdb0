-- ===== src/Base/Elements.antt =====
-- What holds of all elements of a list that the program filters, sorts or extends.
use Prim.Native.Nat.{suc}
use mathlib.Core.Path.{◌≡◌, refl}
use mathlib.Core.Bool.{Bool, true, false}
use mathlib.Core.List.{List, [], ◌∷◌, ◌++◌, Mem, mem-cons_self, mem-cons_of_mem}
use native.Mathlib.Omega.{arith}
use swarm_z.Base.Tests.{if◌then◌else◌}
use swarm_z.Base.Lists.{length, select, any, insert_by, sort_by, All}

module _ {ℓ} {A : Type ℓ} where
  pub All-if {κ} :
      (b : Bool) (P : A → Type κ) (xs ys : List A)
      → (b ≡ true → All P xs)
      → (b ≡ false → All P ys)
      → All P (if b then xs else ys)
  All-if true P xs ys f g = f refl
  All-if false P xs ys f g = g refl

  pub All-select {κ} :
      (p : A → Bool) (P : A → Type κ) (xs : List A)
      → All P xs
      → All (λ x. P x × (p x ≡ true)) (select p xs)
  unfolding select
  All-select p P [] h = tt
  All-select p P (x ∷ xs) (hx, h) =
      All-if (p x) (λ y. P y × (p y ≡ true)) (x ∷ select p xs) (select p xs)
        (λ e. ((hx, e), All-select p P xs h)) (λ e. All-select p P xs h)

  pub All-mono {κ μ} :
      (P : A → Type κ) (Q : A → Type μ)
      → ((x : A) → P x → Q x)
      → (xs : List A) → All P xs
      → All Q xs
  All-mono P Q f [] h = tt
  All-mono P Q f (x ∷ xs) (hx, h) = (f x hx, All-mono P Q f xs h)

  pub All-every {κ} : (P : A → Type κ) → ((x : A) → P x) → (xs : List A) → All P xs
  All-every P f [] = tt
  All-every P f (x ∷ xs) = (f x, All-every P f xs)

  pub All-both {κ μ} :
      (P : A → Type κ) (Q : A → Type μ) (xs : List A)
      → All P xs
      → All Q xs
      → All (λ x. P x × Q x) xs
  All-both P Q [] h k = tt
  All-both P Q (x ∷ xs) (hx, h) (kx, k) = ((hx, kx), All-both P Q xs h k)

  pub All-append {κ} : (P : A → Type κ) (xs ys : List A) → All P xs → All P ys → All P (xs ++ ys)
  All-append P [] ys h k = k
  All-append P (x ∷ xs) ys (hx, h) k = (hx, All-append P xs ys h k)

  pub All-Mem : (xs : List A) → All (λ x. Mem x xs) xs
  All-Mem [] = tt
  All-Mem (x ∷ xs) = (
    mem-cons_self,
    All-mono (λ y. Mem y xs) (λ y. Mem y (x ∷ xs)) (λ y m. mem-cons_of_mem x m) xs (All-Mem xs),
  )

  pub any-eq-false : (p : A → Bool) (xs : List A) → All (λ x. p x ≡ false) xs → any p xs ≡ false
  unfolding any
  any-eq-false p [] h = refl
  any-eq-false p (x ∷ xs) (hx, h) = ground (arith, hx, any-eq-false p xs h)

  module _ {κ} (before : A → A → Bool) (P : A → Type κ) where
    pub All-insert_by : (x : A) (xs : List A) → P x → All P xs → All P (insert_by before x xs)
    unfolding insert_by
    All-insert_by x [] hx h = (hx, tt)
    All-insert_by x (y ∷ ys) hx (hy, h) =
        All-if (before y x) P (y ∷ insert_by before x ys) (x ∷ y ∷ ys)
          (λ e. (hy, All-insert_by x ys hx h)) (λ e. (hx, (hy, h)))

    pub All-sort_by : (xs : List A) → All P xs → All P (sort_by before xs)
    unfolding sort_by
    All-sort_by [] h = tt
    All-sort_by (x ∷ xs) (hx, h) = All-insert_by x (sort_by before xs) hx (All-sort_by xs h)

    if-All :
        (b : Bool) (xs ys : List A) {Q : Type κ}
        → (All P xs → Q)
        → (All P ys → Q)
        → All P (if b then xs else ys)
        → Q
    if-All true xs ys f g h = f h
    if-All false xs ys f g h = g h

    insert_by-All : (x : A) (xs : List A) → All P (insert_by before x xs) → P x × All P xs
    unfolding insert_by
    insert_by-All x [] (hx, h) = (hx, tt)
    insert_by-All x (y ∷ ys) h =
        if-All (before y x) (y ∷ insert_by before x ys) (x ∷ y ∷ ys)
          (λ k. let r = insert_by-All x ys k.1 in (r.0, (k.0, r.1))) (λ k. (k.0, k.1)) h

    -- What holds of the sorted elements holds of the elements.
    pub sort_by-All : (xs : List A) → All P (sort_by before xs) → All P xs
    unfolding sort_by
    sort_by-All [] h = tt
    sort_by-All (x ∷ xs) h =
        let r = insert_by-All x (sort_by before xs) h in (r.0, sort_by-All xs r.1)

  length-insert_by :
      (before : A → A → Bool) (x : A) (xs : List A)
      → length (insert_by before x xs) ≡ suc (length xs)
  unfolding insert_by
  length-insert_by before x [] = refl
  length-insert_by before x (y ∷ ys) = ground (arith, length-insert_by before x ys)

  pub length-sort_by :
      (before : A → A → Bool) (xs : List A) → length (sort_by before xs) ≡ length xs
  unfolding sort_by
  length-sort_by before [] = refl
  length-sort_by before (x ∷ xs) =
      omega (arith, length-insert_by before x (sort_by before xs), length-sort_by before xs)

module _ {ℓ κ} {A : Type ℓ} (P : A → Type κ) where
  pub append-All : (xs ys : List A) → All P (xs ++ ys) → All P xs × All P ys
  append-All [] ys h = (tt, h)
  append-All (x ∷ xs) ys (hx, h) = let r = append-All xs ys h in ((hx, r.0), r.1)
