-- ===== src/Scheduler/Paths/Overlap.antt =====
-- The overlap test is sound and symmetric (src/lib/scheduler/conflicts.ts).
use mathlib.Core.Path.{fun_ext}
use swarm_z.Base.{
  ◌≡◌, refl, ◌∙◌, ap, sym, inl, inr, Bool, true, false, ◌||◌, List, [], ◌∷◌, any, Text, text_eq,
  text_eq_comm, text_eq_sound, is_prefix, mem, Bool-cases, arith,
}
use swarm_z.Scheduler.Paths.{
  plain, is_wildcard, piece_at, mode_after, pieces_from, glob_pieces, matches, glob_matches,
  path_matches_declared_intent, before_wildcard, static_prefix, segment_prefix_could_overlap,
  globs_overlap, path_intents_overlap, unique_sorted, normalize,
}

module _ {ℓ} {A : Type ℓ} where
  pub any_mono :
      (p q : A → Bool) (xs : List A)
      → ((x : A) → p x ≡ true → q x ≡ true)
      → any p xs ≡ true
      → any q xs ≡ true
  unfolding any
  any_mono p q [] f h = h
  any_mono p q (x ∷ xs) f h = ground (arith, f x, any_mono p q xs f)

  any_or : (p q : A → Bool) (xs : List A) → any (λ x. p x || q x) xs ≡ (any p xs || any q xs)
  unfolding any
  any_or p q [] = refl
  any_or p q (x ∷ xs) = ground (arith, any_or p q xs)

  any_none : (xs : List A) → any (λ x. false) xs ≡ false
  unfolding any
  any_none [] = refl
  any_none (x ∷ xs) = any_none xs

-- Two nested loops may be exchanged.
any_comm {ℓ κ} :
    {A : Type ℓ} {B : Type κ} (g : A → B → Bool) (xs : List A) (ys : List B)
    → any (λ y. any (λ x. g x y) xs) ys ≡ any (λ x. any (g x) ys) xs
unfolding any
any_comm g [] ys = any_none ys
any_comm g (x ∷ xs) ys =
    any_or (g x) (λ y. any (λ z. g z y) xs) ys ∙ ap (λ b. any (g x) ys || b) (any_comm g xs ys)

any_of_mem :
    (q : Text → Bool) (x : Text) (xs : List Text) → mem x xs ≡ true → q x ≡ true → any q xs ≡ true
unfolding any mem
any_of_mem q x [] m h = cc
any_of_mem q x (y ∷ ys) m h = elim (Bool-cases (text_eq y x)) [
  | inl same ↦ rw (text_eq_sound y x same, h)
  | inr other ↦ ground (arith, any_of_mem q x ys)
]

-- The text before the first wildcard of a glob starts each text that the glob matches.
before_wildcard-matches :
    (glob s : Text)
    → matches (pieces_from plain glob) s ≡ true
    → is_prefix (before_wildcard glob) s ≡ true
unfolding matches pieces_from before_wildcard is_prefix piece_at mode_after is_wildcard
before_wildcard-matches [] s h = refl
before_wildcard-matches (g ∷ glob) [] h = ground arith
before_wildcard-matches (g ∷ glob) (c ∷ s) h = ground (arith, before_wildcard-matches glob s)

-- Two texts that start one text start one another.
is_prefix_comparable :
    (a b s : Text)
    → is_prefix a s ≡ true
    → is_prefix b s ≡ true
    → (is_prefix b a || is_prefix a b) ≡ true
unfolding is_prefix
is_prefix_comparable [] [] s h k = refl
is_prefix_comparable [] (b ∷ bs) s h k = refl
is_prefix_comparable (a ∷ as') [] s h k = refl
is_prefix_comparable (a ∷ as') (b ∷ bs) [] h k = cc
is_prefix_comparable (a ∷ as') (b ∷ bs) (c ∷ s) h k = ground (arith, is_prefix_comparable as' bs s)

static_prefix-glob_matches :
    (glob s : Text) → glob_matches glob s ≡ true → is_prefix (static_prefix glob) s ≡ true
unfolding static_prefix glob_matches glob_pieces
static_prefix-glob_matches glob s h = before_wildcard-matches (normalize glob) s h

globs_overlap_sound :
    (left right s : Text)
    → glob_matches left s ≡ true
    → glob_matches right s ≡ true
    → globs_overlap left right ≡ true
unfolding globs_overlap segment_prefix_could_overlap
globs_overlap_sound left right s h k = ground (
  arith,
  is_prefix_comparable (static_prefix left) (static_prefix right) s
      (static_prefix-glob_matches left s h) (static_prefix-glob_matches right s k),
)

any-globs_overlap :
    (s : Text) (xs ys : List Text)
    → any (λ glob. glob_matches glob s) xs ≡ true
    → any (λ glob. glob_matches glob s) ys ≡ true
    → any (λ left. any (globs_overlap left) ys) xs ≡ true
any-globs_overlap s xs ys h k =
    any_mono (λ glob. glob_matches glob s) (λ left. any (globs_overlap left) ys) xs
      (λ left e.
        any_mono (λ glob. glob_matches glob s) (globs_overlap left) ys
          (λ right f. globs_overlap_sound left right s e f) k)
      h

-- Where one path lies in the declared ranges of two tasks, the test of the two reports an overlap.
pub path_intents_overlap_sound :
    (path : Text) (left_files left_globs right_files right_globs : List Text)
    → path_matches_declared_intent path left_files left_globs ≡ true
    → path_matches_declared_intent path right_files right_globs ≡ true
    → path_intents_overlap left_files left_globs right_files right_globs ≡ true
unfolding path_matches_declared_intent path_intents_overlap
path_intents_overlap_sound path lf lg rf rg h k =
    let n = normalize path in
    let a_files = unique_sorted lf in
    let b_files = unique_sorted rf in
    let a_globs = unique_sorted lg in
    let b_globs = unique_sorted rg in
    ground (
      arith,
      any_of_mem (λ (f : Text). mem f b_files) n a_files,
      any_of_mem (λ (f : Text). any (λ g. glob_matches g f) b_globs) n a_files,
      any_of_mem (λ (f : Text). any (λ g. glob_matches g f) a_globs) n b_files,
      any-globs_overlap n a_globs b_globs,
    )

mem-any : (x : Text) (xs : List Text) → mem x xs ≡ any (λ y. text_eq y x) xs
unfolding mem any
mem-any x [] = refl
mem-any x (y ∷ ys) = ap (λ b. text_eq y x || b) (mem-any x ys)

pub any-mem_comm : (xs ys : List Text) → any (λ x. mem x ys) xs ≡ any (λ y. mem y xs) ys
any-mem_comm xs ys =
    ap (λ (p : Text → Bool). any p xs) (fun_ext (λ x. mem-any x ys))
    ∙ sym (any_comm (λ (x y : Text). text_eq y x) xs ys)
    ∙ ap (λ (p : Text → Bool). any p ys)
        (fun_ext (λ y.
          ap (λ (p : Text → Bool). any p xs) (fun_ext (λ x. text_eq_comm y x))
          ∙ sym (mem-any y xs)))

globs_overlap_comm : (left right : Text) → globs_overlap left right ≡ globs_overlap right left
unfolding globs_overlap segment_prefix_could_overlap
globs_overlap_comm left right = ground (arith, text_eq_comm left right)

-- The test of two tasks does not depend on their order.
pub path_intents_overlap_comm :
    (left_files left_globs right_files right_globs : List Text)
    → path_intents_overlap left_files left_globs right_files right_globs
      ≡ path_intents_overlap right_files right_globs left_files left_globs
unfolding path_intents_overlap
path_intents_overlap_comm lf lg rf rg =
    let a_globs = unique_sorted lg in
    let b_globs = unique_sorted rg in
    let swapped : any (λ (l : Text). any (globs_overlap l) b_globs) a_globs
        ≡ any (λ (r : Text). any (globs_overlap r) a_globs) b_globs =
      sym (any_comm globs_overlap a_globs b_globs)
      ∙ ap (λ (p : Text → Bool). any p b_globs)
          (fun_ext (λ r.
            ap (λ (p : Text → Bool). any p a_globs) (fun_ext (λ l. globs_overlap_comm l r)))) in
    ground (arith, any-mem_comm (unique_sorted lf) (unique_sorted rf), swapped)
