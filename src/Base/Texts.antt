-- ===== src/Base/Texts.antt =====
-- JavaScript strings as lists of UTF-16 code units, with the operations that the program uses.
use Prim.Native.Nat.{ℕ}
use Prim.Native.Char.{code}
use Prim.Native.String.{String}
use mathlib.Core.Path.{◌≡◌, refl, subst}
use mathlib.Core.Logic.{◌↔◌, inl, inr}
use mathlib.Core.Bool.{Bool, true, false, ◌&&◌, ◌||◌}
use mathlib.Core.Option.{Option, none, some}
use mathlib.Core.List.{List, [], ◌∷◌, reverse}
use native.Mathlib.Omega.{arith}
use swarm_z.Base.Lists.{All}
use swarm_z.Base.Elements.{All-if}
use swarm_z.Base.Tests.{Bool-cases, ltb, leb, ◌==◌, if◌then◌else◌}

abbrev pub Text : Type 0
Text = List ℕ

-- A literal, for ASCII text.
abbrev pub codes : String → Text
codes String.[] = []
codes (String.◌∷◌ c s) = code c ∷ codes s

-- `a === b`.
unfoldable pub text_eq : Text → Text → Bool
text_eq [] [] = true
text_eq [] (b ∷ bs) = false
text_eq (a ∷ as') [] = false
text_eq (a ∷ as') (b ∷ bs) = a == b && text_eq as' bs

pub text_eq_refl : (a : Text) → text_eq a a ≡ true
unfolding text_eq
text_eq_refl [] = refl
text_eq_refl (a ∷ as') = ground (arith, text_eq_refl as')

pub text_eq_sound : (a b : Text) → text_eq a b ≡ true → a ≡ b
unfolding text_eq
text_eq_sound [] [] h = refl
text_eq_sound [] (b ∷ bs) h = cc
text_eq_sound (a ∷ as') [] h = cc
text_eq_sound (a ∷ as') (b ∷ bs) h = ground (arith, text_eq_sound as' bs)

pub text_eq_iff : (a b : Text) → (text_eq a b ≡ true) ↔ (a ≡ b)
text_eq_iff a b = (text_eq_sound a b, λ e. subst_eq e)
  where
    subst_eq : a ≡ b → text_eq a b ≡ true
    subst_eq e = rw e (text_eq_refl b)

pub text_eq_comm : (a b : Text) → text_eq a b ≡ text_eq b a
text_eq_comm a b = ground (arith, text_eq_iff a b, text_eq_iff b a)

-- What `trim` removes: white space and line terminators.
unfoldable pub is_space : ℕ → Bool
is_space c =
    leb 9 c && leb c 13
    || c == 32
    || c == 160
    || c == 5760
    || leb 8192 c && leb c 8202
    || c == 8232
    || c == 8233
    || c == 8239
    || c == 8287
    || c == 12288
    || c == 65279

trim_start : Text → Text
unfolding is_space
trim_start [] = []
trim_start (c ∷ cs) = let rest = trim_start cs in if is_space c then rest else c ∷ cs

-- `s.trim()`.
unfoldable pub trim : Text → Text
unfolding trim_start
trim s = reverse (trim_start (reverse (trim_start s)))

-- `!s`, where the empty string is false.
unfoldable pub is_empty : Text → Bool
is_empty [] = true
is_empty (c ∷ cs) = false

-- `s || null`, where the empty string is false.
unfoldable pub truthy : Option Text → Option Text
truthy none = none
truthy (some s) = if is_empty s then none else some s

-- `!s.trim()`.
unfoldable pub is_blank : Text → Bool
unfolding trim is_empty
is_blank s = is_empty (trim s)

-- `/[A-Za-z0-9]/`.
unfoldable pub is_alphanumeric : ℕ → Bool
is_alphanumeric c = leb b'A' c && leb c b'Z' || leb b'a' c && leb c b'z' || leb b'0' c && leb c b'9'

-- `/[0-9a-f]/`.
unfoldable pub is_hex_digit : ℕ → Bool
is_hex_digit c = leb b'0' c && leb c b'9' || leb b'a' c && leb c b'f'

-- `xs.includes(x)`, and `set.has(x)`.
unfoldable pub mem : Text → List Text → Bool
unfolding text_eq
mem x [] = false
mem x (y ∷ ys) = text_eq y x || mem x ys

unfoldable pub has_duplicates : List Text → Bool
unfolding mem
has_duplicates [] = false
has_duplicates (x ∷ xs) = mem x xs || has_duplicates xs

-- `a < b` by UTF-16 code units, the order of `xs.sort()` on strings.
unfoldable pub text_lt : Text → Text → Bool
text_lt a [] = false
text_lt [] (b ∷ bs) = true
text_lt (a ∷ as') (b ∷ bs) =
    let rest = text_lt as' bs in if ltb a b then true else if ltb b a then false else rest

-- `s.startsWith(prefix)`, the prefix first.
unfoldable pub is_prefix : Text → Text → Bool
is_prefix [] s = true
is_prefix (p ∷ ps) [] = false
is_prefix (p ∷ ps) (c ∷ s) = p == c && is_prefix ps s

-- `[...new Set(xs)]`: the first of equal strings stays.
distinct_from : List Text → List Text → List Text
unfolding mem
distinct_from seen [] = []
distinct_from seen (x ∷ xs) =
    let rest = distinct_from (x ∷ seen) xs in if mem x seen then rest else x ∷ rest

unfoldable pub distinct : List Text → List Text
unfolding distinct_from
distinct xs = distinct_from [] xs

All-distinct_from {κ} :
    (P : Text → Type κ) (seen xs : List Text) → All P xs → All P (distinct_from seen xs)
unfolding distinct_from
All-distinct_from P seen [] h = tt
All-distinct_from P seen (x ∷ xs) (hx, h) =
    All-if (mem x seen) P (distinct_from (x ∷ seen) xs) (x ∷ distinct_from (x ∷ seen) xs)
      (λ e. All-distinct_from P (x ∷ seen) xs h) (λ e. (hx, All-distinct_from P (x ∷ seen) xs h))

pub All-distinct {κ} : (P : Text → Type κ) (xs : List Text) → All P xs → All P (distinct xs)
unfolding distinct
All-distinct P xs h = All-distinct_from P [] xs h

seen_more {κ} :
    (P : Text → Type κ) (seen : List Text) (x : Text)
    → ((y : Text) → mem y seen ≡ true → P y)
    → P x
    → (y : Text) → mem y (x ∷ seen) ≡ true
    → P y
unfolding mem
seen_more P seen x f hx y m = elim (Bool-cases (text_eq x y)) [
  | inl same ↦ subst P (text_eq_sound x y same) hx
  | inr other ↦ f y (ground arith)
]

distinct_from-All {κ} :
    (P : Text → Type κ) (seen xs : List Text)
    → ((x : Text) → mem x seen ≡ true → P x)
    → All P (distinct_from seen xs)
    → All P xs
unfolding distinct_from
distinct_from-All P seen [] f h = tt
distinct_from-All P seen (x ∷ xs) f h = elim (Bool-cases (mem x seen)) [
  | inl old ↦
      let hx = f x old in
      (
        hx,
        distinct_from-All P (x ∷ seen) xs (seen_more P seen x f hx) (
            subst
              (λ (b : Bool).
                All P (if b then distinct_from (x ∷ seen) xs else x ∷ distinct_from (x ∷ seen) xs))
              old h),
      )
  | inr new ↦
      let k =
        subst
          (λ (b : Bool).
            All P (if b then distinct_from (x ∷ seen) xs else x ∷ distinct_from (x ∷ seen) xs))
          new h in
      (k.0, distinct_from-All P (x ∷ seen) xs (seen_more P seen x f k.0) k.1)
]

-- What holds of the distinct strings holds of all.
pub distinct-All {κ} : (P : Text → Type κ) (xs : List Text) → All P (distinct xs) → All P xs
unfolding distinct mem
distinct-All P xs h = distinct_from-All P [] xs (λ x m. absurd (ground arith)) h
