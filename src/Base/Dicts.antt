-- ===== src/Base/Dicts.antt =====
-- Objects used as dictionaries, `Record<string, V>`, as association lists of their own properties.
use mathlib.Core.Path.{◌≡◌, refl, subst}
use mathlib.Core.Logic.{inl, inr}
use mathlib.Core.Bool.{Bool, false}
use mathlib.Core.Option.{Option, none, some}
use mathlib.Core.List.{List, [], ◌∷◌, ◌++◌}
use native.Mathlib.Omega.{arith}
use swarm_z.Base.Tests.{if◌then◌else◌, Bool-cases}
use swarm_z.Base.Lists.{All}
use swarm_z.Base.Texts.{Text, text_eq, text_eq_iff, text_eq_refl}

abbrev pub Dict {ℓ} : Type ℓ → Type ℓ
Dict V = List (Text × V)

module _ {ℓ} {V : Type ℓ} where
  -- `d[k]`.
  unfoldable pub get : Dict V → Text → Option V
  get [] k = none
  get ((j, v) ∷ d) k = let rest = get d k in if text_eq j k then some v else rest

  -- `d[k] = v`: a new key goes to the end.
  unfoldable pub put : Dict V → Text → V → Dict V
  put [] k v = (k, v) ∷ []
  put ((j, w) ∷ d) k v = let rest = put d k v in if text_eq j k then (j, v) ∷ d else (j, w) ∷ rest

  -- `Object.values(d)`.
  unfoldable pub values : Dict V → List V
  values [] = []
  values ((j, v) ∷ d) = v ∷ values d

  -- A loop over `Object.entries(d)` that deletes those whose value fails the test.
  unfoldable pub delete_where : (V → Bool) → Dict V → Dict V
  delete_where p [] = []
  delete_where p ((j, v) ∷ d) = let rest = delete_where p d in if p v then rest else (j, v) ∷ rest

  pub get-put :
      (d : Dict V) (k j : Text) (v : V)
      → get (put d k v) j ≡ (if text_eq k j then some v else get d j)
  unfolding get put
  get-put [] k j v = refl
  get-put ((i, w) ∷ d) k j v =
      ground (arith, text_eq_iff i k, text_eq_iff i j, text_eq_iff k j, get-put d k j v)

  pub get-put_self : (d : Dict V) (k : Text) (v : V) → get (put d k v) k ≡ some v
  get-put_self d k v = rw (get-put d k k v, text_eq_refl k)

  pub get-put_ne :
      (d : Dict V) (k j : Text) (v : V) → text_eq k j ≡ false → get (put d k v) j ≡ get d j
  get-put_ne d k j v h = rw (get-put d k j v, h)

  -- What holds of the values holds of one that is found.
  pub All-get {κ} :
      (P : V → Type κ) (d : Dict V) (k : Text) (v : V) → All P (values d) → get d k ≡ some v → P v
  unfolding get values
  All-get P [] k v h found = cc
  All-get P ((j, w) ∷ d) k v (hw, h) found = elim (Bool-cases (text_eq j k)) [
    | inl here ↦ let e : w ≡ v = ground arith in subst P e hw
    | inr later ↦ All-get P d k v h (ground arith)
  ]

  -- A new key adds its value at the end.
  pub values-put_new :
      (d : Dict V) (k : Text) (v : V) → get d k ≡ none → values (put d k v) ≡ values d ++ v ∷ []
  unfolding get put values
  values-put_new [] k v h = refl
  values-put_new ((j, w) ∷ d) k v h = elim (Bool-cases (text_eq j k)) [
    | inl e ↦ absurd (ground (arith, e))
    | inr e ↦ rw (e, values-put_new d k v (ground (arith, e)))
  ]
