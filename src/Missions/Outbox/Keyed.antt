-- ===== src/Missions/Outbox/Keyed.antt =====
-- Each record of the outbox stands once, under its own id (src/lib/missions/outbox.ts).
use swarm_z.Base.{
  ℕ, ◌≡◌, refl, sym, ap, ◌∙◌, inl, inr, Bool, Option, none, some, List, [], ◌∷◌, All, All-mono,
  find, Number, Text, text_eq, text_eq_iff, text_eq_comm, subst, text_eq_refl, Dict, get, put,
  values, get-put_ne, Bool-cases, arith,
}
use swarm_z.Missions.Outbox.Types.{MissionOutboxRecord}
use swarm_z.Missions.Outbox.Claims.{expired_record, expire_lease, expire_all}

abbrev pub IsKeyed : Dict MissionOutboxRecord → Type 0
IsKeyed [] = Unit
IsKeyed ((id, r) ∷ d) = (r.id ≡ id) × (get d id ≡ none) × IsKeyed d

some-inj : {a b : MissionOutboxRecord} → Option.some a ≡ some b → a ≡ b
some-inj h = cc

none-some : {r : MissionOutboxRecord} → Option.none ≡ some r → ⊥
none-some h = cc

pub put-IsKeyed :
    (d : Dict MissionOutboxRecord) (r : MissionOutboxRecord) → IsKeyed d → IsKeyed (put d r.id r)
unfolding put get
put-IsKeyed [] r h = (refl, refl, tt)
put-IsKeyed ((id, w) ∷ d) r (own, new, h) = elim (Bool-cases (text_eq id r.id)) [
  | inl e ↦ rw e (sym ((text_eq_iff id r.id).0 e), new, h)
  | inr e ↦ rw e (own, get-put_ne d r.id id r (text_eq_comm r.id id ∙ e) ∙ new, put-IsKeyed d r h)
]

pub get-id :
    (d : Dict MissionOutboxRecord) (id : Text) (r : MissionOutboxRecord)
    → IsKeyed d
    → get d id ≡ some r
    → r.id ≡ id
unfolding get
get-id [] id r h e = cc
get-id ((k, w) ∷ d) id r (own, new, h) e = elim (Bool-cases (text_eq k id)) [
  | inl same ↦
      let found : Option.some w ≡ some r = ground (arith, same) in
      sym (ap (λ (x : MissionOutboxRecord). x.id) (some-inj found))
      ∙ (own ∙ (text_eq_iff k id).0 same)
  | inr apart ↦ get-id d id r h (ground (arith, apart))
]

get-later :
    (k : Text) (w : MissionOutboxRecord) (d : Dict MissionOutboxRecord) (r : MissionOutboxRecord)
    → get d k ≡ none
    → get d r.id ≡ some r
    → get ((k, w) ∷ d) r.id ≡ some r
unfolding get
get-later k w d r new e = elim (Bool-cases (text_eq k r.id)) [
  | inl same ↦ absurd (none-some (sym new ∙ (ap (get d) ((text_eq_iff k r.id).0 same) ∙ e)))
  | inr apart ↦ ground (arith, apart, e)
]

pub values-get :
    (d : Dict MissionOutboxRecord)
    → IsKeyed d
    → All (λ (r : MissionOutboxRecord). get d r.id ≡ some r) (values d)
unfolding get values
values-get [] h = tt
values-get ((k, w) ∷ d) (own, new, h) = (
  rw (own, text_eq_refl k),
  All-mono (λ (r : MissionOutboxRecord). get d r.id ≡ some r)
      (λ (r : MissionOutboxRecord). get ((k, w) ∷ d) r.id ≡ some r) (λ r e. get-later k w d r new e)
      (values d) (values-get d h),
)

pub find-All :
    (P : MissionOutboxRecord → Type 0) (p : MissionOutboxRecord → Bool)
    (xs : List MissionOutboxRecord) (x : MissionOutboxRecord)
    → All P xs
    → find p xs ≡ some x
    → P x
unfolding find
find-All P p [] x h e = cc
find-All P p (y ∷ ys) x (hy, h) e = elim (Bool-cases (p y)) [
  | inl yes_y ↦ subst P (some-inj (ground (arith, yes_y))) hy
  | inr no_y ↦ find-All P p ys x h (ground (arith, no_y))
]

module _ (to_text : ℕ → Text) where
  expire_lease-id :
      (now : Number) (r : MissionOutboxRecord) → (expire_lease to_text now r).id ≡ r.id
  unfolding expire_lease expired_record
  expire_lease-id now r = ground arith

  pub get-expire_all-none :
      (now : Number) (d : Dict MissionOutboxRecord) (id : Text)
      → get d id ≡ none
      → get (expire_all to_text now d) id ≡ none
  unfolding expire_all get
  get-expire_all-none now [] id h = refl
  get-expire_all-none now ((k, r) ∷ d) id h = ground (arith, get-expire_all-none now d id)

  pub get-expire_all :
      (now : Number) (d : Dict MissionOutboxRecord) (id : Text) (r : MissionOutboxRecord)
      → get d id ≡ some r
      → get (expire_all to_text now d) id ≡ some (expire_lease to_text now r)
  unfolding expire_all get
  get-expire_all now [] id r h = cc
  get-expire_all now ((k, w) ∷ d) id r h = ground (arith, get-expire_all now d id r)

  pub expire_all-IsKeyed :
      (now : Number) (d : Dict MissionOutboxRecord) → IsKeyed d → IsKeyed (expire_all to_text now d)
  unfolding expire_all
  expire_all-IsKeyed now [] h = tt
  expire_all-IsKeyed now ((k, r) ∷ d) (own, new, h) =
      (expire_lease-id now r ∙ own, get-expire_all-none now d k new, expire_all-IsKeyed now d h)
