-- ===== src/Upgrade/Plan/Chain.antt =====
-- What a plan consists of.
use awiki_cli.Base.{
  Result-cases, ℕ, zero, suc, ◌+◌, ◌-◌, ◌≤◌, ◌<◌, ◌≡◌, refl, List, [], ◌∷◌, Option, none, some,
  Result, ok, err, arith, length, inl, inr, Bool-cases, ltb, ◌↔◌,
}
use awiki_cli.Upgrade.Machine.{Error}
use awiki_cli.Upgrade.Plan.{Migration, Upgrader, checked, prepend, plan_from, plan}

-- The migrations of the upgrader for the versions from the first up to the second, one each, in
-- order, each leading to the version after its own.
pub data IsChain (u : Upgrader) : ℕ → ℕ → List Migration → Type 0 where
  done : {v : ℕ} → IsChain u v v []
  step :
      {v w : ℕ} {mg : Migration} {rest : List Migration}
      → u.migrations v ≡ some mg
      → mg.to ≡ v + 1
      → IsChain u (v + 1) w rest
      → IsChain u v w (mg ∷ rest)

-- Every version from the first up to the second has a migration to the version after it.
abbrev pub Covers : Upgrader → ℕ → ℕ → Type 0
Covers u v w =
    (k : ℕ) → v ≤ k → k < w → (mg : Migration) × (u.migrations k ≡ some mg) × (mg.to ≡ k + 1)

pub IsChain-le : {u : Upgrader} {v w : ℕ} {ms : List Migration} → IsChain u v w ms → v ≤ w
IsChain-le (done {v}) = omega arith
IsChain-le (step e t c) = omega (arith, IsChain-le c)

prepend-ok :
    {mg : Migration} (r : Result Error (List Migration)) {ms : List Migration}
    → prepend mg r ≡ ok ms
    → (rest : List Migration) × (r ≡ ok rest) × (ms ≡ mg ∷ rest)
prepend-ok (ok rest) h = (rest, refl, cc)
prepend-ok (err e) h = cc

checked-ok :
    (o : Option Migration) (v : ℕ) {mg : Migration}
    → checked o v ≡ ok mg
    → (o ≡ some mg) × (mg.to ≡ v + 1)
unfolding checked
checked-ok none v h = cc
checked-ok (some x) v h = (ground arith, ground arith)

plan_from-IsChain :
    (u : Upgrader) (v n w : ℕ) (ms : List Migration)
    → w ≡ v + n
    → plan_from u v n ≡ ok ms
    → IsChain u v w ms
unfolding plan_from
plan_from-IsChain u v zero w ms e h =
    let same_end : v ≡ w = omega arith in
    let same_plan : [] ≡ ms = cc in rw (← same_end) (rw (← same_plan) done)
plan_from-IsChain u v (suc n) w ms e h = elim (Result-cases (checked (u.migrations v) v)) [
  | inl (mg, q) ↦
      let (rest, planned, same) =
        prepend-ok (plan_from u (v + 1) n) {ms = ms} (ground (arith, q, h)) in
      let (found, target) = checked-ok (u.migrations v) v q in
      rw same (step found target (plan_from-IsChain u (v + 1) n w rest (omega arith) planned))
  | inr (x, q) ↦ absurd (ground (arith, q, h))
]

plan_from_of_IsChain :
    {u : Upgrader} {v w : ℕ} {ms : List Migration}
    → IsChain u v w ms
    → (n : ℕ) → w ≡ v + n
    → plan_from u v n ≡ ok ms
unfolding plan_from checked
plan_from_of_IsChain done zero e = refl
plan_from_of_IsChain done (suc n) e = absurd (omega arith)
plan_from_of_IsChain (step f t c) zero e = absurd (omega (arith, IsChain-le c))
plan_from_of_IsChain (step f t c) (suc n) e =
    ground (arith, f, t, plan_from_of_IsChain c n (omega arith))

-- Planning succeeds with a list exactly when the list is the chain of migrations from the one
-- version to the other, which is not the older one.
pub plan-ok_iff :
    (u : Upgrader) (v w : ℕ) (ms : List Migration)
    → (plan u v w ≡ ok ms) ↔ ((v ≤ w) × IsChain u v w ms)
unfolding plan
plan-ok_iff u v w ms = (
  λ h. elim (Bool-cases (ltb w v)) [
    | inl e ↦ absurd (ground (arith, e, h))
    | inr e ↦
        (ground arith, plan_from-IsChain u v (w - v) w ms (ground arith) (ground (arith, e, h)))
  ],
  λ (le, c). ground (arith, plan_from_of_IsChain c (w - v) (omega arith)),
)

pub length-IsChain :
    {u : Upgrader} {v w : ℕ} {ms : List Migration} → IsChain u v w ms → v + length ms ≡ w
length-IsChain done = omega arith
length-IsChain (step e t c) = omega (arith, length-IsChain c)

chain-Covers :
    (u : Upgrader) (rounds v w : ℕ)
    → v + rounds ≡ w
    → Covers u v w
    → (ms : List Migration) × IsChain u v w ms
chain-Covers u zero v w e h = let same : v ≡ w = omega arith in ([], rw same done)
chain-Covers u (suc rounds) v w e h =
    let (mg, found, next) = h v (omega arith) (omega arith) in
    let (rest, c) = chain-Covers u rounds (v + 1) w (omega arith) (λ k l m. h k (omega arith) m) in
    (mg ∷ rest, step found next c)

-- Planning succeeds where every version on the way has its migration.
pub plan-Covers :
    (u : Upgrader) (v w : ℕ)
    → v ≤ w
    → Covers u v w
    → (ms : List Migration) × (plan u v w ≡ ok ms) × IsChain u v w ms
plan-Covers u v w l h =
    let (ms, c) = chain-Covers u (w - v) v w (omega arith) h in
    (ms, (plan-ok_iff u v w ms).1 (l, c), c)
