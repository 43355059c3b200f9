-- ===== src/Upgrade/Machine/Rules.antt =====
-- What holds of an operation's outcome: one condition on success, another on failure.
use awiki_cli.Base.{◌≡◌, arith, Result, ok, err, List, [], ◌∷◌}
use awiki_cli.Upgrade.Machine.{
  Machine, Op, Error, Disk, Fault, fine, lost, late, after, ◌>>=◌, write, write_under,
}

-- `good` holds of the value and the machine after success, `bad` of the machine after failure.
pub data Ensures {A : Type 0} (good : A → Machine → Type 0) (bad : Machine → Type 0)
    : Result Error A × Machine → Type 0 where
  success : {a : A} {m : Machine} → good a m → Ensures good bad (ok a, m)
  failure : {e : Error} {m : Machine} → bad m → Ensures good bad (err e, m)

module _ {A B : Type 0} {mid : A → Machine → Type 0} {good : B → Machine → Type 0}
    {bad : Machine → Type 0} where
  Ensures-after :
      {r : Result Error A × Machine} (f : A → Op B)
      → Ensures mid bad r
      → ((a : A) (m : Machine) → mid a m → Ensures good bad (f a m))
      → Ensures good bad (after f r)
  Ensures-after f (success {a} {m} h) k = k a m h
  Ensures-after f (failure h) k = failure h

  -- The rule for a sequence.
  pub Ensures-bind :
      (o : Op A) (f : A → Op B) (m : Machine)
      → Ensures mid bad (o m)
      → ((a : A) (m' : Machine) → mid a m' → Ensures good bad (f a m'))
      → Ensures good bad ((o >>= f) m)
  unfolding ◌>>=◌
  Ensures-bind o f m h k = Ensures-after f h k

module _ {A : Type 0} {good good' : A → Machine → Type 0} {bad bad' : Machine → Type 0} where
  -- The rule for weaker conditions.
  pub Ensures-weaken :
      {r : Result Error A × Machine}
      → ((a : A) (m : Machine) → good a m → good' a m)
      → ((m : Machine) → bad m → bad' m)
      → Ensures good bad r
      → Ensures good' bad' r
  Ensures-weaken g b (success {a} {m} h) = success (g a m h)
  Ensures-weaken g b (failure {e} {m} h) = failure (b m h)

module _ {good bad : Machine → Type 0} (f : Disk → Disk) where
  write_under-Ensures :
      (fs : List Fault) (m : Machine)
      → ((fs' : List Fault) → good (record m { disk = f m.disk; faults = fs' }))
      → ((fs' : List Fault) → bad (record m { disk = f m.disk; faults = fs' }))
      → ((fs' : List Fault) → bad (record m { faults = fs' }))
      → Ensures (λ _. good) bad (write_under fs f m)
  unfolding write_under
  write_under-Ensures [] m g b l = success (g m.faults)
  write_under-Ensures (fine ∷ fs) m g b l = success (g fs)
  write_under-Ensures (lost ∷ fs) m g b l = failure (l fs)
  write_under-Ensures (late ∷ fs) m g b l = failure (b fs)

  -- A write succeeds with its change made, or fails with its change made or not made.
  pub write-Ensures :
      (m : Machine)
      → ((fs : List Fault) → good (record m { disk = f m.disk; faults = fs }))
      → ((fs : List Fault) → bad (record m { disk = f m.disk; faults = fs }))
      → ((fs : List Fault) → bad (record m { faults = fs }))
      → Ensures (λ _. good) bad (write f m)
  unfolding write
  write-Ensures m g b l = write_under-Ensures m.faults m g b l

-- With no fault to come a write succeeds.
pub write_of_calm :
    (f : Disk → Disk) (m : Machine)
    → m.faults ≡ []
    → write f m ≡ (ok tt, record m { disk = f m.disk })
unfolding write write_under
write_of_calm f m e = ground arith

pub after_of_ok :
    {A B : Type 0} (o : Op A) (f : A → Op B) (m k : Machine) (a : A)
    → o m ≡ (ok a, k)
    → (o >>= f) m ≡ f a k
unfolding ◌>>=◌
after_of_ok o f m k a e = rw e

-- No fault is to come.
abbrev pub IsCalm : Machine → Type 0
IsCalm m = m.faults ≡ []

-- The operation has succeeded, and no fault is to come.
abbrev pub Succeeds : {A : Type 0} → Result Error A × Machine → Type 0
Succeeds = Ensures (λ _ k. IsCalm k) (λ _. ⊥)

abbrev Succeeded : {A : Type 0} → Result Error A × Machine → Type 0
Succeeded (ok a, m) = IsCalm m
Succeeded (err e, m) = ⊥

Succeeded-Succeeds : {A : Type 0} {r : Result Error A × Machine} → Succeeds r → Succeeded r
Succeeded-Succeeds (success h) = h
Succeeded-Succeeds (failure h) = h

-- What holds of an outcome that may be a failure, where it is known to be none.
pub Ensures-Succeeds :
    {A : Type 0} {good : A → Machine → Type 0} {bad : Machine → Type 0}
    {r : Result Error A × Machine}
    → Ensures good bad r
    → Succeeds r
    → Ensures (λ a m. good a m × IsCalm m) (λ _. ⊥) r
Ensures-Succeeds (success h) s = success (h, Succeeded-Succeeds s)
Ensures-Succeeds (failure h) s = elim (Succeeded-Succeeds s) [ ]

pub write-Succeeds : (f : Disk → Disk) (m : Machine) → IsCalm m → Succeeds (write f m)
write-Succeeds f m c = rw (write_of_calm f m c) (success c)

-- A success, as an equation.
pub value_of_Succeeds : {r : Result Error (Unit {0}) × Machine} → Succeeds r → r.0 ≡ ok tt
value_of_Succeeds (success h) = λ i. ok tt
value_of_Succeeds (failure h) = elim h [ ]

pub good_of_Succeeds :
    {A : Type 0} {good : Machine → Type 0} {r : Result Error A × Machine}
    → Ensures (λ _ m. good m × IsCalm m) (λ _. ⊥) r
    → good r.1
good_of_Succeeds (success h) = h.0
good_of_Succeeds (failure h) = elim h [ ]

abbrev Outcome : {A : Type 0} → (A → Machine → Type 0) → Result Error A × Machine → Type 0
Outcome h (ok a, m) = h a m
Outcome h (err e, m) = ⊥

Outcome-Ensures :
    {A : Type 0} {h : A → Machine → Type 0} {r : Result Error A × Machine}
    → Ensures h (λ _. ⊥) r
    → Outcome h r
Outcome-Ensures (success x) = x
Outcome-Ensures (failure x) = x

-- What holds of an outcome for two reasons, one of which excludes a failure.
pub Ensures-both :
    {A : Type 0} {good h : A → Machine → Type 0} {bad : Machine → Type 0}
    {r : Result Error A × Machine}
    → Ensures good bad r
    → Ensures h (λ _. ⊥) r
    → Ensures (λ a m. good a m × h a m) (λ _. ⊥) r
Ensures-both (success x) s = success (x, Outcome-Ensures s)
Ensures-both (failure x) s = elim (Outcome-Ensures s) [ ]
