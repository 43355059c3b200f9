-- ===== src/Store/Book/Counts.antt =====
-- The rows of a table that satisfy a test, counted, for the tables of internal/store/dao.go.
use awiki_cli.Base.{
  ℕ, suc, ◌+◌, ◌≡◌, refl, ◌≤◌, Bool, true, false, List, [], ◌∷◌, ◌++◌, if◌then◌else◌, arith,
}

module _ {ℓ} {A : Type ℓ} where
  unfoldable pub count : (A → Bool) → List A → ℕ
  count p [] = 0
  count p (x ∷ xs) = if p x then suc (count p xs) else count p xs

  pub count-append : (p : A → Bool) (xs ys : List A) → count p (xs ++ ys) ≡ count p xs + count p ys
  unfolding count
  count-append p [] ys = omega arith
  count-append p (x ∷ xs) ys = ground (arith, count-append p xs ys)

  -- The rows of a test are among those of another one and those that pass the third.
  pub count_cover :
      (p q s : A → Bool)
      → ((x : A) → p x ≡ true → q x ≡ false → s x ≡ true)
      → (xs : List A) → count p xs ≤ count q xs + count s xs
  unfolding count
  count_cover p q s h [] = omega arith
  count_cover p q s h (x ∷ xs) = ground (arith, h x, count_cover p q s h xs)

  pub count_less :
      (p q : A → Bool)
      → ((x : A) → p x ≡ true → q x ≡ true)
      → (xs : List A) → count p xs ≤ count q xs
  unfolding count
  count_less p q h [] = omega arith
  count_less p q h (x ∷ xs) = ground (arith, h x, count_less p q h xs)

  pub count_one : (p : A → Bool) (x : A) → p x ≡ true → count p (x ∷ []) ≡ 1
  unfolding count
  count_one p x e = rw e refl

  pub count_none : (p : A → Bool) (x : A) → p x ≡ false → count p (x ∷ []) ≡ 0
  unfolding count
  count_none p x e = rw e refl
