-- ===== src/Table.antt =====
-- Tables as lists of rows, in the order of insertion, and what the statements of the repositories'
-- queries do to them: `UPDATE … SET f WHERE p`, `DELETE … WHERE p`, `INSERT`, `EXISTS`, `SELECT`,
-- and the aggregates `COUNT(*) FILTER` and `SUM(…) FILTER`.
pub mod Laws
use catfee_io.Base.{
  ℕ, ◌+◌, Bool, false, Option, none, some, List, [], ◌∷◌, ◌++◌, ◌||◌, if◌then◌else◌,
}

module _ {ℓ} {A : Type ℓ} where
  -- UPDATE table SET f WHERE p
  unfoldable pub update : (A → Bool) → (A → A) → List A → List A
  update p f [] = []
  update p f (r ∷ rows) = (if p r then f r else r) ∷ update p f rows

  -- DELETE FROM table WHERE p
  unfoldable pub delete : (A → Bool) → List A → List A
  delete p [] = []
  delete p (r ∷ rows) = let rest = delete p rows in if p r then rest else r ∷ rest

  -- INSERT INTO table VALUES (r)
  unfoldable pub insert : A → List A → List A
  insert r rows = rows ++ r ∷ []

  -- EXISTS (SELECT 1 FROM table WHERE p)
  unfoldable pub exists : (A → Bool) → List A → Bool
  exists p [] = false
  exists p (r ∷ rows) = p r || exists p rows

  -- SELECT * FROM table WHERE p, with its first row
  unfoldable pub select : (A → Bool) → List A → Option A
  select p [] = none
  select p (r ∷ rows) = let rest = select p rows in if p r then some r else rest

  -- SELECT * FROM table WHERE p
  unfoldable pub select_all : (A → Bool) → List A → List A
  select_all p [] = []
  select_all p (r ∷ rows) = let rest = select_all p rows in if p r then r ∷ rest else rest

  -- SUM(f) FILTER (WHERE p); a count is the sum of ones
  unfoldable pub sum : (A → Bool) → (A → ℕ) → List A → ℕ
  sum p f [] = 0
  sum p f (r ∷ rows) = (if p r then f r else 0) + sum p f rows

  abbrev pub count : (A → Bool) → List A → ℕ
  count p = sum p (λ _. 1)
