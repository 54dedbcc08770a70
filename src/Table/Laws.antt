-- ===== src/Table/Laws.antt =====
-- What the statements on tables do to lookups, tests and aggregates.
use catfee_io.Base.{
  ℕ, ◌+◌, ◌≤◌, ◌≡◌, refl, Bool, true, false, none, some, List, [], ◌∷◌, arith, if◌then◌else◌,
  Bool-cases, inl, inr,
}
use catfee_io.Table.{select_all, update, delete, insert, exists, select, sum, count}

-- Every row has the property.
abbrev pub All {ℓ κ} : {A : Type ℓ} → (A → Type κ) → List A → Type κ
All P [] = Unit
All P (r ∷ rows) = P r × All P rows

module _ {ℓ} {A : Type ℓ} where
  pub sum-insert :
      (q : A → Bool) (g : A → ℕ) (r : A) (rows : List A)
      → sum q g (insert r rows) ≡ sum q g rows + (if q r then g r else 0)
  unfolding sum insert
  sum-insert q g r [] = omega arith
  sum-insert q g r (x ∷ rows) = omega (arith, sum-insert q g r rows)

  -- No row passes the test exactly if the count is zero.
  pub exists-count : (p : A → Bool) (rows : List A) → exists p rows ≡ false → count p rows ≡ 0
  unfolding exists sum
  exists-count p [] h = refl
  exists-count p (r ∷ rows) h = ground (arith, exists-count p rows)

  pub select-count : (p : A → Bool) (rows : List A) → select p rows ≡ none → count p rows ≡ 0
  unfolding select sum
  select-count p [] h = refl
  select-count p (r ∷ rows) h = ground (arith, select-count p rows)

  -- The select gives a row exactly if one passes.
  pub select-exists :
      (p : A → Bool) (rows : List A)
      → exists p rows ≡ elim (select p rows) [ none ↦ false | some _ ↦ true ]
  unfolding select exists
  select-exists p [] = refl
  select-exists p (r ∷ rows) = ground (arith, select-exists p rows)

  pub select-sum-none :
      (p : A → Bool) (g : A → ℕ) (rows : List A) → select p rows ≡ none → sum p g rows ≡ 0
  unfolding select sum
  select-sum-none p g [] h = refl
  select-sum-none p g (r ∷ rows) h = ground (arith, select-sum-none p g rows)

  pub count-sum_none :
      (p : A → Bool) (g : A → ℕ) (rows : List A) → count p rows ≡ 0 → sum p g rows ≡ 0
  unfolding sum
  count-sum_none p g [] h = refl
  count-sum_none p g (r ∷ rows) h = ground (arith, count-sum_none p g rows)

  -- Where one row passes at most, the aggregate is the value of the row that the select gives.
  pub select-sum_one :
      (p : A → Bool) (g : A → ℕ) (rows : List A) {r : A}
      → select p rows ≡ some r
      → count p rows ≤ 1
      → sum p g rows ≡ g r
  unfolding select sum
  select-sum_one p g [] h u = cc
  select-sum_one p g (x ∷ rows) {r} h u =
      ground (arith, select-sum_one p g rows {r = r}, count-sum_none p g rows)

  -- A stronger test that the selected row passes selects the same row.
  pub select-stronger :
      (p q : A → Bool)
      → ((r : A) → q r ≡ true → p r ≡ true)
      → (rows : List A) {r : A} → select p rows ≡ some r
      → q r ≡ true
      → select q rows ≡ some r
  unfolding select
  select-stronger p q h [] e k = cc
  select-stronger p q h (x ∷ rows) {r} e k = ground (arith, h x, select-stronger p q h rows {r = r})

  pub select-passes : (p : A → Bool) (rows : List A) {r : A} → select p rows ≡ some r → p r ≡ true
  unfolding select
  select-passes p [] h = cc
  select-passes p (x ∷ rows) {r} h = ground (arith, select-passes p rows {r = r})

  pub select-sum-le :
      (p q : A → Bool) (g : A → ℕ) (rows : List A) {r : A}
      → select p rows ≡ some r
      → q r ≡ true
      → g r ≤ sum q g rows
  unfolding select sum
  select-sum-le p q g [] h k = cc
  select-sum-le p q g (x ∷ rows) {r} h k = ground (arith, select-sum-le p q g rows {r = r})

  -- What the select gives after an update of the rows that it looks for.
  pub select-update :
      (p : A → Bool) (f : A → A)
      → ((r : A) → p r ≡ true → p (f r) ≡ true)
      → (rows : List A)
      → select p (update p f rows) ≡ elim (select p rows) [ none ↦ none | some r ↦ some (f r) ]
  unfolding select update
  select-update p f h [] = refl
  select-update p f h (r ∷ rows) = elim (Bool-cases (p r)) [
    | inl e ↦ rw (e, h r e) refl
    | inr e ↦ rw (e, e) (select-update p f h rows)
  ]

  pub update-none :
      (p : A → Bool) (f : A → A) (rows : List A) → count p rows ≡ 0 → update p f rows ≡ rows
  unfolding update sum
  update-none p f [] h = refl
  update-none p f (r ∷ rows) h = ground (arith, update-none p f rows)

  -- An update that leaves a row's test and value alone leaves the aggregate alone.
  pub sum-update_same :
      (p q : A → Bool) (f : A → A) (g : A → ℕ)
      → ((r : A) → q (f r) ≡ q r)
      → ((r : A) → g (f r) ≡ g r)
      → (rows : List A) → sum q g (update p f rows) ≡ sum q g rows
  unfolding update sum
  sum-update_same p q f g hq hg [] = refl
  sum-update_same p q f g hq hg (r ∷ rows) =
      ground (arith, hq r, hg r, sum-update_same p q f g hq hg rows)

  -- An update that lets no new row in and raises no value does not raise the aggregate.
  pub sum-update_le :
      (p q : A → Bool) (f : A → A) (g : A → ℕ)
      → ((r : A) → p r ≡ true → q (f r) ≡ true → q r ≡ true)
      → ((r : A) → g (f r) ≡ g r)
      → (rows : List A) → sum q g (update p f rows) ≤ sum q g rows
  unfolding update sum
  sum-update_le p q f g hq hg [] = omega arith
  sum-update_le p q f g hq hg (r ∷ rows) =
      ground (arith, hq r, hg r, sum-update_le p q f g hq hg rows)

  -- An update of rows outside the test, which keeps them outside.
  pub sum-update_outside :
      (p q : A → Bool) (f : A → A) (g : A → ℕ)
      → ((r : A) → p r ≡ true → q r ≡ false)
      → ((r : A) → q (f r) ≡ false)
      → (rows : List A) → sum q g (update p f rows) ≡ sum q g rows
  unfolding update sum
  sum-update_outside p q f g hp hq [] = refl
  sum-update_outside p q f g hp hq (r ∷ rows) =
      ground (arith, hp r, hq r, sum-update_outside p q f g hp hq rows)

  -- An update that reaches every row that passes, and leaves none that does, empties the aggregate.
  pub sum-update_clear :
      (p q : A → Bool) (f : A → A) (g : A → ℕ)
      → ((r : A) → p r ≡ false → q r ≡ false)
      → ((r : A) → q (f r) ≡ false)
      → (rows : List A) → sum q g (update p f rows) ≡ 0
  unfolding update sum
  sum-update_clear p q f g hp hq [] = refl
  sum-update_clear p q f g hp hq (r ∷ rows) =
      ground (arith, hp r, hq r, sum-update_clear p q f g hp hq rows)

  pub sum_mono :
      (p q : A → Bool) (g : A → ℕ)
      → ((r : A) → p r ≡ true → q r ≡ true)
      → (rows : List A) → sum p g rows ≤ sum q g rows
  unfolding sum
  sum_mono p q g h [] = omega arith
  sum_mono p q g h (r ∷ rows) = ground (arith, h r, sum_mono p q g h rows)

  -- An update of one row moves the aggregate by the change of that row.
  pub sum-update_one :
      (p q : A → Bool) (f : A → A) (g : A → ℕ) (rows : List A) {r : A}
      → select p rows ≡ some r
      → count p rows ≤ 1
      → sum q g (update p f rows) + (if q r then g r else 0)
        ≡ sum q g rows + (if q (f r) then g (f r) else 0)
  unfolding update sum select
  sum-update_one p q f g [] h u = cc
  sum-update_one p q f g (x ∷ rows) {r} h u =
      ground (arith, sum-update_one p q f g rows {r = r}, update-none p f rows)

  pub sum-delete_le :
      (p q : A → Bool) (g : A → ℕ) (rows : List A) → sum q g (delete p rows) ≤ sum q g rows
  unfolding delete sum
  sum-delete_le p q g [] = omega arith
  sum-delete_le p q g (r ∷ rows) = ground (arith, sum-delete_le p q g rows)

  -- A deletion of rows outside the test leaves the aggregate alone.
  pub sum-delete_same :
      (p q : A → Bool) (g : A → ℕ)
      → ((r : A) → p r ≡ true → q r ≡ false)
      → (rows : List A) → sum q g (delete p rows) ≡ sum q g rows
  unfolding delete sum
  sum-delete_same p q g h [] = refl
  sum-delete_same p q g h (r ∷ rows) = ground (arith, h r, sum-delete_same p q g h rows)

  -- A deletion of rows outside the test keeps a row that passes.
  pub exists-delete :
      (p q : A → Bool)
      → ((r : A) → q r ≡ true → p r ≡ false)
      → (rows : List A) → exists q (delete p rows) ≡ exists q rows
  unfolding delete exists
  exists-delete p q h [] = refl
  exists-delete p q h (r ∷ rows) = ground (arith, h r, exists-delete p q h rows)

  pub exists-insert :
      (q : A → Bool) (r : A) (rows : List A)
      → exists q rows ≡ true
      → exists q (insert r rows) ≡ true
  unfolding insert exists
  exists-insert q r [] h = cc
  exists-insert q r (x ∷ rows) h = ground (arith, exists-insert q r rows)

  -- An update that leaves a row's test alone leaves its existence alone.
  pub exists-update :
      (p q : A → Bool) (f : A → A)
      → ((r : A) → p r ≡ true → q (f r) ≡ q r)
      → (rows : List A) → exists q (update p f rows) ≡ exists q rows
  unfolding update exists
  exists-update p q f h [] = refl
  exists-update p q f h (r ∷ rows) = ground (arith, h r, exists-update p q f h rows)

  pub All-insert {κ} :
      (P : A → Type κ) (r : A) (rows : List A) → P r → All P rows → All P (insert r rows)
  unfolding insert
  All-insert P r [] h k = (h, tt)
  All-insert P r (x ∷ rows) h k = (k.0, All-insert P r rows h k.1)

  pub All-delete {κ} :
      (P : A → Type κ) (p : A → Bool) (rows : List A) → All P rows → All P (delete p rows)
  unfolding delete
  All-delete P p [] h = tt
  All-delete P p (r ∷ rows) h = elim (Bool-cases (p r)) [
    | inl e ↦ rw e (All-delete P p rows h.1)
    | inr e ↦ rw e (h.0, All-delete P p rows h.1)
  ]

  pub All-select_all {κ} :
      (P : A → Type κ) (p : A → Bool) (rows : List A) → All P rows → All P (select_all p rows)
  unfolding select_all
  All-select_all P p [] h = tt
  All-select_all P p (r ∷ rows) h = elim (Bool-cases (p r)) [
    | inl e ↦ rw e (h.0, All-select_all P p rows h.1)
    | inr e ↦ rw e (All-select_all P p rows h.1)
  ]

  -- What an update leaves, from what the rows had.
  pub All-update {κ μ} :
      (Q : A → Type κ) (P : A → Type μ) (p : A → Bool) (f : A → A)
      → ((r : A) → p r ≡ true → Q r → P (f r))
      → ((r : A) → Q r → P r)
      → (rows : List A) → All Q rows
      → All P (update p f rows)
  unfolding update
  All-update Q P p f h k [] q = tt
  All-update Q P p f h k (r ∷ rows) q = elim (Bool-cases (p r)) [
    | inl e ↦ rw e (h r e q.0, All-update Q P p f h k rows q.1)
    | inr e ↦ rw e (k r q.0, All-update Q P p f h k rows q.1)
  ]

  -- The one row that passes is the one that the select gives.
  All-absent :
      (p : A → Bool) (s : A) (rows : List A) → count p rows ≡ 0 → All (λ r. p r ≡ true → r ≡ s) rows
  unfolding sum
  All-absent p s [] h = tt
  All-absent p s (r ∷ rows) h = (λ e. absurd (ground arith), All-absent p s rows (ground arith))

  pub All-unique :
      (p : A → Bool) (rows : List A) {s : A}
      → select p rows ≡ some s
      → count p rows ≤ 1
      → All (λ r. p r ≡ true → r ≡ s) rows
  unfolding select sum
  All-unique p [] e u = tt
  All-unique p (r ∷ rows) {s} e u = elim (Bool-cases (p r)) [
    | inl t ↦ (λ _. ground arith, All-absent p s rows (ground arith))
    | inr f ↦ (λ t. absurd (ground arith), All-unique p rows (ground arith) (ground arith))
  ]

  pub All-and {κ μ} :
      (P : A → Type κ) (Q : A → Type μ) (rows : List A)
      → All P rows
      → All Q rows
      → All (λ r. P r × Q r) rows
  All-and P Q [] h k = tt
  All-and P Q (r ∷ rows) h k = ((h.0, k.0), All-and P Q rows h.1 k.1)

  pub All-map {κ μ} :
      (P : A → Type κ) (Q : A → Type μ)
      → ((r : A) → P r → Q r)
      → (rows : List A) → All P rows
      → All Q rows
  All-map P Q h [] k = tt
  All-map P Q h (r ∷ rows) k = (h r k.0, All-map P Q h rows k.1)
