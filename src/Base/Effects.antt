-- ===== src/Base/Effects.antt =====
-- Code that reads and changes a state and may throw: what it did before it threw stays done.
use mathlib.Core.Bool.{Bool, true, false}
use catfee_io.Base.Results.{Result, ok, err}

abbrev pub Effect {ℓ κ μ} : Type ℓ → Type κ → Type μ → Type (ℓ ⊔ κ ⊔ μ)
Effect S E A = S → Result E A × S

module _ {ℓ κ μ} {S : Type ℓ} {E : Type κ} {A : Type μ} where
  unfoldable pub return : A → Effect S E A
  return a s = (ok a, s)

  unfoldable pub throw : E → Effect S E A
  throw e s = (err e, s)

  -- A value that was computed without the state.
  unfoldable pub lift : Result E A → Effect S E A
  lift r s = (r, s)

  -- What goes on from an answer and the state that came with it.
  abbrev pub continue {ν} : {B : Type ν} → (A → Effect S E B) → Result E A × S → Result E B × S
  continue k (ok a, s) = k a s
  continue k (err e, s) = (err e, s)

  abbrev pub recover : (E → Effect S E A) → Result E A × S → Result E A × S
  recover h (ok a, s) = (ok a, s)
  recover h (err e, s) = h e s

  -- try … catch (e) …
  unfoldable pub attempt : Effect S E A → (E → Effect S E A) → Effect S E A
  attempt m h s = recover h (m s)

  -- What a run came to, as a value.
  unfoldable pub result_of : Effect S E A → Effect S E (Result E A)
  result_of m s = (ok (m s).0, (m s).1)

  -- try … catch { }
  unfoldable pub ignore : Effect S E A → Effect S E (Unit {0})
  ignore m s = (ok tt, (m s).1)

infixl 5 ◌>>=◌ ◌>>◌
unfoldable pub ◌>>=◌ {ℓ κ μ ν} :
    {S : Type ℓ} {E : Type κ} {A : Type μ} {B : Type ν}
    → Effect S E A
    → (A → Effect S E B)
    → Effect S E B
(m >>= k) s = continue k (m s)

abbrev pub ◌>>◌ {ℓ κ μ ν} :
    {S : Type ℓ} {E : Type κ} {A : Type μ} {B : Type ν} → Effect S E A → Effect S E B → Effect S E B
m >> k = m >>= λ _. k

-- `if (b) …`, with nothing to do otherwise
unfoldable pub when {ℓ κ} :
    {S : Type ℓ} {E : Type κ} → Bool → Effect S E (Unit {0}) → Effect S E (Unit {0})
when true m = m
when false m = return tt
