-- ===== src/Base/Triples.antt =====
-- Triples for `Effect`: what holds before a run, after its answer, and after what it throws.
use mathlib.Core.Path.{◌≡◌, refl}
use mathlib.Core.Bool.{Bool, true, false}
use catfee_io.Base.Tests.{if◌then◌else◌}
use catfee_io.Base.Results.{Result, ok, err}
use catfee_io.Base.Effects.{
  Effect, lift, continue, recover, attempt, ignore, ◌>>=◌, when, return, throw,
}

abbrev pub Post {ℓ κ μ} :
    {S : Type ℓ} {E : Type κ} {A : Type μ}
    → (A → S → Type 0)
    → (E → S → Type 0)
    → Result E A × S
    → Type 0
Post Q R (ok a, s) = Q a s
Post Q R (err e, s) = R e s

pub record Triple {ℓ κ μ} {S : Type ℓ} {E : Type κ} {A : Type μ} (P : S → Type 0) (m : Effect S E A)
    (Q : A → S → Type 0) (R : E → S → Type 0) : Type (ℓ ⊔ κ ⊔ μ) where
  pub run : (s : S) → P s → Post Q R (m s)

-- The same holds before and after, whichever way the run ends.
abbrev pub Keeps {ℓ κ μ} :
    {S : Type ℓ} {E : Type κ} {A : Type μ} → (S → Type 0) → Effect S E A → Type (ℓ ⊔ κ ⊔ μ)
Keeps P m = Triple P m (λ _. P) (λ _. P)

module _ {ℓ κ μ} {S : Type ℓ} {E : Type κ} {A : Type μ} where
  weaken-Post :
      {Q Q' : A → S → Type 0} {R R' : E → S → Type 0}
      → ((a : A) (s : S) → Q a s → Q' a s)
      → ((e : E) (s : S) → R e s → R' e s)
      → (x : Result E A × S) → Post Q R x
      → Post Q' R' x
  weaken-Post hq hr (ok a, s) q = hq a s q
  weaken-Post hq hr (err e, s) r = hr e s r

  pub weaken :
      {P P' : S → Type 0} {Q Q' : A → S → Type 0} {R R' : E → S → Type 0} {m : Effect S E A}
      → ((s : S) → P' s → P s)
      → ((a : A) (s : S) → Q a s → Q' a s)
      → ((e : E) (s : S) → R e s → R' e s)
      → Triple P m Q R
      → Triple P' m Q' R'
  weaken hp hq hr hm = record { run = λ s p. weaken-Post hq hr _ (hm.run s (hp s p)) }

  pub before :
      {P P' : S → Type 0} {Q : A → S → Type 0} {R : E → S → Type 0} {m : Effect S E A}
      → ((s : S) → P' s → P s)
      → Triple P m Q R
      → Triple P' m Q R
  before hp hm = record { run = λ s p. hm.run s (hp s p) }

  both_Post :
      (Q Q' : A → S → Type 0) (R R' : E → S → Type 0) (x : Result E A × S)
      → Post Q R x
      → Post Q' R' x
      → Post (λ a s. Q a s × Q' a s) (λ e s. R e s × R' e s) x
  both_Post Q Q' R R' (ok a, s) q q' = (q, q')
  both_Post Q Q' R R' (err e, s) r r' = (r, r')

  pub both :
      {P P' : S → Type 0} {Q Q' : A → S → Type 0} {R R' : E → S → Type 0} {m : Effect S E A}
      → Triple P m Q R
      → Triple P' m Q' R'
      → Triple (λ s. P s × P' s) m (λ a s. Q a s × Q' a s) (λ e s. R e s × R' e s)
  both {P} {P'} {Q} {Q'} {R} {R'} hm hm' = record {
    run = λ s p. both_Post Q Q' R R' _ (hm.run s p.0) (hm'.run s p.1);
  }

  recover-Post :
      (Q : A → S → Type 0) (R T : E → S → Type 0) (h : E → Effect S E A)
      → ((e : E) → Triple (R e) (h e) Q T)
      → (x : Result E A × S) → Post Q R x
      → Post Q T (recover h x)
  recover-Post Q R T h hh (ok a, s) q = q
  recover-Post Q R T h hh (err e, s) r = (hh e).run s r

  pub attempt-Triple :
      {P : S → Type 0} {Q : A → S → Type 0} {R T : E → S → Type 0} {m : Effect S E A}
      {h : E → Effect S E A}
      → Triple P m Q R
      → ((e : E) → Triple (R e) (h e) Q T)
      → Triple P (attempt m h) Q T
  unfolding attempt
  attempt-Triple {P} {Q} {R} {T} {m} {h} hm hh = record {
    run = λ s p. recover-Post Q R T h hh _ (hm.run s p);
  }

  pub after_Post : (P : S → Type 0) (x : Result E A × S) → Post (λ _. P) (λ _. P) x → P x.1
  after_Post P (ok a, s) q = q
  after_Post P (err e, s) r = r

  pub ignore-Triple :
      {P Q : S → Type 0} {R : E → S → Type 0} {m : Effect S E A}
      → Triple P m (λ _. Q) (λ _. Q)
      → Triple P (ignore m) (λ _. Q) R
  unfolding ignore
  ignore-Triple {P} {Q} hm = record { run = λ s p. after_Post Q _ (hm.run s p) }

  any_Post : (x : Result E A × S) → Post (λ _ _. Unit {0}) (λ _ _. Unit {0}) x
  any_Post (ok a, s) = tt
  any_Post (err e, s) = tt

  pub any_Triple :
      {P : S → Type 0} {m : Effect S E A} → Triple P m (λ _ _. Unit {0}) (λ _ _. Unit {0})
  any_Triple = record { run = λ s p. any_Post _ }

  -- A fact that does not depend on the state, known before the run.
  pub given :
      {P : S → Type 0} {F : Type 0} {Q : A → S → Type 0} {R : E → S → Type 0} {m : Effect S E A}
      → (F → Triple P m Q R)
      → Triple (λ s. P s × F) m Q R
  given h = record { run = λ s p. (h p.1).run s p.0 }

  total_Post : (Q : S → Type 0) → ((s : S) → Q s) → (x : Result E A × S) → Post (λ _. Q) (λ _. Q) x
  total_Post Q h (ok a, s) = h s
  total_Post Q h (err e, s) = h s

  -- What every state has, every run leaves.
  pub total_Triple :
      {P Q : S → Type 0} {m : Effect S E A} → ((s : S) → Q s) → Triple P m (λ _. Q) (λ _. Q)
  total_Triple {P} {Q} h = record { run = λ s p. total_Post Q h _ }

  pub return-Triple :
      {P : S → Type 0} {Q : A → S → Type 0} {R : E → S → Type 0} (a : A)
      → ((s : S) → P s → Q a s)
      → Triple P (return a) Q R
  unfolding return
  return-Triple a h = record { run = h }

  pub throw-Triple :
      {P : S → Type 0} {Q : A → S → Type 0} {R : E → S → Type 0} (e : E)
      → ((s : S) → P s → R e s)
      → Triple P (throw e) Q R
  unfolding throw
  throw-Triple e h = record { run = h }

  lift-Post :
      (P : S → Type 0) (Q : A → S → Type 0) (R : E → S → Type 0) (r : Result E A) (s : S)
      → ((a : A) → r ≡ ok a → Q a s)
      → ((e : E) → r ≡ err e → R e s)
      → Post Q R (r, s)
  lift-Post P Q R (ok a) s hq hr = hq a refl
  lift-Post P Q R (err e) s hq hr = hr e refl

  -- What was computed without the state leaves it alone.
  pub lift-Triple :
      {P : S → Type 0} {Q : A → S → Type 0} {R : E → S → Type 0} (r : Result E A)
      → ((a : A) (s : S) → r ≡ ok a → P s → Q a s)
      → ((e : E) (s : S) → r ≡ err e → P s → R e s)
      → Triple P (lift r) Q R
  unfolding lift
  lift-Triple {P} {Q} {R} r hq hr = record {
    run = λ s p. lift-Post P Q R r s (λ a e. hq a s e p) (λ x e. hr x s e p);
  }

  pub lift-Keeps : {P : S → Type 0} (r : Result E A) → Keeps P (lift r)
  lift-Keeps r = lift-Triple r (λ a s e p. p) (λ x s e p. p)

module _ {ℓ κ μ ν} {S : Type ℓ} {E : Type κ} {A : Type μ} {B : Type ν} where
  continue-Post :
      (Q : A → S → Type 0) (T : B → S → Type 0) (R : E → S → Type 0) (k : A → Effect S E B)
      → ((a : A) → Triple (Q a) (k a) T R)
      → (x : Result E A × S) → Post Q R x
      → Post T R (continue k x)
  continue-Post Q T R k hk (ok a, s) q = (hk a).run s q
  continue-Post Q T R k hk (err e, s) r = r

  pub bind :
      {P : S → Type 0} {Q : A → S → Type 0} {T : B → S → Type 0} {R : E → S → Type 0}
      {m : Effect S E A} {k : A → Effect S E B}
      → Triple P m Q R
      → ((a : A) → Triple (Q a) (k a) T R)
      → Triple P (m >>= k) T R
  unfolding ◌>>=◌
  bind {P} {Q} {T} {R} {m} {k} hm hk = record {
    run = λ s p. continue-Post Q T R k hk _ (hm.run s p);
  }

pub when-Triple {ℓ κ} :
    {S : Type ℓ} {E : Type κ} {P Q : S → Type 0} {R : E → S → Type 0} {m : Effect S E (Unit {0})}
    (b : Bool)
    → (b ≡ true → Triple P m (λ _. Q) R)
    → (b ≡ false → (s : S) → P s → Q s)
    → Triple P (when b m) (λ _. Q) R
unfolding when return
when-Triple true hm hn = hm refl
when-Triple false hm hn = record { run = hn refl }

pub if-Triple {ℓ κ μ} :
    {S : Type ℓ} {E : Type κ} {A : Type μ} {P : S → Type 0} {Q : A → S → Type 0}
    {R : E → S → Type 0} {m k : Effect S E A} (b : Bool)
    → (b ≡ true → Triple P m Q R)
    → (b ≡ false → Triple P k Q R)
    → Triple P (if b then m else k) Q R
if-Triple true hm hk = hm refl
if-Triple false hm hk = hk refl
