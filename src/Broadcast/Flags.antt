-- ===== src/Broadcast/Flags.antt =====
-- Triples for the runs of `sponsorAndForward` of src/broadcast-processor.ts.
use catfee_io.Base.{◌≡◌, refl}
use catfee_io.Base.Results.{Result, ok, err}
use catfee_io.Base.Effects.{Effect}
use catfee_io.Base.Triples.{Triple, Keeps, Post}
use catfee_io.Store.{Database, StoreError, Text}
use catfee_io.Failures.{Failure, other}
use catfee_io.Resources.World.{
  Session, Node, Site, Fault, answered, lost_before, lost_after, commit, call, asks,
}
use catfee_io.Broadcast.Sponsor.{Progress, back, on_session, sets, reads, sends, counted}
use catfee_io.Broadcast.{Response}

module _ {ℓ} {A : Type ℓ} where
  back-Post :
      (Q : A → Session → Type 0) (R : Failure → Session → Type 0) (Q' : A → Progress → Type 0)
      (R' : Failure → Progress → Type 0) (p : Progress)
      → ((a : A) (s : Session) → Q a s → Q' a (record p { session = s }))
      → ((e : Failure) (s : Session) → R e s → R' e (record p { session = s }))
      → (x : Result Failure A × Session) → Post Q R x
      → Post Q' R' (back p x)
  back-Post Q R Q' R' p hq hr (ok a, s) q = hq a s q
  back-Post Q R Q' R' p hq hr (err e, s) r = hr e s r

  -- What a call does to the session, with the flags as they were.
  pub on_session-Triple :
      {P' : Session → Type 0} {Q : A → Session → Type 0} {R : Failure → Session → Type 0}
      {P : Progress → Type 0} {Q' : A → Progress → Type 0} {R' : Failure → Progress → Type 0}
      {m : Effect Session Failure A}
      → Triple P' m Q R
      → ((p : Progress) → P p → P' p.session)
      → ((p : Progress) (a : A) (s : Session) → P p → Q a s → Q' a (record p { session = s }))
      → ((p : Progress) (e : Failure) (s : Session) → P p → R e s → R' e (record p { session = s }))
      → Triple P (on_session m) Q' R'
  unfolding on_session
  on_session-Triple {Q} {R} {Q'} {R'} hm hp hq hr = record {
    run = λ p v.
        back-Post Q R Q' R' p (λ a s. hq p a s v) (λ e s. hr p e s v) _ (hm.run p.session (hp p v));
  }

pub sets-Triple :
    {P Q : Progress → Type 0} {R : Failure → Progress → Type 0} (f : Progress → Progress)
    → ((p : Progress) → P p → Q (f p))
    → Triple P (sets f) (λ _. Q) R
unfolding sets
sets-Triple f h = record { run = h }

answer_Post :
    (Q : Progress → Type 0) (upstream : Result Text Response) (p : Progress)
    → Q p
    → Post (λ _. Q) (λ _. Q) (asks upstream, p)
answer_Post Q (ok r) p q = q
answer_Post Q (err m) p q = q

-- The upstream is asked once more, whatever it answers.
pub sends-Triple :
    {P Q : Progress → Type 0} (upstream : Result Text Response)
    → ((p : Progress) → P p → Q (counted p))
    → Triple P (sends upstream) (λ _. Q) (λ _. Q)
unfolding sends
sends-Triple {P} {Q} upstream h = record { run = λ p v. answer_Post Q upstream (counted p) (h p v) }

-- The flags that were read are those of the state.
pub reads-Triple :
    {P : Progress → Type 0} {R : Failure → Progress → Type 0}
    → Triple P reads (λ q p. (q ≡ p) × P p) R
unfolding reads
reads-Triple = record { run = λ p v. (refl, v) }

-- The state after a statement.
abbrev pub at_database : Progress → Database → Progress
at_database p db = record p { session = record p.session { database = db } }

commit-Post {ℓ} :
    {A : Type ℓ} (n : Node) (Q : A → Progress → Type 0) (R : Failure → Progress → Type 0)
    (p : Progress) (f : Fault) (r : Result StoreError (A × Database))
    → ((a : A) (db : Database) → r ≡ ok (a, db) → Q a (at_database p db))
    → ((a : A) (db : Database) (m : Text) → r ≡ ok (a, db) → R (other m) (at_database p db))
    → ((m : Text) → R (other m) p)
    → Post Q R (back p (commit n p.session f r))
commit-Post n Q R p answered (ok (a, db)) hq hl he = hq a db refl
commit-Post n Q R p answered (err e) hq hl he = he _
commit-Post n Q R p (lost_before m) r hq hl he = he m
commit-Post n Q R p (lost_after m) (ok (a, db)) hq hl he = hl a db m refl
commit-Post n Q R p (lost_after m) (err e) hq hl he = he m

-- One call: what holds if it is answered, if its answer is lost, and if it does nothing.
pub step-Triple {ℓ} :
    {A : Type ℓ} {P : Progress → Type 0} {Q : A → Progress → Type 0}
    {R : Failure → Progress → Type 0} (n : Node) (site : Site)
    (op : Database → Result StoreError (A × Database))
    → ((p : Progress) (a : A) (db : Database)
        → P p
        → op p.session.database ≡ ok (a, db)
        → Q a (at_database p db))
    → ((p : Progress) (a : A) (db : Database) (m : Text)
        → P p
        → op p.session.database ≡ ok (a, db)
        → R (other m) (at_database p db))
    → ((p : Progress) (m : Text) → P p → R (other m) p)
    → Triple P (on_session (call n site op)) Q R
unfolding on_session call
step-Triple {Q} {R} n site op hq hl he = record {
  run = λ p v.
      commit-Post n Q R p (n.link site) (op p.session.database) (λ a db e. hq p a db v e)
        (λ a db m e. hl p a db m v e) (λ m. he p m v);
}

-- What holds before and after, whatever becomes of the call.
pub step-Keeps {ℓ} :
    {A : Type ℓ} {P : Progress → Type 0} (n : Node) (site : Site)
    (op : Database → Result StoreError (A × Database))
    → ((p : Progress) (a : A) (db : Database)
        → P p
        → op p.session.database ≡ ok (a, db)
        → P (at_database p db))
    → Keeps P (on_session (call n site op))
step-Keeps n site op h = step-Triple n site op h (λ p a db m v e. h p a db v e) (λ p m v. v)
