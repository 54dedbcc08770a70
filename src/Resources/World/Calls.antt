-- ===== src/Resources/World/Calls.antt =====
-- What one call of a repository keeps, whatever becomes of its connection.
use catfee_io.Base.{arith, ◌≡◌, refl}
use catfee_io.Base.Results.{Result, ok, err}
use catfee_io.Base.Triples.{Keeps, Post, Triple}
use catfee_io.Store.{Database, StoreError}
use catfee_io.Resources.World.{
  Node, Session, Site, Fault, answered, lost_before, lost_after, commit, call, writes,
}

module _ (n : Node) where
  commit-Post {ℓ} :
      (P : Session → Type 0) {A : Type ℓ} (s : Session)
      → P s
      → (f : Fault) (r : Result StoreError (A × Database))
      → ((a : A) (db : Database) → r ≡ ok (a, db) → P (record s { database = db }))
      → Post (λ _. P) (λ _. P) (commit n s f r)
  commit-Post P s p answered (ok (a, db)) h = h a db refl
  commit-Post P s p answered (err e) h = p
  commit-Post P s p (lost_before m) r h = p
  commit-Post P s p (lost_after m) (ok (a, db)) h = h a db refl
  commit-Post P s p (lost_after m) (err e) h = p

  pub call-Keeps {ℓ} :
      {P : Session → Type 0} {A : Type ℓ} (site : Site)
      (op : Database → Result StoreError (A × Database))
      → ((s : Session) (a : A) (db : Database)
          → P s
          → op s.database ≡ ok (a, db)
          → P (record s { database = db }))
      → Keeps P (call n site op)
  unfolding call
  call-Keeps {P = P} site op h = record {
    run = λ s p. commit-Post P s p (n.link site) (op s.database) (λ a db e. h s a db p e);
  }

  commit_by_answer {ℓ} :
      {A : Type ℓ} (Q : A → Session → Type 0) (R : Session → Type 0) (s : Session)
      → R s
      → (f : Fault) (r : Result StoreError (A × Database))
      → ((a : A) (db : Database) → r ≡ ok (a, db) → Q a (record s { database = db }))
      → ((a : A) (db : Database) → r ≡ ok (a, db) → R (record s { database = db }))
      → Post Q (λ _. R) (commit n s f r)
  commit_by_answer Q R s p answered (ok (a, db)) h k = h a db refl
  commit_by_answer Q R s p answered (err e) h k = p
  commit_by_answer Q R s p (lost_before m) r h k = p
  commit_by_answer Q R s p (lost_after m) (ok (a, db)) h k = k a db refl
  commit_by_answer Q R s p (lost_after m) (err e) h k = p

  -- A call after which the answer and the loss of the connection tell different things.
  pub call-Triple {ℓ} :
      {A : Type ℓ} {P R : Session → Type 0} {Q : A → Session → Type 0} (site : Site)
      (op : Database → Result StoreError (A × Database))
      → ((s : Session) → P s → R s)
      → ((s : Session) (a : A) (db : Database)
          → P s
          → op s.database ≡ ok (a, db)
          → Q a (record s { database = db }))
      → ((s : Session) (a : A) (db : Database)
          → P s
          → op s.database ≡ ok (a, db)
          → R (record s { database = db }))
      → Triple P (call n site op) Q (λ _. R)
  unfolding call
  call-Triple {A} {P} {R} {Q} site op start h k = record {
    run = λ s p.
        commit_by_answer Q R s (start s p) (n.link site) (op s.database) (λ a db e. h s a db p e)
          (λ a db e. k s a db p e);
  }

  -- A statement that cannot fail.
  pub writes-Keeps :
      {P : Session → Type 0} (site : Site) (f : Database → Database)
      → ((s : Session) → P s → P (record s { database = f s.database }))
      → Keeps P (writes n site f)
  writes-Keeps {P} site f h =
      call-Keeps site _
        (λ s a db p e. let same : f s.database ≡ db = ground arith in rw (← same) (h s p))

  -- A query, which leaves the tables as they are.
  pub reads-Keeps {ℓ} :
      {P : Session → Type 0} {A : Type ℓ} (site : Site) (f : Database → A)
      → Keeps P (call n site λ db. ok (f db, db))
  reads-Keeps {P} site f =
      call-Keeps site _ (λ s a db p e. let same : s.database ≡ db = ground arith in rw (← same) p)
