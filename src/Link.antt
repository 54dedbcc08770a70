-- ===== src/Link.antt =====
-- The connection to the database of src/repository.ts and src/providers/repository.ts, which may break
-- at every call of a repository.
use catfee_io.Base.Results.{Result, ok, err}
use catfee_io.Store.{Database, Text, StoreError, connection_lost}

-- What becomes of a call: it is answered, or the connection breaks before or after the commit, and the
-- driver throws with a message.
pub data Fault : Type 0 where
  answered : Fault
  lost_before lost_after : Text → Fault

-- What the caller sees of a call, and the database after it.
unfoldable pub through {ℓ} :
    {A : Type ℓ}
    → Fault
    → Database
    → Result StoreError (A × Database)
    → Result (StoreError × Database) (A × Database)
through answered db (ok r) = ok r
through answered db (err e) = err (e, db)
through (lost_before m) db r = err (connection_lost, db)
through (lost_after m) db (ok (a, after)) = err (connection_lost, after)
through (lost_after m) db (err e) = err (e, db)
