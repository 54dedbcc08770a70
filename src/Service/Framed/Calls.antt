-- ===== src/Service/Framed/Calls.antt =====
-- A call of the provider repository from `orderEnergy` of src/providers/service.ts leaves the tables of the
-- gateway alone, whatever becomes of its connection.
use catfee_io.Base.{ℕ, ◌≡◌, arith, refl}
use catfee_io.Base.Results.{Result, ok, err}
use catfee_io.Store.{StoreError, Database, Provider, Text, Time}
use catfee_io.Providers.Orders.{start_attempt}
use catfee_io.Providers.Settle.{
  mark_rejected, mark_unknown, mark_accepted, Acceptance, reject_without_provider,
}
use catfee_io.Providers.Steps.{mark_accepted-transition}
use catfee_io.Link.{Fault, answered, lost_before, lost_after, through}
use catfee_io.Service.{reached, read, OrderSite, World}
use catfee_io.Service.Framed.{
  Frame, same, same_then, transition_attempt-Frame, update_orders-Frame, start_attempt-Frame,
}

-- What a call comes to leaves them.
abbrev pub FramesResult {ℓ} :
    {A : Type ℓ} → Database → Result (StoreError × Database) (A × Database) → Type 0
FramesResult db (ok (a, d)) = Frame db d
FramesResult db (err (e, d)) = Frame db d

module _ (db : Database) where
  -- A call that leaves them when it is answered leaves them whatever becomes of its connection.
  pub through-Frames {ℓ} :
      {A : Type ℓ} (f : Fault) (base : Database) (r : Result StoreError (A × Database))
      → Frame db base
      → ((a : A) (d : Database) → r ≡ ok (a, d) → Frame base d)
      → FramesResult db (through f base r)
  unfolding through
  through-Frames answered base (ok (a, d)) v h = same_then v (h a d refl)
  through-Frames answered base (err e) v h = v
  through-Frames (lost_before m) base r v h = v
  through-Frames (lost_after m) base (ok (a, d)) v h = same_then v (h a d refl)
  through-Frames (lost_after m) base (err e) v h = v

  pub from_ok {ℓ} :
      {A : Type ℓ} (r : Result (StoreError × Database) (A × Database)) {a : A} {d : Database}
      → r ≡ ok (a, d)
      → FramesResult db r
      → Frame db d
  from_ok (ok (a', d')) {d} e v = let same : d' ≡ d = ground arith in rw (← same) v
  from_ok (err x) e v = absurd (ground arith)

  pub from_err {ℓ} :
      {A : Type ℓ} (r : Result (StoreError × Database) (A × Database)) {x : StoreError}
      {d : Database}
      → r ≡ err (x, d)
      → FramesResult db r
      → Frame db d
  from_err (err (x', d')) {d = d} e v = let same : d' ≡ d = ground arith in rw (← same) v
  from_err (ok a) e v = absurd (ground arith)

  pub reads-Frames {ℓ} :
      {A : Type ℓ} (w : World) (site : OrderSite) (d : Database) (f : Database → A)
      → Frame db d
      → FramesResult db (read w site d f)
  reads-Frames w site d f v =
      through-Frames (w.link site) d _ v
        (λ a d' e. let unread : d ≡ d' = ground arith in rw (← unread) (same d))

  pub rejects-Frames :
      (w : World) (site : OrderSite) (id : ℕ) (p : Provider) (code : Text) (now : Time)
      (d : Database)
      → Frame db d
      → FramesResult db (reached w site d (mark_rejected id p code now))
  unfolding mark_rejected
  rejects-Frames w site id p code now d v =
      through-Frames (w.link site) d _ v (λ o d' e. transition_attempt-Frame _ _ _ _ d d' o e)

  pub loses-Frames :
      (w : World) (site : OrderSite) (id : ℕ) (p : Provider) (code : Text) (now : Time)
      (d : Database)
      → Frame db d
      → FramesResult db (reached w site d (mark_unknown id p code now))
  unfolding mark_unknown
  loses-Frames w site id p code now d v =
      through-Frames (w.link site) d _ v (λ o d' e. transition_attempt-Frame _ _ _ _ d d' o e)

  pub accepts-Frames :
      (w : World) (site : OrderSite) (id : ℕ) (p : Provider) (a : Acceptance) (now : Time)
      (d : Database)
      → Frame db d
      → FramesResult db (reached w site d (mark_accepted w.columns id p a now))
  accepts-Frames w site id p a now d v = through-Frames (w.link site) d _ v λ o d' e.
      let (stored, e') = mark_accepted-transition w.columns id p a now d d' o e in
      transition_attempt-Frame _ _ _ _ d d' o e'

  pub refuses-Frames :
      (w : World) (site : OrderSite) (id : ℕ) (code : Text) (now : Time) (d : Database)
      → Frame db d
      → FramesResult db (reached w site d (reject_without_provider id code now))
  unfolding reject_without_provider
  refuses-Frames w site id code now d v =
      through-Frames (w.link site) d _ v (λ o d' e. update_orders-Frame _ _ d d' o e)

  pub starts-Frames :
      (w : World) (site : OrderSite) (id c amount : ℕ) (now : Time) (d : Database)
      → Frame db d
      → FramesResult db (reached w site d (start_attempt w.decrypt w.limits id c amount w.day now))
  starts-Frames w site id c amount now d v =
      through-Frames (w.link site) d _ v (λ x d' e. start_attempt-Frame _ _ _ _ _ _ _ d d' x e)
