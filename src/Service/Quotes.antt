-- ===== src/Service/Quotes.antt =====
-- The quote of src/providers/service.ts is the least package that an enabled provider may sell.
use catfee_io.Base.{ℕ, ◌≤◌, ◌≡◌, ◌⊎◌, Option, none, some, List, [], ◌∷◌}
use catfee_io.Store.{Provider}
use catfee_io.Service.{World}
use catfee_io.Service.Quote.{quote_of}

-- The quote covers the offer: it is there where the offer is, and no larger.
abbrev pub IsWithin : Option ℕ → Option ℕ → Type 0
IsWithin quote none = Unit
IsWithin none (some n) = ⊥
IsWithin (some m) (some n) = m ≤ n

-- One of the providers makes this offer.
abbrev pub Offers : World → ℕ → Option ℕ → Option ℕ → List Provider → Type 0
Offers w requested minimum q [] = ⊥
Offers w requested minimum q (c ∷ cs) =
    (q ≡ quote_of w requested minimum c) ⊎ Offers w requested minimum q cs
