-- ===== src/Broadcast/Sponsor/Whole.antt =====
-- A whole run of `sponsorAndForward` of src/broadcast-processor.ts.
use catfee_io.Base.{false}
use catfee_io.Base.Results.{Result}
use catfee_io.Base.Effects.{Effect, attempt}
use catfee_io.Failures.{Failure}
use catfee_io.Gateway.Requests.{Transaction}
use catfee_io.Resources.World.{Session}
use catfee_io.Broadcast.{Config, Wire, Response}
use catfee_io.Broadcast.Sponsor.{Progress, Run, sponsor_try}
use catfee_io.Broadcast.Sponsor.Caught.{sponsor_catch}

abbrev pub start : Session → Progress
start s = record {
  session = s;
  created = false;
  address_claimed = false;
  retain_address_claim = false;
  quota_reserved = false;
  forward_attempted = false;
  provider_order_may_be_charged = false;
}

-- The try block with its catch block.
unfoldable pub sponsor_run : Wire → Config → Transaction → Run Response
unfolding sponsor_try sponsor_catch
sponsor_run w c t = attempt (sponsor_try w c t) (sponsor_catch w c t)

abbrev pub drop_flags {ℓ} : {A : Type ℓ} → Result Failure A × Progress → Result Failure A × Session
drop_flags (r, p) = (r, p.session)

unfoldable pub sponsor_and_forward : Wire → Config → Transaction → Effect Session Failure Response
unfolding sponsor_run
sponsor_and_forward w c t s = drop_flags (sponsor_run w c t (start s))
