-- ===== src/AutoUpdate/Interval/Bounds.antt =====
-- The poll interval that the controller uses.
use hermes_operator.Common.{ℕ, ◌≤◌, String, Option, none, some, ◌≡◌, arith, is_empty, false}
use hermes_operator.Kube.Result.{ok}
use hermes_operator.AutoUpdate.{ℤ, pos, negsuc}
use hermes_operator.AutoUpdate.Interval.{
  least_interval, greatest_interval, parsed, parse_poll_interval,
}

parsed_bounds :
    (o : Option ℤ) (d : ℕ) → parsed o ≡ ok d → (least_interval ≤ d) × (d ≤ greatest_interval)
unfolding parsed
parsed_bounds none d e = absurd (ground arith)
parsed_bounds (some (pos n)) d e = ground arith
parsed_bounds (some (negsuc n)) d e = ground arith

-- Whatever the text, an interval that is accepted lies between 15 minutes and 168 hours.
pub parse_poll_interval_bounds :
    (parse : String → Option ℤ) (s : String) (d : ℕ)
    → parse_poll_interval parse s ≡ ok d
    → (least_interval ≤ d) × (d ≤ greatest_interval)
unfolding parse_poll_interval
parse_poll_interval_bounds parse s d e = ground (arith, parsed_bounds (parse s) d)

-- A duration within the bounds is used as it is.
pub parse_poll_interval_exact :
    (parse : String → Option ℤ) (s : String) (d : ℕ)
    → is_empty s ≡ false
    → parse s ≡ some (pos d)
    → least_interval ≤ d
    → d ≤ greatest_interval
    → parse_poll_interval parse s ≡ ok d
unfolding parse_poll_interval
parse_poll_interval_exact parse s d nonempty e lo hi = ground arith
