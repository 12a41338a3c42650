-- ===== src/AutoUpdate/Interval/Tests.antt =====
-- Poll intervals, with durations of which three texts are valid.
use hermes_operator.Common.{◌≤◌, String, Option, none, some, ◌≡◌, refl, str_eq, if◌then◌else◌}
use hermes_operator.Kube.Result.{ok}
use hermes_operator.AutoUpdate.{ℤ, pos, negsuc}
use hermes_operator.AutoUpdate.Interval.{least_interval, greatest_interval, parse_poll_interval}
use hermes_operator.AutoUpdate.Interval.Bounds.{parse_poll_interval_bounds}

abbrev duration : String → Option ℤ
duration s =
    if str_eq s "1m"
    then some (pos 60)
    else if str_eq s "2h"
    then some (pos 7200)
    else if str_eq s "-1s"
    then some (negsuc 0)
    else none

short_is_raised : parse_poll_interval duration "1m" ≡ ok 900
unfolding parse_poll_interval
short_is_raised = refl

parse_poll_interval_bounds_example : (least_interval ≤ 900) × (900 ≤ greatest_interval)
parse_poll_interval_bounds_example = parse_poll_interval_bounds duration "1m" 900 short_is_raised

middle_is_kept : parse_poll_interval duration "2h" ≡ ok 7200
unfolding parse_poll_interval
middle_is_kept = refl
