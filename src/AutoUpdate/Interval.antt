-- ===== src/AutoUpdate/Interval.antt =====
-- internal/controller/autoupdate.go: `parsePollInterval`.
pub mod Bounds
mod Tests
use hermes_operator.Common.{ℕ, String, Option, none, some, is_empty, ltb, if◌then◌else◌}
use hermes_operator.Kube.Result.{Result, ok, err, plain}
use hermes_operator.AutoUpdate.{ℤ, pos, negsuc}

abbrev pub hour : ℕ
hour = 3600

abbrev pub least_interval : ℕ
least_interval = 900

abbrev pub greatest_interval : ℕ
greatest_interval = 604800

clamp : ℤ → ℕ
clamp (negsuc n) = least_interval
clamp (pos d) =
    if ltb d least_interval
    then least_interval
    else if ltb greatest_interval d
    then greatest_interval
    else d

parsed : Option ℤ → Result ℕ
unfolding clamp
parsed none = err (plain "time: invalid duration")
parsed (some d) = ok (clamp d)

unfoldable pub parse_poll_interval : (String → Option ℤ) → String → Result ℕ
unfolding parsed
parse_poll_interval parse_duration s = if is_empty s then ok hour else parsed (parse_duration s)
