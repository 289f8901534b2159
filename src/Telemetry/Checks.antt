-- ===== src/Telemetry/Checks.antt =====
-- The checks at the head of `append_metric`, which touch nothing.
use aetus.Base.{Option, ltb}
use aetus.Types.{Telemetry, max_metrics, metric_key_max, metric_unit_max}
use aetus.Esp.{invalid_arg, Result, ok, ◌>>=◌, ◌>>◌, guard, or_err}
use aetus.CString.{CStr, string_fits}
use aetus.Frame.{has_text}

unfoldable pub append_checks : Option Telemetry → (key unit : CStr) → Result Telemetry
append_checks telemetry key unit = do
  t ← or_err telemetry invalid_arg
  guard (has_text key) invalid_arg
  guard (string_fits key metric_key_max) invalid_arg
  guard (string_fits unit metric_unit_max) invalid_arg
  guard (ltb t.metric_count max_metrics) invalid_arg
  ok t
