-- ===== src/Usage.antt =====
-- usage_probe.go: the diagnostic log of usage records, behind `HandleUsage` of plugin.go. Opening the
-- file, the clock and the texts of durations are parameters.
pub mod Log
mod Tests
use cpa_plugin_commandcode.Base.{
  ℕ, zero, suc, Bytes, codes, Bool, true, false, Option, none, some, List, [], ◌∷◌, ◌++◌, is_empty,
  if◌then◌else◌, ℤ, pos, negsuc,
}
use cpa_plugin_commandcode.Base.Dict.{Dict, lookup, insert}
use cpa_plugin_commandcode.Config.{or_else}
use cpa_plugin_commandcode.Reasoning.{digits}

-- pluginapi.UsageRecord, as far as it is read, with the texts of its durations.
pub record UsageRecord : Type 0 where
  pub model : Bytes
  pub provider : Bytes
  pub alias : Bytes
  pub executor : Bytes
  pub failed : Bool
  pub input : ℤ
  pub output : ℤ
  pub reasoning : ℤ
  pub cached : ℤ
  pub latency : Bytes
  pub ttft : Bytes

-- `probe`, with the bytes of the file at its path.
pub record Probe : Type 0 where
  pub path : Bytes
  pub seen : Dict ℕ
  pub file : Bytes

-- strconv.FormatInt(i, 10), of an int64.
unfoldable pub format_int : ℤ → Bytes
unfolding digits
format_int (pos zero) = codes "0"
format_int (pos (suc n)) = digits 20 (suc n) []
format_int (negsuc n) = b'-' ∷ digits 20 (suc n) []

-- strconv.FormatBool
abbrev pub format_bool : Bool → Bytes
format_bool true = codes "true"
format_bool false = codes "false"

-- `append`; the flag says whether the file can be opened.
unfoldable pub append_line : Bool → Bytes → Probe → Probe
append_line opens line p = if opens then record p { file = p.file ++ line } else p

-- The line that `startup` writes.
unfoldable pub startup_line : Bytes → Bytes
startup_line path = codes "STARTUP probe armed path=" ++ (path ++ codes "\n")

-- `startup`; a nil probe is `none`.
unfoldable pub startup : Bool → Option Probe → Option Probe
unfolding append_line startup_line
startup opens none = none
startup opens (some p) =
    if is_empty p.path then some p else some (append_line opens (startup_line p.path) p)

-- The line that `record` writes, at a time.
unfoldable pub record_line : Bytes → UsageRecord → Bytes
unfolding format_int
record_line now r =
    now
    ++ (codes " CALLED model="
        ++ (r.model
            ++ (codes " provider="
                ++ (r.provider
                    ++ (codes " alias="
                        ++ (r.alias
                            ++ (codes " executor="
                                ++ (r.executor
                                    ++ (codes " failed="
                                        ++ (format_bool r.failed
                                            ++ (codes " in="
                                                ++ (format_int r.input
                                                    ++ (codes " out="
                                                        ++ (format_int r.output
                                                            ++ (codes " reasoning="
                                                            ++ (format_int r.reasoning
                                                            ++ (codes " cached="
                                                            ++ (format_int r.cached
                                                            ++ (codes " latency="
                                                            ++ (r.latency
                                                            ++ (codes " ttft="
                                                            ++ (r.ttft
                                                            ++ codes "\n"))))))))))))))))))))))

-- `record`
unfoldable pub record_usage : Bytes → Bool → UsageRecord → Option Probe → Option Probe
unfolding append_line record_line
record_usage now opens r none = none
record_usage now opens r (some p) =
    if is_empty p.path
    then some p
    else some (
        append_line opens (record_line now r)
          (record p { seen = insert r.model (suc (or_else (lookup r.model p.seen) 0)) p.seen }))

-- `HandleUsage`
abbrev pub handle_usage : Bytes → Bool → UsageRecord → Option Probe → Option Probe
handle_usage now opens r p = record_usage now opens r p
