-- ===== src/Usage/Tests.antt =====
-- Examples for the theorem about the usage probe.
use cpa_plugin_commandcode.Base.{codes, true, false, some, List, [], ◌∷◌, pos, ◌≡◌, refl}
use cpa_plugin_commandcode.Usage.{UsageRecord, Probe}
use cpa_plugin_commandcode.Usage.Log.{Usage, record_all, lines_of, Logs, record_all-Logs}

abbrev entry : UsageRecord
entry = record {
  model = codes "flash";
  provider = codes "commandcode";
  alias = [];
  executor = codes "commandcode";
  failed = false;
  input = pos 12;
  output = pos 3;
  reasoning = pos 0;
  cached = pos 0;
  latency = codes "1s";
  ttft = codes "0s";
}

-- A call that is logged, and one for which the file cannot be opened.
abbrev usages : List Usage
usages =
    record { now = codes "t1"; opens = true; entry = entry }
    ∷ record { now = codes "t2"; opens = false; entry = entry }
    ∷ []

abbrev armed_probe : Probe
armed_probe = record { path = codes "/tmp/p"; seen = []; file = [] }

record_all-Logs_example :
    (q : Probe) × (record_all usages (some armed_probe) ≡ some q)
    × Logs armed_probe (lines_of usages) usages q
record_all-Logs_example = record_all-Logs usages armed_probe refl
