-- ===== src/Abi/Streamed.antt =====
-- A stream that a member of the pool can serve, as the host meets it.
use cpa_plugin_commandcode.Json.{Json}
use cpa_plugin_commandcode.Plugin.{Plugin}
use cpa_plugin_commandcode.Abi.Wire.{Wire}
