-- ===== src/Abi/Exports.antt =====
-- The exported functions of cmd/commandcode/abi.go and the state that they share.
use cpa_plugin_commandcode.Base.{
  ℕ, Bytes, codes, Bool, true, false, Option, none, some, List, [], ◌∷◌, if◌then◌else◌,
}
use cpa_plugin_commandcode.Config.{Yaml}
use cpa_plugin_commandcode.Json.{Json}
use cpa_plugin_commandcode.Pool.{Error, Net}
use cpa_plugin_commandcode.Executor.Run.{World}
use cpa_plugin_commandcode.Plugin.{Plugin}
use cpa_plugin_commandcode.Abi.{HostCall, error, error_envelope}
use cpa_plugin_commandcode.Abi.Calls.{HostApi}
use cpa_plugin_commandcode.Abi.Wire.{Wire, Handled, replied, refused, crashed, error_bytes}
use cpa_plugin_commandcode.Abi.Dispatch.{handle_method}

-- The state of the library, `abiState`.
pub record AbiState (json : Json) (net : Net) (yaml : Yaml) : Type 0 where
  pub host : Option HostApi
  pub plugin : Option (Plugin json net yaml)

-- A buffer of the ABI that an exported function fills: nil, or bytes that were allocated.
abbrev pub Buffer : Type 0
Buffer = Option Bytes

-- `writeABIResponse`: what the host finds in its buffer, with whether it gave one and malloc gives
-- memory.
unfoldable pub write_response : Bool → Bytes → Buffer
write_response allocated [] = none
write_response allocated (x ∷ raw) = if allocated then some (x ∷ raw) else none

-- The functions that the library exports in its table.
pub data Exported : Type 0 where
  call_function free_function shutdown_function : Exported

-- cliproxy_plugin_api, the host's table of the library.
pub record PluginTable : Type 0 where
  pub abi_version : ℕ
  pub call : Option Exported
  pub free_buffer : Option Exported
  pub shutdown : Option Exported

-- What `cliproxy_plugin_init` makes of a table, by the version of the host's SDK: nothing if the host
-- or the table is nil.
unfoldable pub init_table : ℕ → Option HostApi → Option PluginTable → Option PluginTable
init_table version none table = table
init_table version (some host) none = none
init_table version (some host) (some table) = some (record {
  abi_version = version;
  call = some call_function;
  free_buffer = some free_function;
  shutdown = some shutdown_function;
})

module _ (wire : Wire) (json : Json) (net : Net) (yaml : Yaml) where
  -- The end of `CommandCodePluginCall`: its code and its buffer; a panic ends the process.
  unfoldable pub finish : Bool → Handled → Option (ℕ × Buffer)
  unfolding write_response error_bytes error_envelope
  finish allocated (replied raw) = some (0, write_response allocated raw)
  finish allocated (refused e) =
      some
        (1, write_response allocated (error_bytes wire (error_envelope (codes "plugin_error") e)))
  finish allocated crashed = none

  -- `CommandCodePluginCall`: code and buffer, the calls of the host that follow, and the state. A method that is nil is `none`.
  unfoldable pub plugin_call :
      World net
      → (ℕ → Option Error)
      → Bool
      → Option Bytes
      → Bytes
      → AbiState json net yaml
      → Option (ℕ × Buffer) × List HostCall × AbiState json net yaml
  unfolding finish handle_method
  plugin_call world emit_error allocated none request s = (
    some (
      1,
      write_response allocated
          (error_bytes wire (error (codes "invalid_method") (codes "method is required") 0)),
    ),
    [],
    s,
  )
  plugin_call world emit_error allocated (some name) request s =
      let (answer, calls, plugin) =
        handle_method wire json net yaml world emit_error (wire.method_of name) name request
          s.plugin in
      (finish allocated answer, calls, record s { plugin = plugin })

  -- `cliproxy_plugin_init` on a host and a table of functions that are there or nil: its code.
  unfoldable pub plugin_init :
      Option HostApi → Bool → AbiState json net yaml → ℕ × AbiState json net yaml
  plugin_init none table s = (1, s)
  plugin_init (some host) false s = (1, s)
  plugin_init (some host) true s = (0, record s { host = some host })

  -- `CommandCodePluginShutdown`
  unfoldable pub plugin_shutdown : AbiState json net yaml → AbiState json net yaml
  plugin_shutdown s = record { host = none; plugin = none }
