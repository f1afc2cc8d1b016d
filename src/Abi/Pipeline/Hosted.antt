-- ===== src/Abi/Pipeline/Hosted.antt =====
-- A stream of the host's own client, from the answers of the host to what the host is sent, by
-- `callHost` of cmd/commandcode/abi.go on both ends.
use cpa_plugin_commandcode.Base.{
  ℕ, ◌≤◌, Bytes, true, false, Option, some, List, [], length, All, inr, is_empty, ◌≡◌, ap, ◌∙◌,
}
use cpa_plugin_commandcode.Config.{ApiKeyEntry, PluginConfig}
use cpa_plugin_commandcode.Json.{Json}
use cpa_plugin_commandcode.Pool.{Net, host_doer}
use cpa_plugin_commandcode.Stream.{split_lines}
use cpa_plugin_commandcode.Stream.Chunks.{Fits}
use cpa_plugin_commandcode.Stream.Whole.{split_newlines}
use cpa_plugin_commandcode.Executor.{ExecutorRequest, endpoint}
use cpa_plugin_commandcode.Executor.Run.{World}
use cpa_plugin_commandcode.Send.{Network}
use cpa_plugin_commandcode.Abi.HostStream.{text_of}
use cpa_plugin_commandcode.Abi.Calls.{HostApi, HostStream}
use cpa_plugin_commandcode.Abi.Answers.{IsAnswer}
use cpa_plugin_commandcode.Abi.Delivery.{delivery, framed}
use cpa_plugin_commandcode.Abi.HostClient.{
  HostWire, no_host_stream, read_calls, http_do_stream, with_host, http_do_stream-IsAnswer,
}
use cpa_plugin_commandcode.Abi.Pipeline.{Goroutine}
use cpa_plugin_commandcode.Abi.Pipeline.Refines.{calls_of}
use cpa_plugin_commandcode.Abi.Pipeline.Progress.{IsDone}
use cpa_plugin_commandcode.Abi.Pipeline.Fair.{IsRound}
use cpa_plugin_commandcode.Abi.Pipeline.Whole.{
  framing, request_headers, request_body, inputs_of, rounds_needed, carried, interleave-host_doer,
}

module _ (json : Json) (net : Net) (w : HostWire) (base : Network net) (host : ℕ → Option HostApi)
    (hosts : ℕ → ℕ → Option HostApi) (count : ℕ) (callback : Bytes) (cfg : Option PluginConfig)
    (world : World net) (all : (k : ℕ) → world.taken k ≡ true) (req : ExecutorRequest) (n : ℕ)
    (m : ApiKeyEntry) (rounds : List (List Goroutine)) (turns : All IsRound rounds) where
  abbrev pub hosted : Network net
  hosted = with_host w base host hosts count callback

  -- If the host answers the request with a stream, and the reads of this stream with pieces of a text,
  -- then however the text is cut and whatever the order of the steps, if each goroutine gets a turn
  -- often enough, all have returned and the host has been sent the framed lines of the text, one by
  -- one, and then told that the stream is closed. The context must not end, no emit may fail, and no
  -- line may be longer than 4 MiB.
  pub interleave-hosted :
      (api : HostApi) (request : Bytes) (s : HostStream) (t : Bytes)
      → host n ≡ some api
      → w.write_request callback
          (endpoint cfg)
          (request_headers json net hosted cfg world all req n m rounds turns)
          (request_body json net hosted cfg world all req n m rounds turns)
        ≡ inr request
      → let (code, buffer) = api w.do_stream_method request in
        IsAnswer w.envelope w.stream no_host_stream code buffer s
        → is_empty s.stream_id ≡ false
        → text_of (read_calls w (hosts n) 0 count s.stream_id) ≡ some t
        → Fits json (framing json net hosted cfg world all req n m rounds turns) (split_lines t)
        → rounds_needed json net hosted cfg world all req n m rounds turns
            (inputs_of json net hosted cfg world all req n m rounds turns host_doer)
          ≤ length rounds
        → let p = carried json net hosted cfg world all req n m rounds turns host_doer in
          IsDone p
          × (calls_of p
              ≡ delivery (
                framed json
                    (framing json net hosted cfg world all req n m rounds turns)
                    (split_newlines t),
                [],
              ))
  interleave-hosted api request s t there written answered identified ended fits enough =
      let headers = request_headers json net hosted cfg world all req n m rounds turns in
      let body = request_body json net hosted cfg world all req n m rounds turns in
      interleave-host_doer json net hosted cfg world all req n m rounds turns s
        (read_calls w (hosts n) 0 count) t
        (ap
            (λ (o : Option HostApi).
              http_do_stream w o (hosts n) count callback (endpoint cfg) headers body)
            there
          ∙ http_do_stream-IsAnswer w api (hosts n) count callback (endpoint cfg) headers body
              request s written answered)
        identified ended fits enough
