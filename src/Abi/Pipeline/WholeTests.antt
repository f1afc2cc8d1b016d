-- ===== src/Abi/Pipeline/WholeTests.antt =====
-- Examples for the theorems about the whole way of a stream through its goroutines.
use cpa_plugin_commandcode.Base.{
  ℕ, zero, suc, Option, pos, codes, Bytes, none, some, [], ◌∷◌, inr, true, ◌≡◌, refl, arith,
  has_prefix, bytes_eq, contains,
}
use cpa_plugin_commandcode.Base.Trim.{trim_space}
use cpa_plugin_commandcode.Config.{zero_config}
use cpa_plugin_commandcode.Pool.{Transport, http_proxy, host_doer, std_doer, plain_error}
use cpa_plugin_commandcode.Stream.{Framing, split_lines, convert, normalize_line, collapse}
use cpa_plugin_commandcode.Stream.Chunks.{Fits}
use cpa_plugin_commandcode.Stream.Whole.{split_newlines}
use cpa_plugin_commandcode.Reasoning.{map_reasoning_body}
use cpa_plugin_commandcode.Send.{Received, Network, doer_do_stream}
use cpa_plugin_commandcode.Abi.HostStream.{text_of}
use cpa_plugin_commandcode.Abi.Calls.{HostApi, HostStream, do_stream}
use cpa_plugin_commandcode.Abi.Answers.{IsAnswer}
use cpa_plugin_commandcode.Abi.HostClient.{HostWire, no_host_stream, read_calls, http_do_stream}
use cpa_plugin_commandcode.Abi.Pipeline.Hosted.{hosted, interleave-hosted}
use cpa_plugin_commandcode.Abi.Delivery.{framed, delivery, sent_of}
use cpa_plugin_commandcode.Abi.Path.{framing_of}
use cpa_plugin_commandcode.Abi.Pipeline.Refines.{calls_of}
use cpa_plugin_commandcode.Abi.Pipeline.Progress.{IsDone}
use cpa_plugin_commandcode.Abi.Pipeline.Whole.{
  inputs_of, rounds_needed, carried, interleave-std_doer,
}
use cpa_plugin_commandcode.Abi.Pipeline.Tests.{repeated, repeated-All}
use cpa_plugin_commandcode.Toys.{toy_json, toy_net, toy_world, toy_request, toy_network, first_key}

-- A body whose line comes in two reads and that breaks off behind it, and the same line by the host.
abbrev broken_response : Received
broken_response = record {
  status = 200;
  headers = [];
  body = record {
    parts = codes "data: {" ∷ [];
    last = codes "}\n";
    fault = some (plain_error (codes "reset"));
  };
}

abbrev host_stream : HostStream
host_stream = record { status = 200; headers = []; stream_id = codes "h"; chunks = [] }

abbrev network : Network toy_net
network = record toy_network { send = λ n t url headers body. inr broken_response }

abbrev transport : Transport toy_net
transport = http_proxy (codes "p")

abbrev framing : Framing
framing =
    framing_of toy_json toy_net network (some zero_config) toy_world (λ k. refl) toy_request 0
      first_key

text-Fits : Fits toy_json framing (split_lines (codes "data: {}\n"))
unfolding split_lines
text-Fits = ((omega arith, tt), omega arith)

std_needed :
    rounds_needed toy_json toy_net network
      (some zero_config)
      toy_world
      (λ k. refl)
      toy_request
      0
      first_key
      (repeated 20)
      (repeated-All 20)
      (inputs_of toy_json toy_net network
        (some zero_config)
        toy_world
        (λ k. refl)
        toy_request
        0
        first_key
        (repeated 20)
        (repeated-All 20)
        (std_doer transport))
    ≡ 14
unfolding convert doer_do_stream split_lines trim_space normalize_line has_prefix collapse bytes_eq
    map_reasoning_body contains
std_needed = refl

interleave-std_doer_example :
    let s =
      carried toy_json toy_net network
        (some zero_config)
        toy_world
        (λ k. refl)
        toy_request
        0
        first_key
        (repeated 20)
        (repeated-All 20)
        (std_doer transport) in
    IsDone s
    × (calls_of s
        ≡ delivery
            (sent_of toy_json framing (some (plain_error (codes "reset"))) (codes "data: {}\n")))
interleave-std_doer_example =
    interleave-std_doer toy_json toy_net network (some zero_config) toy_world (λ k. refl)
      toy_request 0 first_key (repeated 20) (repeated-All 20) transport broken_response (λ k. refl)
      refl refl refl text-Fits (omega (arith, std_needed))

-- A host whose answers are envelopes around their results: the stream, and reads of its text.
abbrev client_wire : HostWire
client_wire = record {
  do_method = codes "do";
  do_stream_method = codes "stream";
  read_method = codes "read";
  envelope = λ b. inr (record { good = true; result = b; message = none });
  write_request = λ callback url headers body. inr (codes "q");
  write_read = λ id. inr id;
  reply = λ b. inr (200, [], b);
  stream = λ b. inr host_stream;
  read_reply = λ b. inr (record { payload = b; error = []; finished = bytes_eq b (codes "}\n") });
}

abbrev saying : Bytes → HostApi
saying text method request = (pos 0, some text)

abbrev read_hosts : ℕ → ℕ → Option HostApi
read_hosts n zero = some (saying (codes "data: {"))
read_hosts n (suc k) = some (saying (codes "}\n"))

abbrev hosted_network : Network toy_net
hosted_network =
    hosted toy_json toy_net client_wire toy_network (λ n. some (saying (codes "stream"))) read_hosts
      2 (codes "c") (some zero_config) toy_world (λ k. refl) toy_request 0 first_key (repeated 20)
      (repeated-All 20)

hosted_needed :
    rounds_needed toy_json toy_net hosted_network
      (some zero_config)
      toy_world
      (λ k. refl)
      toy_request
      0
      first_key
      (repeated 20)
      (repeated-All 20)
      (inputs_of toy_json toy_net hosted_network
        (some zero_config)
        toy_world
        (λ k. refl)
        toy_request
        0
        first_key
        (repeated 20)
        (repeated-All 20)
        host_doer)
    ≡ 10
unfolding convert doer_do_stream split_lines trim_space normalize_line has_prefix collapse bytes_eq
    map_reasoning_body contains do_stream http_do_stream
hosted_needed = refl

hosted_text :
    text_of (read_calls client_wire (read_hosts 0) 0 2 (codes "h")) ≡ some (codes "data: {}\n")
unfolding read_calls bytes_eq
hosted_text = refl

hosted-IsAnswer :
    IsAnswer client_wire.envelope client_wire.stream no_host_stream
      (pos 0)
      (some (codes "stream"))
      host_stream
hosted-IsAnswer = record {
  envelope = record { good = true; result = codes "stream"; message = none };
  no_code = refl;
  sent = refl;
  good = refl;
  held = inr (refl, refl);
}

interleave-hosted_example :
    let p =
      carried toy_json toy_net hosted_network
        (some zero_config)
        toy_world
        (λ k. refl)
        toy_request
        0
        first_key
        (repeated 20)
        (repeated-All 20)
        host_doer in
    IsDone p
    × (calls_of p ≡ delivery (framed toy_json framing (split_newlines (codes "data: {}\n")), []))
interleave-hosted_example =
    interleave-hosted toy_json toy_net client_wire toy_network (λ n. some (saying (codes "stream")))
      read_hosts 2 (codes "c") (some zero_config) toy_world (λ k. refl) toy_request 0 first_key
      (repeated 20) (repeated-All 20) (saying (codes "stream")) (codes "q") host_stream
      (codes "data: {}\n") refl refl hosted-IsAnswer refl hosted_text text-Fits
      (omega (arith, hosted_needed))
