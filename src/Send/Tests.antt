-- ===== src/Send/Tests.antt =====
-- Examples for the theorems about response bodies.
use cpa_plugin_commandcode.Base.{
  codes, some, [], ◌∷◌, ◌++◌, ◌≡◌, ◌^◌, refl, arith, inr, flatten, take,
}
use cpa_plugin_commandcode.Pool.{plain_error}
use cpa_plugin_commandcode.Stream.{bare, split_lines}
use cpa_plugin_commandcode.Stream.Chunks.{Fits}
use cpa_plugin_commandcode.Executor.{read_error_body}
use cpa_plugin_commandcode.Send.{Body, std_reply, std_stream_reply}
use cpa_plugin_commandcode.Send.Bodies.{std_stream_reply-std_reply}
use cpa_plugin_commandcode.Toys.{toy_json, toy_net, toy_network, toy_received}

-- A line in two reads with an empty one between them, and a body that breaks off behind it.
abbrev broken_body : Body
broken_body = record {
  parts = codes "data: {" ∷ [] ∷ codes "}" ∷ [];
  last = codes "\nda";
  fault = some (plain_error (codes "reset"));
}

broken_body-Fits : Fits toy_json bare (split_lines (flatten broken_body.parts ++ broken_body.last))
unfolding split_lines
broken_body-Fits = ((omega arith, tt), omega arith)

std_stream_reply-std_reply_example :
    let whole = std_reply toy_net toy_network (inr toy_received) in
    let stream = std_stream_reply toy_net toy_network (inr toy_received) in
    (stream.error ≡ whole.error)
    × (stream.status ≡ whole.status)
    × (read_error_body stream.chunks [] ≡ take (2 ^ 20) whole.body)
std_stream_reply-std_reply_example =
    std_stream_reply-std_reply toy_net toy_network toy_received refl refl
