-- ===== src/Stream/Tests.antt =====
-- Examples for the theorems about streams.
use cpa_plugin_commandcode.Base.{
  Bytes, codes, true, false, List, [], ◌∷◌, ◌++◌, map, flatten, All, ◌≡◌, refl, arith, has_prefix,
  bytes_eq, contains, is_empty, if◌then◌else◌,
}
use cpa_plugin_commandcode.Pool.{plain_error}
use cpa_plugin_commandcode.Base.Trim.{trim_space}
use cpa_plugin_commandcode.Stream.Whole.{
  join_lines, normalize_stream_bytes, convert-normalize_stream_bytes,
}
use cpa_plugin_commandcode.Stream.Line.{collapse_ends}
use cpa_plugin_commandcode.Reasoning.{map_reasoning_body}
use cpa_plugin_commandcode.Stream.{
  bare, claude, payload, failure, Input, read, broken, split_lines, convert, normalize_line,
  collapse, apply, data_prefix,
}
use cpa_plugin_commandcode.Stream.Chunks.{frames_of, Fits}
use cpa_plugin_commandcode.Stream.Frames.{IsFrame, convert-IsFrame}
use cpa_plugin_commandcode.Stream.Delivery.{convert-reads}
use cpa_plugin_commandcode.Toys.{toy_json, toy_json-JsonLaws}

-- A line with a stacked prefix, cut into two reads, and a line without its end.
abbrev cut_reads : List Bytes
cut_reads = codes "data: da" ∷ codes "ta: {}\ndata: [DO" ∷ codes "NE]" ∷ []

abbrev reads : List Input
reads = map read cut_reads ++ broken [] (plain_error (codes "reset")) ∷ []

reads-convert :
    convert toy_json claude (λ n. true) 0 reads []
    ≡ payload (codes "data: {}") ∷ failure (plain_error (codes "reset")) ∷ []
unfolding convert split_lines trim_space normalize_line has_prefix collapse bytes_eq
    map_reasoning_body contains apply
reads-convert = refl

cut_reads-Fits : Fits toy_json claude (split_lines (flatten cut_reads))
unfolding split_lines
cut_reads-Fits = ((omega arith, tt), omega arith)

convert-reads_example :
    let x = split_lines (flatten cut_reads) in
    let ends : List Input = broken [] (plain_error (codes "reset")) ∷ [] in
    convert toy_json claude (λ n. true) 0 (map read cut_reads ++ ends) []
    ≡ frames_of toy_json claude x.0 ++ convert toy_json claude (λ n. true) 0 ends x.1
convert-reads_example =
    convert-reads toy_json claude cut_reads (broken [] (plain_error (codes "reset")) ∷ [])
      cut_reads-Fits

convert-IsFrame_example :
    All (IsFrame toy_json toy_json-JsonLaws claude) (convert toy_json claude (λ n. true) 0 reads [])
convert-IsFrame_example = convert-IsFrame toy_json toy_json-JsonLaws claude (λ n. true) reads 0 []

collapse_ends_example :
    (has_prefix (trim_space (collapse 9 (codes "data: a"))) data_prefix ≡ false)
    × (collapse 9 (codes "data: a") ≡ collapse 8 (codes "data: a"))
collapse_ends_example = collapse_ends 9 8 (codes "data: a") (omega arith) (omega arith)

abbrev whole_read : Bytes
whole_read = codes "data: {}\n\ndata: [DONE]"

whole_read-Fits : Fits toy_json bare (split_lines whole_read)
unfolding split_lines
whole_read-Fits = ((omega arith, (omega arith, tt)), omega arith)

whole_read-full : is_empty (trim_space whole_read) ≡ false
unfolding trim_space
whole_read-full = refl

convert-normalize_stream_bytes_example :
    (frames : List Bytes) × (convert toy_json bare (λ n. true) 0 (read whole_read ∷ []) []
      ≡ map payload frames)
    × (normalize_stream_bytes toy_json whole_read
        ≡ (if is_empty frames then whole_read else join_lines frames))
convert-normalize_stream_bytes_example =
    convert-normalize_stream_bytes toy_json whole_read whole_read-full whole_read-Fits
