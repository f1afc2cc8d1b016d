-- ===== src/Abi/HostStream.antt =====
-- A stream of the host on its way to the consumer: `readHostHTTPStream`, then `convertChunks`.
use cpa_plugin_commandcode.Base.{
  Bytes, Bool, true, false, Option, none, some, List, [], ◌∷◌, ◌++◌, map, flatten, is_empty,
  append-nil, if◌then◌else◌, ◌≡◌, refl, sym, ap, ◌∙◌,
}
use cpa_plugin_commandcode.Json.{Json}
use cpa_plugin_commandcode.Stream.{Framing, Input, read, split_lines, convert}
use cpa_plugin_commandcode.Stream.Chunks.{Fits, frame_of, frames_of, deliver, convert-deliver}
use cpa_plugin_commandcode.Stream.Delivery.{convert-reads}
use cpa_plugin_commandcode.Abi.{Poll, stopped, refused, answer, before, read_host_stream}

-- A payload in front of a text, if there is one.
abbrev pub in_front : Bytes → Option Bytes → Option Bytes
in_front p none = none
in_front p (some t) = some (p ++ t)

-- The text of a stream that the host brings to its end without an error.
abbrev pub text_of : List Poll → Option Bytes
text_of [] = none
text_of (stopped ∷ _) = none
text_of (refused e ∷ _) = none
text_of (answer p error true ∷ _) = if is_empty error then some p else none
text_of (answer p error false ∷ polls) =
    let rest = text_of polls in if is_empty error then in_front p rest else none

-- The chunks are reads whose text is `t`, and the host is not asked to close the stream.
abbrev pub Carries : Bytes → List Input × Bool → Type 0
Carries t (chunks, closed) =
    (cs : List Bytes) × (chunks ≡ map read cs) × (flatten cs ≡ t) × (closed ≡ false)

Carries-before : (p t : Bytes) (x : List Input × Bool) → Carries t x → Carries (p ++ t) (before p x)
Carries-before p t (chunks, closed) (cs, same, whole, open_) =
    (p ∷ cs, ap (λ l. read p ∷ l) same, ap (λ s. p ++ s) whole, open_)

in_front-some :
    (p : Bytes) (o : Option Bytes) (t : Bytes)
    → in_front p o ≡ some t
    → (s : Bytes) × (o ≡ some s) × (p ++ s ≡ t)
in_front-some p none t h = absurd (cc h)
in_front-some p (some s) t h = (s, refl, cc h)

read_host_stream-Carries :
    (polls : List Poll) (t : Bytes) → text_of polls ≡ some t → Carries t (read_host_stream polls)
unfolding read_host_stream
read_host_stream-Carries [] t h = absurd (cc h)
read_host_stream-Carries (stopped ∷ _) t h = absurd (cc h)
read_host_stream-Carries (refused e ∷ _) t h = absurd (cc h)
read_host_stream-Carries (answer p (x ∷ error) true ∷ polls) t h = absurd (cc h)
read_host_stream-Carries (answer p (x ∷ error) false ∷ polls) t h = absurd (cc h)
read_host_stream-Carries (answer [] [] true ∷ polls) t h = ([], refl, cc h, refl)
read_host_stream-Carries (answer (x ∷ p) [] true ∷ polls) t h =
    ((x ∷ p) ∷ [], refl, append-nil (x ∷ p) ∙ cc h, refl)
read_host_stream-Carries (answer [] [] false ∷ polls) t h =
    let (s, later, same) = in_front-some [] (text_of polls) t h in
    read_host_stream-Carries polls t (later ∙ ap some same)
read_host_stream-Carries (answer (x ∷ p) [] false ∷ polls) t h =
    let (s, later, same) = in_front-some (x ∷ p) (text_of polls) t h in
    rw (← same)
      (Carries-before (x ∷ p) s (read_host_stream polls) (read_host_stream-Carries polls s later))

-- A closed channel: what is left is sent as a line.
convert-end :
    (json : Json) (framing : Framing) (left : Bytes)
    → convert json framing (λ n. true) 0 [] left ≡ frame_of json framing left
unfolding deliver
convert-end json framing left = convert-deliver json framing (λ n. true) (λ n. refl) [] 0 left

-- However the host cuts a text into answers, empty ones included, a consumer that takes every chunk
-- is sent the frames of the complete lines of the whole text, in order, and then that of the rest.
-- The host must bring the stream to its end without an error, and no line may be longer than 4 MiB.
pub convert-read_host_stream :
    (json : Json) (framing : Framing) (polls : List Poll) (t : Bytes)
    → text_of polls ≡ some t
    → Fits json framing (split_lines t)
    → let x = split_lines t in
      convert json framing (λ n. true) 0 (read_host_stream polls).0 []
      ≡ frames_of json framing x.0 ++ frame_of json framing x.1
convert-read_host_stream json framing polls t ended fits =
    let (cs, same, whole, _) = read_host_stream-Carries polls t ended in
    let run = λ (l : List Input). convert json framing (λ n. true) 0 l [] in
    let reads = convert-reads json framing cs [] (rw whole fits) in
    let x = split_lines t in
    ap run (same ∙ sym (append-nil (map read cs)))
    ∙ rw whole at reads
    ∙ ap (λ l. frames_of json framing x.0 ++ l) (convert-end json framing x.1)
