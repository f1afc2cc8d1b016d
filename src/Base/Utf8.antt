-- ===== src/Base/Utf8.antt =====
-- Which bytes are text in UTF-8 (RFC 3629): the strings that encoding/json, and so sjson, writes
-- without a replacement.
use Prim.Native.Nat.{ℕ, zero, suc}
use mathlib.Core.Bool.{Bool, true, false, ◌&&◌}
use mathlib.Core.Option.{Option, none, some}
use mathlib.Core.List.{[], ◌∷◌}
use cpa_plugin_commandcode.Base.Tests.{◌==◌, leb, if◌then◌else◌}
use cpa_plugin_commandcode.Base.Text.{Bytes}

-- For the first byte of a character: how many bytes follow, and the range of the first of these.
abbrev lead : ℕ → Option (ℕ × ℕ × ℕ)
lead b =
    if leb b 127
    then some (0, 128, 191)
    else if leb 194 b && leb b 223
    then some (1, 128, 191)
    else if b == 224
    then some (2, 160, 191)
    else if b == 237
    then some (2, 128, 159)
    else if leb 225 b && leb b 239
    then some (2, 128, 191)
    else if b == 240
    then some (3, 144, 191)
    else if leb 241 b && leb b 243
    then some (3, 128, 191)
    else if b == 244
    then some (3, 128, 143)
    else none

-- The bytes behind a character that lacks so many bytes, of which the next lies in a range.
unfoldable pub utf8_from : ℕ → ℕ → ℕ → Bytes → Bool
utf8_from zero low high [] = true
utf8_from (suc n) low high [] = false
utf8_from zero low high (b ∷ s) = elim (lead b) [
  | none ↦ false
  | some (n, low', high') ↦ utf8_from n low' high' s
]
utf8_from (suc n) low high (b ∷ s) =
    let rest = utf8_from n 128 191 s in if leb low b && leb b high then rest else false

abbrev pub valid_utf8 : Bytes → Bool
valid_utf8 s = utf8_from 0 128 191 s
