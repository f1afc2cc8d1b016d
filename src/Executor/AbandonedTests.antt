-- ===== src/Executor/AbandonedTests.antt =====
-- An example for the theorem about abandoned error bodies.
use cpa_plugin_commandcode.Base.{
  ℕ, zero, suc, ◌≤◌, ◌^◌, Bytes, List, [], ◌∷◌, ◌++◌, map, length, flatten, take, length-append,
  ◌≡◌, refl, ap, arith,
}
use cpa_plugin_commandcode.Stream.{Input, read}
use cpa_plugin_commandcode.Executor.{read_error_body}
use cpa_plugin_commandcode.Executor.Abandoned.{error_body_left, read_error_body-left}

-- A text as long as the limit, which is not looked into.
unfoldable text_of : ℕ → Bytes
text_of zero = []
text_of (suc n) = b'x' ∷ text_of n

length-text_of : (n : ℕ) → length (text_of n) ≡ n
unfolding text_of
length-text_of zero = refl
length-text_of (suc n) = ap suc (length-text_of n)

abbrev parts : List Bytes
parts = text_of (2 ^ 20) ∷ []

parts-length : 2 ^ 20 ≤ length (flatten parts)
parts-length = omega (arith, length-append (text_of (2 ^ 20)) [], length-text_of (2 ^ 20))

read_error_body-left_example :
    (read_error_body (map read parts ++ read [] ∷ []) [] ≡ take (2 ^ 20) (flatten parts))
    × ((rest : List Input) × (error_body_left (map read parts ++ read [] ∷ []) []
          ≡ rest ++ read [] ∷ []))
read_error_body-left_example = read_error_body-left parts (read []) parts-length
