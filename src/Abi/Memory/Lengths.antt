-- ===== src/Abi/Memory/Lengths.antt =====
-- Lengths that cmd/commandcode/abi.go casts to a C.int.
use cpa_plugin_commandcode.Base.{
  ℕ, suc, ◌<◌, ◌≤◌, ◌^◌, ◌%◌, ◌-◌, Bytes, false, none, some, [], ◌∷◌, length, ltb, ◌==◌, lt→ltb,
  pos, negsuc, ◌≡◌, refl, arith,
}
use cpa_plugin_commandcode.Abi.Memory.{c_int, go_bytes, request_bytes}
use cpa_plugin_commandcode.Abi.Memory.Sets.{take-length, ltb_same}

mod_small : (n : ℕ) → n < 2 ^ 31 → n % 2 ^ 32 ≡ n
mod_small n h = omega (arith, h)

pub c_int_small : (n : ℕ) → n < 2 ^ 31 → c_int n ≡ pos n
unfolding c_int
c_int_small n h = rw (c_int, mod_small n h, lt→ltb n (2 ^ 31) h) refl

suc_not_zero : (n : ℕ) → (suc n == 0) ≡ false
suc_not_zero n = ground arith

ltb-false : (m n : ℕ) → n ≤ m → ltb m n ≡ false
ltb-false m n h = ground arith

-- A request of less than 2 GiB is read whole.
pub request_bytes_small :
    (request : Bytes)
    → length request < 2 ^ 31
    → request_bytes (some request) (length request) ≡ some request
unfolding request_bytes go_bytes
request_bytes_small [] h = refl
request_bytes_small (x ∷ request) h =
    rw
      (
        suc_not_zero (length request),
        c_int_small (suc (length request)) h,
        ltb_same (suc (length request)),
        take-length request,
      )
      refl

-- The length of a longer one does not fit into 31 bits.
c_int_large : (n : ℕ) → 2 ^ 31 ≤ n % 2 ^ 32 → c_int n ≡ negsuc (2 ^ 32 - 1 - n % 2 ^ 32)
unfolding c_int
c_int_large n h = rw (c_int, ltb-false (n % 2 ^ 32) (2 ^ 31) h) refl

pub request_bytes_large :
    (x : ℕ) (request : Bytes)
    → 2 ^ 31 ≤ suc (length request) % 2 ^ 32
    → request_bytes (some (x ∷ request)) (suc (length request)) ≡ none
unfolding request_bytes go_bytes
request_bytes_large x request h =
    rw (request_bytes, suc_not_zero (length request), c_int_large (suc (length request)) h) refl
