-- ===== src/Reasoning/Itoa.antt =====
-- `itoa`: the digits read back.
use cpa_plugin_commandcode.Base.{
  ℕ, zero, suc, ◌+◌, ◌-◌, ◌*◌, ◌/◌, ◌%◌, ◌^◌, ◌≤◌, ◌<◌, Bytes, [], ◌∷◌, pos, All, ◌≡◌, refl, arith,
}
use native.Mathlib.Nat.{pow-succ'}
use cpa_plugin_commandcode.Reasoning.{digits, itoa}

-- The number that decimal digits denote, behind those that are read already.
unfoldable pub decimal : ℕ → Bytes → ℕ
decimal n [] = n
decimal n (c ∷ s) = decimal (n * 10 + (c - b'0')) s

abbrev pub IsDigit : ℕ → Type 0
IsDigit c = (b'0' ≤ c) × (c ≤ b'9')

digits-decimal :
    (room i : ℕ) (buf : Bytes) → i < 10 ^ room → decimal 0 (digits room i buf) ≡ decimal i buf
unfolding digits decimal
digits-decimal zero i buf h = let none_left : i ≡ 0 = omega arith in rw none_left refl
digits-decimal (suc room) i buf h =
    let ten : 10 ^ suc room ≡ 10 * 10 ^ room = pow-succ' 10 room in
    let fits : i / 10 < 10 ^ room = omega arith in
    let digit : (i / 10) * 10 + ((b'0' + i % 10) - b'0') ≡ i = omega arith in
    ground (arith, digits-decimal room (i / 10) ((b'0' + i % 10) ∷ buf) fits, digit)

digits-All : (room i : ℕ) (buf : Bytes) → All IsDigit buf → All IsDigit (digits room i buf)
unfolding digits
digits-All zero i buf h = h
digits-All (suc room) i buf h = ground (arith, digits-All room (i / 10) ((b'0' + i % 10) ∷ buf))

-- `itoa` writes decimal digits that read back as the number, for every int64 that is not negative.
pub itoa-decimal :
    (n : ℕ) → n < 2 ^ 63 → (decimal 0 (itoa (pos n)) ≡ n) × All IsDigit (itoa (pos n))
unfolding itoa decimal
itoa-decimal zero h = (refl, ((omega arith, omega arith), tt))
itoa-decimal (suc n) h = (digits-decimal 20 (suc n) [] (omega arith), digits-All 20 (suc n) [] tt)
