-- ===== src/Convert/Gnark/Flags.antt =====
-- The two flag bits of a byte and the other six, as a quotient and a remainder.
-- The test holds for every number below n.
use groth16_verifier_program.Convert.Gnark.{flag_of, without_flag, flag_mask}
use groth16_verifier_program.Common.{
  ℕ, IsByte, Bool, true, ◌==◌, ◌≡◌, ◌%◌, ◌*◌, suc, ◌<◌, refl, arith, ◌/◌, ◌&&◌, Bool-cases, zero,
  inl, ==_iff, inr,
}

unfoldable holds_below : ℕ → (ℕ → Bool) → Bool
holds_below zero test = true
holds_below (suc n) test = test n && holds_below n test

holds_below-at :
    (n : ℕ) (test : ℕ → Bool) (b : ℕ) → holds_below n test ≡ true → b < n → test b ≡ true
unfolding holds_below
holds_below-at zero test b h k = absurd (omega (arith, k))
holds_below-at (suc n) test b h k = elim (Bool-cases (b == n)) [
  | inl last ↦ let e : b ≡ n = (==_iff b n).0 last in rw e (ground (arith, h))
  | inr other ↦ holds_below-at n test b (ground (arith, h)) (ground (arith, other, k))
]

abbrev splits : ℕ → Bool
splits b = (flag_of b == 64 * (b / 64)) && (without_flag b == b % 64)

splits_table : holds_below 256 splits ≡ true
unfolding holds_below flag_of without_flag flag_mask
splits_table = refl

byte_splits : (b : ℕ) → IsByte b → splits b ≡ true
byte_splits b h = holds_below-at 256 splits b splits_table h

-- `b & FLAG_MASK` for a byte.
pub flag_of_lem : (b : ℕ) → IsByte b → flag_of b ≡ 64 * (b / 64)
flag_of_lem b h = ground (arith, byte_splits b h)

-- `b & !FLAG_MASK` for a byte.
pub without_flag_lem : (b : ℕ) → IsByte b → without_flag b ≡ b % 64
without_flag_lem b h = ground (arith, byte_splits b h)
