-- ===== src/Groth16/Scalar/Order.antt =====
-- `is_canonical` compares the numbers that the bytes stand for.
use groth16_verifier_program.Common.{
  ℕ, ◌+◌, ◌*◌, ◌^◌, ◌≤◌, ◌<◌, ◌≡◌, ◌↔◌, refl, true, [], ◌∷◌, Bytes, IsByte, All, length, be_value,
  arith, subst,
}
use native.Mathlib.Nat.{pow-suc}
use groth16_verifier_program.Groth16.Scalar.{slice_lt, is_canonical}
use groth16_verifier_program.Groth16.Constants.{fr_modulus, fr_size}

-- One more byte, at the upper end.
times_byte : (x p : ℕ) → x < 256 → x * p + p ≤ 256 * p
times_byte x p h = grind arith

pub be_value-lt : (xs : Bytes) → All IsByte xs → be_value xs < 256 ^ length xs
unfolding be_value
be_value-lt [] h = omega arith
be_value-lt (x ∷ xs) h =
    omega (arith, pow-suc 256 (length xs), times_byte x (256 ^ length xs) h.0, be_value-lt xs h.1)

digit_lt : (x y p v w : ℕ) → x < y → v < p → x * p + v < y * p + w
digit_lt x y p v w h k = grind arith

-- Byte strings of one length compare as their numbers do.
pub slice_lt_iff :
    (xs ys : Bytes)
    → All IsByte xs
    → All IsByte ys
    → length xs ≡ length ys
    → (slice_lt xs ys ≡ true) ↔ (be_value xs < be_value ys)
unfolding slice_lt be_value
slice_lt_iff [] [] h k e = ground arith
slice_lt_iff [] (y ∷ ys) h k e = absurd (omega arith)
slice_lt_iff (x ∷ xs) [] h k e = absurd (omega arith)
slice_lt_iff (x ∷ xs) (y ∷ ys) h k e =
    let same : length xs ≡ length ys = omega arith in
    rw same (
      ground (
        arith,
        slice_lt_iff xs ys h.1 k.1 same,
        digit_lt x y (256 ^ length ys) (be_value xs) (be_value ys),
        digit_lt y x (256 ^ length ys) (be_value ys) (be_value xs),
        be_value-lt ys k.1,
        subst (λ (n : ℕ). be_value xs < 256 ^ n) same (be_value-lt xs h.1),
      ))

fr_modulus-value :
    be_value fr_modulus
    ≡ 21888242871839275222246405745257275088548364400416034343698204186575808495617
unfolding be_value
fr_modulus-value = refl

fr_modulus-IsByte : All IsByte fr_modulus
fr_modulus-IsByte = omega arith

-- A scalar of 32 bytes is canonical exactly when the number that it encodes is below r.
pub is_canonical_iff :
    (s : Bytes)
    → All IsByte s
    → length s ≡ fr_size
    → (is_canonical s ≡ true)
      ↔ (be_value s < 21888242871839275222246405745257275088548364400416034343698204186575808495617)
unfolding is_canonical
is_canonical_iff s h l = rw fr_modulus-value at (slice_lt_iff s fr_modulus h fr_modulus-IsByte l)
