-- ===== src/Groth16/Scalar/One.antt =====
-- `is_one` finds exactly the encoding of 1.
use groth16_verifier_program.Common.{
  ℕ, zero, suc, ◌+◌, ◌*◌, ◌^◌, ◌<◌, ◌≡◌, ◌↔◌, refl, ap, true, [], ◌∷◌, ◌++◌, Bytes, length, arith,
  be_value, take, get_elem?, some, length-append,
}
use native.Mathlib.Nat.{pow-suc}
use groth16_verifier_program.Groth16.Constants.{fr_size}
use groth16_verifier_program.Groth16.Scalar.{all_zero, is_one}

pow_pos : (n : ℕ) → 0 < 256 ^ n
pow_pos zero = omega arith
pow_pos (suc n) = omega (arith, pow-suc 256 n, pow_pos n)

factor_zero : (b p v : ℕ) → 0 < p → b * p + v ≡ 0 → b ≡ 0
factor_zero zero p v h e = refl
factor_zero (suc b) p v h e = absurd (omega arith)

all_zero_iff : (bs : Bytes) → (all_zero bs ≡ true) ↔ (be_value bs ≡ 0)
unfolding all_zero be_value
all_zero_iff [] = ground arith
all_zero_iff (b ∷ bs) =
    ground
      (arith, all_zero_iff bs, pow_pos (length bs), factor_zero b (256 ^ length bs) (be_value bs))

be_value-snoc : (xs : Bytes) (l : ℕ) → be_value (xs ++ (l ∷ [])) ≡ be_value xs * 256 + l
unfolding be_value
be_value-snoc [] l = omega arith
be_value-snoc (x ∷ xs) l = omega (
  arith,
  be_value-snoc xs l,
  ap (λ (n : ℕ). x * 256 ^ n) (length-append xs (l ∷ [])),
  ap (λ (n : ℕ). x * 256 ^ n) (one_more (length xs)),
  ap (λ (n : ℕ). x * n) (pow-suc 256 (length xs)),
)
  where
    one_more : (n : ℕ) → n + 1 ≡ suc n
    one_more n = omega arith

-- A string of n + 1 bytes is its first n bytes and its last.
split_last :
    (n : ℕ) (s : Bytes)
    → length s ≡ suc n
    → (l : ℕ) × (get_elem? s n ≡ some l) × (s ≡ take n s ++ (l ∷ []))
unfolding take
split_last n [] h = absurd (omega arith)
split_last zero (x ∷ []) h = (x, refl, refl)
split_last zero (x ∷ y ∷ s) h = absurd (omega arith)
split_last (suc n) (x ∷ s) h =
    let (l, e, f) = split_last n s (omega arith) in (l, e, ap (λ (t : Bytes). x ∷ t) f)

-- A scalar of 32 bytes passes the test exactly when it encodes 1.
pub is_one_iff : (s : Bytes) → length s ≡ fr_size → (is_one s ≡ true) ↔ (be_value s ≡ 1)
unfolding is_one
is_one_iff s h =
    let (l, e, f) = split_last 31 s h in
    ground (arith, e, all_zero_iff (take 31 s), be_value-snoc (take 31 s) l, ap be_value f)
