-- ===== src/Groth16/Scalar/Zero.antt =====
-- The word-wise test for zero bytes, and `is_one`.
use Prim.Native.Nat.{bit_or, max, digits, bit_or-bitwise}
use groth16_verifier_program.Common.{
  ℕ, zero, suc, ◌*◌, ◌/◌, ◌≤◌, ◌≡◌, ◌↔◌, refl, true, [], ◌∷◌, Bytes, length, arith, ==_iff,
  replicate,
}
use groth16_verifier_program.Groth16.Scalar.{u64_from_ne, or_words, is_zero, all_zero}

-- The digits of an `or` are zero only where both numbers are.
or_digits-eq-zero : (n a b : ℕ) → a ≤ n → digits (λ b. b) max n a b ≡ 0 → (a ≡ 0) × (b ≡ 0)
or_digits-eq-zero zero zero b h e = (refl, e)
or_digits-eq-zero zero (suc a) b h e = absurd (omega arith)
or_digits-eq-zero (suc n) zero b h e = (refl, e)
or_digits-eq-zero (suc n) (suc a) b h e =
    omega (arith, or_digits-eq-zero n (suc a / 2) (b / 2) (omega arith) (omega arith))

bit_or-eq-zero : (a b : ℕ) → bit_or a b ≡ 0 → (a ≡ 0) × (b ≡ 0)
bit_or-eq-zero a b e = or_digits-eq-zero a a b (omega arith) (omega (arith, bit_or-bitwise a b))

-- No word is zero unless its eight bytes are.
u64_from_ne-eq-zero :
    (a b c d e f g h : ℕ)
    → u64_from_ne a b c d e f g h ≡ 0
    → (a ≡ 0) × (b ≡ 0) × (c ≡ 0) × (d ≡ 0) × (e ≡ 0) × (f ≡ 0) × (g ≡ 0) × (h ≡ 0)
u64_from_ne-eq-zero a b c d e f g h z = omega arith

or_words_zeros : (k : ℕ) → or_words 0 (replicate (8 * k) 0) ≡ 0
unfolding or_words replicate
or_words_zeros zero = refl
or_words_zeros (suc k) =
    let e : 8 * suc k ≡ suc (suc (suc (suc (suc (suc (suc (suc (8 * k)))))))) = omega arith in
    rw e (or_words_zeros k)

or_words-eq-zero :
    (k acc : ℕ) (bs : Bytes)
    → length bs ≡ 8 * k
    → or_words acc bs ≡ 0
    → (acc ≡ 0) × (all_zero bs ≡ true)
unfolding or_words all_zero
or_words-eq-zero zero acc [] h z = (z, refl)
or_words-eq-zero zero acc (x ∷ xs) h z = absurd (omega arith)
or_words-eq-zero (suc k) acc (a ∷ b ∷ c ∷ d ∷ e ∷ f ∷ g ∷ h ∷ rest) l z = ground (
  arith,
  or_words-eq-zero k (bit_or acc (u64_from_ne a b c d e f g h)) rest,
  bit_or-eq-zero acc (u64_from_ne a b c d e f g h),
  u64_from_ne-eq-zero a b c d e f g h,
)
or_words-eq-zero (suc k) acc _ l z = absurd (omega arith)

pub all_zero→replicate : (bs : Bytes) → all_zero bs ≡ true → bs ≡ replicate (length bs) 0
unfolding all_zero replicate
all_zero→replicate [] h = refl
all_zero→replicate (b ∷ bs) h = ground (arith, all_zero→replicate bs)

-- On 8k bytes `is_zero`, which reads words of eight bytes, holds exactly if all of them are 0.
pub is_zero_iff :
    (k : ℕ) (bs : Bytes) → length bs ≡ 8 * k → (is_zero bs ≡ true) ↔ (bs ≡ replicate (8 * k) 0)
unfolding is_zero
is_zero_iff k bs l = (
  (λ z. rw l at (all_zero→replicate bs (or_words-eq-zero k 0 bs l ((==_iff _ 0).0 z)).1)),
  (λ e. rw e ((==_iff _ 0).1 (or_words_zeros k))),
)

pub all_zero-replicate : (n : ℕ) → all_zero (replicate n 0) ≡ true
unfolding all_zero replicate
all_zero-replicate zero = refl
all_zero-replicate (suc n) = ground (arith, all_zero-replicate n)
