-- ===== src/Groth16/Scalar.antt =====
-- groth16-verify/src/scalar.rs: comparisons on big-endian scalars.
pub mod Order
pub mod Zero
pub mod One
use Prim.Native.Nat.{bit_or}
use groth16_verifier_program.Common.{
  ℕ, ◌+◌, ◌-◌, ◌*◌, ◌^◌, Bool, true, false, ◌&&◌, ◌||◌, List, [], ◌∷◌, Bytes, ltb, ◌==◌, get_elem?,
  take, Option, none, some, bytes_eq, replicate,
}
use groth16_verifier_program.Groth16.Constants.{fr_size, fr_modulus}

-- `<` on byte slices is lexicographic.
unfoldable pub slice_lt : Bytes → Bytes → Bool
slice_lt [] [] = false
slice_lt [] (y ∷ ys) = true
slice_lt (x ∷ xs) [] = false
slice_lt (x ∷ xs) (y ∷ ys) = ltb x y || ((x == y) && slice_lt xs ys)

unfoldable pub is_canonical : Bytes → Bool
unfolding slice_lt
is_canonical s = slice_lt s fr_modulus

-- Eight bytes as a word; SBF and the hosts are little-endian.
abbrev pub u64_from_ne : ℕ → ℕ → ℕ → ℕ → ℕ → ℕ → ℕ → ℕ → ℕ
u64_from_ne a b c d e f g h =
    a + 256 * b + 2 ^ 16 * c + 2 ^ 24 * d + 2 ^ 32 * e + 2 ^ 40 * f + 2 ^ 48 * g + 2 ^ 56 * h

-- The loop over the words. Fewer than eight bytes at the end are no word.
unfoldable pub or_words : ℕ → Bytes → ℕ
or_words acc (a ∷ b ∷ c ∷ d ∷ e ∷ f ∷ g ∷ h ∷ rest) =
    or_words (bit_or acc (u64_from_ne a b c d e f g h)) rest
or_words acc _ = acc

unfoldable pub is_zero : Bytes → Bool
unfolding or_words
is_zero bytes = or_words 0 bytes == 0

unfoldable pub all_zero : Bytes → Bool
all_zero [] = true
all_zero (b ∷ bs) = (b == 0) && all_zero bs

-- An array of `FR_SIZE` bytes: the last is 1 and all before it are 0.
unfoldable pub is_one : Bytes → Bool
unfolding all_zero take
is_one s =
    elim (get_elem? s (fr_size - 1)) [ none ↦ false | some last ↦ last == 1 ]
    && all_zero (take (fr_size - 1) s)
