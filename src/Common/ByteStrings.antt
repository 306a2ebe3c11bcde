-- ===== src/Common/ByteStrings.antt =====
-- Byte strings as lists of numbers below 256, with Rust's slice operations: an index or a range
-- that is out of bounds is a panic.
use Prim.Native.Nat.{ℕ, ◌+◌, ◌-◌, ◌*◌, ◌/◌, ◌%◌, ◌^◌, ◌<◌}
use mathlib.Core.Bool.{Bool, true, false, ◌&&◌}
use mathlib.Core.List.{List, [], ◌∷◌, ◌++◌}
use mathlib.Core.Option.{Option, none, some}
use groth16_verifier_program.Common.Tests.{ltb, leb, ◌==◌, if◌then◌else◌}
use groth16_verifier_program.Common.Lists.{length, get_elem?, set, take, drop}
use groth16_verifier_program.Common.Outcome.{Result, ok, panic}

abbrev pub Bytes : Type 0
Bytes = List ℕ

abbrev pub IsByte : ℕ → Type 0
IsByte b = b < 256

-- `a == b` on byte arrays.
unfoldable pub bytes_eq : Bytes → Bytes → Bool
bytes_eq [] [] = true
bytes_eq [] (y ∷ ys) = false
bytes_eq (x ∷ xs) [] = false
bytes_eq (x ∷ xs) (y ∷ ys) = (x == y) && bytes_eq xs ys

-- `xs[i]`.
unfoldable pub index : {E : Type 0} → Bytes → ℕ → Result E ℕ
index xs i = elim (get_elem? xs i) [ none ↦ panic | some b ↦ ok b ]

-- `xs[i] = v`.
unfoldable pub set_index : {E : Type 0} → Bytes → ℕ → ℕ → Result E Bytes
set_index xs i v = if ltb i (length xs) then ok (set xs i v) else panic

-- `xs[lo..hi]`.
unfoldable pub slice : {E : Type 0} → Bytes → ℕ → ℕ → Result E Bytes
slice xs lo hi = if leb lo hi && leb hi (length xs) then ok (take (hi - lo) (drop lo xs)) else panic

-- `xs[lo..]`.
unfoldable pub slice_from : {E : Type 0} → Bytes → ℕ → Result E Bytes
slice_from xs lo = if leb lo (length xs) then ok (drop lo xs) else panic

-- `xs.get(lo..hi)`.
unfoldable pub get_range : Bytes → ℕ → ℕ → Option Bytes
get_range xs lo hi =
    if leb lo hi && leb hi (length xs) then some (take (hi - lo) (drop lo xs)) else none

-- `xs[lo..hi].copy_from_slice(src)`, which panics also where the lengths differ.
unfoldable pub copy_at : {E : Type 0} → Bytes → ℕ → ℕ → Bytes → Result E Bytes
copy_at xs lo hi src =
    if leb lo hi && (leb hi (length xs) && length src == hi - lo)
    then ok (take lo xs ++ (src ++ drop hi xs))
    else panic

-- `u16::from_le_bytes`, `u32::from_le_bytes` and their inverses.
unfoldable pub u16_from_le : ℕ → ℕ → ℕ
u16_from_le a b = a + 256 * b

unfoldable pub u16_to_le : ℕ → Bytes
u16_to_le n = (n % 256) ∷ (n / 256 % 256) ∷ []

unfoldable pub u32_to_le : ℕ → Bytes
u32_to_le n = (n % 256) ∷ (n / 256 % 256) ∷ (n / 65536 % 256) ∷ (n / 16777216 % 256) ∷ []

-- On four bytes; the callers have split off exactly four.
unfoldable pub u32_from_le : {E : Type 0} → Bytes → Result E ℕ
u32_from_le (a ∷ b ∷ c ∷ d ∷ []) = ok (a + 256 * b + 65536 * c + 16777216 * d)
u32_from_le _ = panic

-- The number that a byte string stands for, its first byte the highest.
unfoldable pub be_value : Bytes → ℕ
be_value [] = 0
be_value (x ∷ xs) = x * 256 ^ length xs + be_value xs
