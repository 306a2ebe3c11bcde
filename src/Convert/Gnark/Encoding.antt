-- ===== src/Convert/Gnark/Encoding.antt =====
-- gnark's encodings of a point, on either curve, and that the reader takes each for its point.
use groth16_verifier_program.Convert.Wire.Coordinates.{array_lem}
use groth16_verifier_program.Groth16.Scalar.Zero.{all_zero-replicate}
use groth16_verifier_program.Convert.Gnark.Flags.{without_flag_lem, flag_of_lem}
use groth16_verifier_program.Convert.Wire.{array}
use groth16_verifier_program.Groth16.Scalar.{all_zero}
use groth16_verifier_program.Convert.Wire.Points.{point_bytes, checked_affine_valid}
use groth16_verifier_program.Convert.Errors.{ConvertError}
use groth16_verifier_program.Convert.Gnark.Remaining.{Left, peek_lem, advance, take-Left}
use groth16_verifier_program.Convert.Ark.{Affine, IsAffine, IsValid}
use groth16_verifier_program.Common.{
  ◌>>=◌, ◌>>◌, Bytes, ℕ, Bool, ◌≡◌, index, Result, ◌∷◌, ◌+◌, ◌<◌, set_index, slice_from, Option, ok,
  replicate, [], ◌⊎◌, drop, if◌then◌else◌, ◌*◌, ◌-◌, some, ◌++◌, true, length, ◌==◌, ◌||◌, none,
  arith, ◌∙◌, subst, panic, refl, length-replicate, sym, ltb, ap, suc, false, lt→ltb,
  slice_from_lem, inl, inr,
}
use groth16_verifier_program.Convert.Gnark.{
  take, clear_flag, expect_zero_after_flag, Reader, peek, Read, flag_uncompressed, without_flag,
  flag_compressed_infinity, flag_of, flag_compressed_smallest, decompress, flag_compressed_largest,
}

-- Sets the flag bits of the first byte, which are clear.
abbrev pub mark : ℕ → Bytes → Bytes
mark flag [] = []
mark flag (b ∷ bs) = (flag + b) ∷ bs

-- The flag of the larger and of the smaller root.
abbrev pub root_flag : Bool → ℕ
root_flag largest = if largest then 192 else 128

-- The bytes begin with one below 64, whose flag bits are clear.
pub record IsClear (bytes : Bytes) : Type 0 where
  pub first : ℕ
  pub rest : Bytes
  pub bytes_eq : bytes ≡ first ∷ rest
  pub first_lt : first < 64

module _ {F : Type 0} (c : Affine F) (k : ℕ) (enc : F → Bytes) (is_largest : c.Point → Bool) where
  -- Compressed: `x` with a flag that says which root `y` is, or the flag of the identity and zeros.
  abbrev pub compressed_coordinates : Bool → Option (F × F) → Bytes
  compressed_coordinates largest none = 64 ∷ replicate (k - 1) 0
  compressed_coordinates largest (some (x, y)) = mark (root_flag largest) (enc x)

  abbrev pub compressed_bytes : c.Point → Bytes
  compressed_bytes p = compressed_coordinates (is_largest p) (c.xy p)

  -- The encodings of a point of the group: uncompressed, or compressed.
  abbrev pub IsEncoding : c.Point → Bytes → Type 0
  IsEncoding p e = IsValid c p × ((e ≡ point_bytes c k enc p) ⊎ (e ≡ compressed_bytes p))

module _ {F : Type 0} (c : Affine F) (k : ℕ) (dec : Bytes → Result ConvertError F)
    (dec_point : Bytes → Result ConvertError c.Point) where
  -- The shape of the reader's arms on both curves.
  abbrev pub uncompressed : Reader → Read c.Point
  uncompressed r = do (s, r) ← take r (2 * k); s ← array (2 * k) s; p ← dec_point s; ok (p, r)

  abbrev pub infinity : Reader → Read c.Point
  infinity r = do (raw, r) ← take r k; expect_zero_after_flag raw; ok (c.identity, r)

  abbrev pub compressed : Reader → ℕ → Read c.Point
  compressed r flag = do
    (s, r) ← take r k
    raw ← array k s
    raw ← clear_flag raw
    x ← dec raw
    p ← decompress c x (flag == flag_compressed_largest)
    ok (p, r)

  abbrev pub flagged : Reader → ℕ → Read c.Point
  flagged r flag =
      if flag == flag_uncompressed
      then uncompressed r
      else if flag == flag_compressed_infinity
      then infinity r
      else if flag == flag_compressed_smallest || flag == flag_compressed_largest
      then compressed r flag
      else panic

  abbrev pub point : Reader → Read c.Point
  point r = do first ← peek r; flagged r (flag_of first)

peek-Left : (r : Reader) (b : ℕ) (bs : Bytes) → Left r (b ∷ bs) → peek r ≡ ok b
peek-Left r b bs left = peek_lem r (b ∷ bs) left

clear_flag-mark :
    (flag b : ℕ) (bs : Bytes)
    → b < 64
    → (flag ≡ 128) ⊎ (flag ≡ 192)
    → clear_flag (mark flag (b ∷ bs)) ≡ ok (b ∷ bs)
unfolding clear_flag index set_index
clear_flag-mark flag b bs h two =
    let w : without_flag (flag + b) ≡ b =
      without_flag_lem (flag + b) (ground (arith, two)) ∙ ground (arith, two) in
    let l : ltb 0 (suc (length bs)) ≡ true = lt→ltb 0 (suc (length bs)) (omega arith) in
    rw (w, l) refl

tail_from : (b : ℕ) (bs : Bytes) → slice_from {E = ConvertError} (b ∷ bs) 1 ≡ ok bs
unfolding drop
tail_from b bs = slice_from_lem (b ∷ bs) 1 (omega arith)

flag_cases : (largest : Bool) → (root_flag largest ≡ 128) ⊎ (root_flag largest ≡ 192)
flag_cases true = inr refl
flag_cases false = inl refl

is_largest_flag : (largest : Bool) → (root_flag largest == 192) ≡ largest
is_largest_flag true = refl
is_largest_flag false = refl

zero_after_flag :
    (zeros : Bytes) → all_zero zeros ≡ true → expect_zero_after_flag (64 ∷ zeros) ≡ ok tt
unfolding expect_zero_after_flag index
zero_after_flag zeros h =
    let w : without_flag 64 ≡ 0 = without_flag_lem 64 (omega arith) in
    rw (tail_from 64 zeros, w, h) refl

module _ {F : Type 0} (c : Affine F) (origin : F) (law : IsAffine c origin) (k : ℕ)
    (enc : F → Bytes) (dec : Bytes → Result ConvertError F)
    (dec_point : Bytes → Result ConvertError c.Point) where
  pub uncompressed-Left :
      (r : Reader) (e tail : Bytes) (p : c.Point)
      → IsClear e
      → length e ≡ 2 * k
      → dec_point e ≡ ok p
      → Left r (e ++ tail)
      → point c k dec dec_point r ≡ ok (p, advance (2 * k) r)
  unfolding flag_uncompressed flag_compressed_infinity
  uncompressed-Left r e tail p clear l d left =
      let b = clear.first in
      let q : peek r ≡ ok b =
        peek-Left r b (clear.rest ++ tail)
          (subst (λ (t : Bytes). Left r (t ++ tail)) clear.bytes_eq left) in
      let f : flag_of b ≡ 0 =
        flag_of_lem b (omega (arith, clear.first_lt)) ∙ omega (arith, clear.first_lt) in
      rw (q, f, take-Left r e tail (2 * k) left (sym l), array_lem (2 * k) e l, d) refl

  pub infinity-Left :
      (r : Reader) (tail : Bytes)
      → 0 < k
      → Left r ((64 ∷ replicate (k - 1) 0) ++ tail)
      → point c k dec dec_point r ≡ ok (c.identity, advance k r)
  unfolding flag_uncompressed flag_compressed_infinity
  infinity-Left r tail h left =
      let zeros : Bytes = replicate (k - 1) 0 in
      let q : peek r ≡ ok 64 = peek-Left r 64 (zeros ++ tail) left in
      let f : flag_of 64 ≡ 64 = flag_of_lem 64 (omega arith) in
      let l : k ≡ length (64 ∷ zeros) = omega (arith, h, length-replicate {A = ℕ} (k - 1) 0) in
      rw
        (
          q,
          f,
          take-Left r (64 ∷ zeros) tail k left l,
          zero_after_flag zeros (all_zero-replicate (k - 1)),
        )
        refl

  chosen :
      (r : Reader) (flag : ℕ)
      → (flag ≡ 128) ⊎ (flag ≡ 192)
      → flagged c k dec dec_point r flag ≡ compressed c k dec dec_point r flag
  unfolding flag_uncompressed flag_compressed_infinity flag_compressed_smallest
      flag_compressed_largest
  chosen r flag two = elim two [ inl e ↦ rw e refl | inr e ↦ rw e refl ]

  pub compressed-Left :
      (r : Reader) (e tail : Bytes) (largest : Bool) (x y : F) (p : c.Point)
      → IsClear e
      → length e ≡ k
      → dec e ≡ ok x
      → IsValid c p
      → c.xy p ≡ some (x, y)
      → c.get_point_from_x_unchecked x largest ≡ some p
      → Left r (mark (root_flag largest) e ++ tail)
      → point c k dec dec_point r ≡ ok (p, advance k r)
  unfolding flag_uncompressed flag_compressed_infinity flag_compressed_smallest
      flag_compressed_largest decompress
  compressed-Left r e tail largest x y p clear l d valid xy root left =
      let b = clear.first in
      let bs = clear.rest in
      let flag : ℕ = root_flag largest in
      let two : (flag ≡ 128) ⊎ (flag ≡ 192) = flag_cases largest in
      let s = mark flag (b ∷ bs) in
      let at_r : Left r (s ++ tail) =
        subst (λ (t : Bytes). Left r (mark flag t ++ tail)) clear.bytes_eq left in
      let q : peek r ≡ ok (flag + b) = peek-Left r (flag + b) (bs ++ tail) at_r in
      let lt : b < 64 = clear.first_lt in
      let f : flag_of (flag + b) ≡ flag =
        flag_of_lem (flag + b) (ground (arith, two)) ∙ ground (arith, two) in
      let n : length s ≡ k = omega (arith, l, ap (λ (t : Bytes). length t) clear.bytes_eq) in
      let dx : dec (b ∷ bs) ≡ ok x = rw (← clear.bytes_eq) d in
      let z : c.is_zero p ≡ false = ap c.is_zero (law.eq-new p x y xy) ∙ law.is_zero-new x y in
      let read : compressed c k dec dec_point r flag ≡ ok (p, advance k r) =
        rw
          (
            take-Left r s tail k at_r (sym n),
            array_lem k s n,
            clear_flag-mark flag b bs lt two,
            dx,
            is_largest_flag largest,
            root,
            z,
            checked_affine_valid c origin law k enc dec p valid,
          )
          refl in
      rw (q, f) (chosen r flag two ∙ read)
