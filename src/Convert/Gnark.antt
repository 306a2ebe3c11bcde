-- ===== src/Convert/Gnark.antt =====
-- tools/convert/src/gnark.rs: the parsers of gnark's encodings. The reader's position is passed
-- from call to call.
pub mod Flags
pub mod Remaining
pub mod Encoding
pub mod Points
pub mod Safety
pub mod Total
pub mod ParseProof
pub mod ParseKey
pub mod ParseWitness
pub mod Outcomes
use groth16_verifier_program.Groth16.Scalar.{all_zero}
use groth16_verifier_program.Convert.Wire.{
  OnChainKey, OnChainProof, array, fr_from_bytes, checked_affine, g1_from_bytes, new_proof,
  fq2_from_bytes, fq_from_bytes, g2_from_bytes, new_key,
}
use groth16_verifier_program.Groth16.Constants.{
  g1_size, fr_size, fq_size, g2_size, max_public_inputs,
}
use groth16_verifier_program.Convert.Ark.{Ark, Affine}
use groth16_verifier_program.Common.{
  ◌>>=◌, ◌>>◌, index, Result, ℕ, Bytes, if◌then◌else◌, ◌-◌, ◌*◌, checked_sub, set_index, ok_or,
  Bool, slice_from, Option, ok, List, ◌==◌, length, [], leb, err, checked_mul, suc, ensure,
  get_elem?, none, ◌∷◌, ltb, ◌&&◌, zero, panic, ◌+◌, some, drop, checked_add, get_range, ◌||◌,
}
use Prim.Native.Nat.{bit_and}
use groth16_verifier_program.Convert.Errors.{ConvertError, Reason, unexpected_eof}
use groth16_verifier_program.Convert.Errors

unfoldable pub flag_mask : ℕ
flag_mask = 0b11000000

unfoldable pub flag_uncompressed : ℕ
flag_uncompressed = 0b00000000

unfoldable pub flag_compressed_smallest : ℕ
flag_compressed_smallest = 0b10000000

unfoldable pub flag_compressed_largest : ℕ
flag_compressed_largest = 0b11000000

unfoldable pub flag_compressed_infinity : ℕ
flag_compressed_infinity = 0b01000000

-- `b & FLAG_MASK` and `b & !FLAG_MASK` on a byte.
unfoldable pub flag_of : ℕ → ℕ
unfolding flag_mask
flag_of b = bit_and b flag_mask

unfoldable pub without_flag : ℕ → ℕ
unfolding flag_mask
without_flag b = bit_and b (255 - flag_mask)

pub record Reader : Type 0 where
  pub bytes : Bytes
  pub pos : ℕ

-- What an operation of the reader gives: a value and the reader after it.
abbrev pub Read : Type 0 → Type 0
Read A = Result ConvertError (A × Reader)

abbrev pub new_reader : Bytes → Reader
new_reader bytes = record { bytes = bytes; pos = 0 }

unfoldable pub take : Reader → ℕ → Read Bytes
take r n = do
  end ← ok_or (checked_add r.pos n) unexpected_eof
  s ← ok_or (get_range r.bytes r.pos end) unexpected_eof
  ok (s, record { bytes = r.bytes; pos = end })

-- `bytes.len() - pos`, which panics (or wraps) beyond the end.
unfoldable pub remaining : Reader → Result ConvertError ℕ
remaining r = elim (checked_sub (length r.bytes) r.pos) [ none ↦ panic | some n ↦ ok n ]

unfoldable pub ensure_remaining : Reader → ℕ → ℕ → Result ConvertError (Unit {0})
ensure_remaining r count min_size = do
  needed ← ok_or (checked_mul count min_size) unexpected_eof
  left ← remaining r
  if ltb left needed then err unexpected_eof else ok tt

unfoldable pub peek : Reader → Result ConvertError ℕ
peek r = ok_or (get_elem? r.bytes r.pos) unexpected_eof

unfoldable pub finish : Reader → Result ConvertError (Unit {0})
finish r = do n ← remaining r; if n == 0 then ok tt else err (ConvertError.trailing_bytes n)

-- `u32::from_be_bytes` of what `try_into` made four bytes.
unfoldable pub u32_from_be : Bytes → Result ConvertError ℕ
u32_from_be (a ∷ b ∷ c ∷ d ∷ []) = ok (16777216 * a + 65536 * b + 256 * c + d)
u32_from_be _ = panic

unfoldable pub u32 : Reader → Read ℕ
u32 r = do (s, r) ← take r 4; n ← u32_from_be s; ok (n, r)

-- `expect_zero_after_flag`: `raw[0]` and `raw[1..]` panic on an empty slice.
unfoldable pub expect_zero_after_flag : Bytes → Result ConvertError (Unit {0})
expect_zero_after_flag raw = do
  first ← index raw 0
  rest ← slice_from raw 1
  if (without_flag first == 0) && all_zero rest then ok tt else err ConvertError.invalid_point

-- `raw[0] &= !FLAG_MASK`.
unfoldable pub clear_flag : Bytes → Result ConvertError Bytes
clear_flag raw = do first ← index raw 0; set_index raw 0 (without_flag first)

unfoldable pub decompress : {F : Type 0} (c : Affine F) → F → Bool → Result ConvertError c.Point
decompress c x largest = do
  p ← ok_or (c.get_point_from_x_unchecked x largest) ConvertError.invalid_point
  if c.is_zero p then err ConvertError.invalid_point else checked_affine c p

module _ (ark : Ark) where
  open ark use {Fq, Fr, G1, G2}

  unfoldable pub fr : Reader → Read Fr.Element
  fr r = do (s, r) ← take r fr_size; s ← array fr_size s; x ← fr_from_bytes ark s; ok (x, r)

  -- The arms of the match in `Reader::g1`, and the match.
  unfoldable pub g1_uncompressed : Reader → Read G1.Point
  g1_uncompressed r = do
    (s, r) ← take r g1_size
    s ← array g1_size s
    p ← g1_from_bytes ark s
    ok (p, r)

  unfoldable pub g1_infinity : Reader → Read G1.Point
  g1_infinity r = do (raw, r) ← take r fq_size; expect_zero_after_flag raw; ok (G1.identity, r)

  unfoldable pub g1_compressed : Reader → ℕ → Read G1.Point
  g1_compressed r flag = do
    (s, r) ← take r fq_size
    raw ← array fq_size s
    raw ← clear_flag raw
    x ← fq_from_bytes ark raw
    p ← decompress G1 x (flag == flag_compressed_largest)
    ok (p, r)

  unfoldable pub g1_flagged : Reader → ℕ → Read G1.Point
  g1_flagged r flag =
      if flag == flag_uncompressed
      then g1_uncompressed r
      else if flag == flag_compressed_infinity
      then g1_infinity r
      else if flag == flag_compressed_smallest || flag == flag_compressed_largest
      then g1_compressed r flag
      else panic

  unfoldable pub g1 : Reader → Read G1.Point
  g1 r = do first ← peek r; g1_flagged r (flag_of first)

  -- The arms of the match in `Reader::g2`, and the match.
  unfoldable pub g2_uncompressed : Reader → Read G2.Point
  g2_uncompressed r = do
    (s, r) ← take r g2_size
    s ← array g2_size s
    p ← g2_from_bytes ark s
    ok (p, r)

  unfoldable pub g2_infinity : Reader → Read G2.Point
  g2_infinity r = do
    (raw, r) ← take r (2 * fq_size)
    expect_zero_after_flag raw
    ok (G2.identity, r)

  unfoldable pub g2_compressed : Reader → ℕ → Read G2.Point
  g2_compressed r flag = do
    (s, r) ← take r (2 * fq_size)
    raw ← array (2 * fq_size) s
    raw ← clear_flag raw
    x ← fq2_from_bytes ark raw
    p ← decompress G2 x (flag == flag_compressed_largest)
    ok (p, r)

  unfoldable pub g2_flagged : Reader → ℕ → Read G2.Point
  g2_flagged r flag =
      if flag == flag_uncompressed
      then g2_uncompressed r
      else if flag == flag_compressed_infinity
      then g2_infinity r
      else if flag == flag_compressed_smallest || flag == flag_compressed_largest
      then g2_compressed r flag
      else panic

  unfoldable pub g2 : Reader → Read G2.Point
  g2 r = do first ← peek r; g2_flagged r (flag_of first)

  -- The loops: `count` rounds are left.
  unfoldable pub g1_points : ℕ → Reader → Read (List G1.Point)
  g1_points zero r = ok ([], r)
  g1_points (suc count) r = do (p, r) ← g1 r; (rest, r) ← g1_points count r; ok (p ∷ rest, r)

  unfoldable pub scalars : ℕ → Reader → Read (List Fr.Element)
  scalars zero r = ok ([], r)
  scalars (suc count) r = do (s, r) ← fr r; (rest, r) ← scalars count r; ok (s ∷ rest, r)

  unfoldable pub parse_proof : Bytes → Result ConvertError OnChainProof
  parse_proof bytes = do
    (ar, r) ← g1 (new_reader bytes)
    (bs, r) ← g2 r
    (krs, r) ← g1 r
    (n_commitments, r) ← u32 r
    ensure (n_commitments == 0) (ConvertError.unsupported Reason.commitments)
    (_, r) ← g1 r
    finish r
    new_proof ark (record { a = ar; b = bs; c = krs })

  unfoldable pub parse_public_witness : Bytes → Result ConvertError (List Fr.Element)
  parse_public_witness bytes = do
    (nb_public, r) ← u32 (new_reader bytes)
    (nb_secret, r) ← u32 r
    ensure (nb_secret == 0) (ConvertError.unsupported Reason.secret_inputs)
    (len, r) ← u32 r
    ensure (len == nb_public) (ConvertError.unsupported Reason.length_disagrees)
    ensure_remaining r len fr_size
    (out, r) ← scalars len r
    finish r
    ok out

-- The loop over the inner slices of `PublicAndCommitmentCommitted`.
unfoldable pub inner_slices : ℕ → Reader → Read (Unit {0})
inner_slices zero r = ok (tt, r)
inner_slices (suc outer) r = do
  (inner, r) ← u32 r
  ensure (inner == 0) (ConvertError.unsupported Reason.committed_inputs)
  inner_slices outer r

module _ (ark : Ark) where
  unfoldable pub parse_verifying_key : Bytes → Result ConvertError OnChainKey
  parse_verifying_key bytes = do
    (alpha, r) ← g1 ark (new_reader bytes)
    (_, r) ← g1 ark r
    (beta, r) ← g2 ark r
    (gamma, r) ← g2 ark r
    (_, r) ← g1 ark r
    (delta, r) ← g2 ark r
    (k_len, r) ← u32 r
    ensure_remaining r k_len fq_size
    ensure (leb k_len (max_public_inputs + 1)) (ConvertError.too_many_public_inputs (k_len - 1))
    (ic, r) ← g1_points ark k_len r
    (outer, r) ← u32 r
    (_, r) ← inner_slices outer r
    (n_commitment_keys, r) ← u32 r
    ensure (n_commitment_keys == 0) (ConvertError.unsupported Reason.commitment_keys)
    finish r
    new_key ark (record { alpha = alpha; beta = beta; gamma = gamma; delta = delta; ic = ic })
