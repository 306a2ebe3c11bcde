-- ===== src/Convert/Wire.antt =====
-- tools/convert/src/wire.rs: points, keys and proofs in the on-chain bytes, and back.
pub mod Coordinates
pub mod Points
pub mod Body
pub mod Table
pub mod Key
pub mod RoundTrip
pub mod Proof
pub mod Safety
use groth16_verifier_program.Groth16.Validation.{validate_for_publish}
use groth16_verifier_program.Groth16.Syscall.{Syscalls}
use groth16_verifier_program.Groth16.Errors.{Groth16Error}
use groth16_verifier_program.Groth16.Constants.{
  fq_size, fr_size, g1_size, g2_size, vk_alpha_offset, proof_size, proof_a_offset, proof_b_offset,
  proof_c_offset, vk_ic_offset, vk_neg_beta_offset, vk_neg_gamma_offset, vk_neg_delta_offset,
  max_public_inputs, vk_body_len,
}
use groth16_verifier_program.Common.{
  ◌>>=◌, ◌>>◌, ℕ, Result, Bytes, none, if◌then◌else◌, slice, copy_at, replicate, ok, length, ◌||◌,
  slice_from, bytes_eq, ◌&&◌, err, ◌*◌, ◌==◌, panic, some, ok_or, map_err, List, flatten, [],
  checked_sub, ◌+◌, ◌∷◌, ensure, suc, leb, zero,
}
use groth16_verifier_program.Convert.Ark.{Ark, Affine, Fq2}
use groth16_verifier_program.Convert.Errors.{ConvertError, Reason, non_canonical_field}
use groth16_verifier_program.Convert.Errors
use groth16_verifier_program.Groth16.Scalar.{all_zero}
use groth16_verifier_program.Groth16.VerifyingKey
use groth16_verifier_program.Groth16.VerifyingKey.{
  VerifyingKey, unchecked, ic, alpha, neg_beta, neg_gamma, neg_delta,
}

-- `.try_into().expect("32 bytes")`: a panic on any other length.
unfoldable pub array : ℕ → Bytes → Result ConvertError Bytes
array n bytes = if length bytes == n then ok bytes else panic

-- `checked_affine`, for either curve.
unfoldable pub checked_affine : {F : Type 0} (c : Affine F) → c.Point → Result ConvertError c.Point
checked_affine c p =
    if c.is_zero p || (c.is_on_curve p && c.is_in_correct_subgroup p)
    then ok p
    else err ConvertError.invalid_point

module _ (ark : Ark) where
  open ark use {Fq, Fr, G1, G2}

  unfoldable pub fq_to_bytes : Fq.Element → Result ConvertError Bytes
  fq_to_bytes x = array fq_size (Fq.to_bytes_be x)

  unfoldable pub fq2_to_bytes : Fq2 Fq.Element → Result ConvertError Bytes
  fq2_to_bytes x = do
    c1 ← fq_to_bytes x.c1
    out ← copy_at (replicate (2 * fq_size) 0) 0 fq_size c1
    c0 ← fq_to_bytes x.c0
    copy_at out fq_size (length out) c0

  unfoldable pub fr_to_bytes : Fr.Element → Result ConvertError Bytes
  fr_to_bytes s = array fr_size (Fr.to_bytes_be s)

  unfoldable pub g1_to_bytes : G1.Point → Result ConvertError Bytes
  g1_to_bytes p = elim (G1.xy p) [
    | none ↦ ok (replicate g1_size 0)
    | some (x, y) ↦ do
      xb ← fq_to_bytes x
      out ← copy_at (replicate g1_size 0) 0 fq_size xb
      yb ← fq_to_bytes y
      copy_at out fq_size (length out) yb
  ]

  unfoldable pub g2_to_bytes : G2.Point → Result ConvertError Bytes
  g2_to_bytes p = elim (G2.xy p) [
    | none ↦ ok (replicate g2_size 0)
    | some (x, y) ↦ do
      xb ← fq2_to_bytes x
      out ← copy_at (replicate g2_size 0) 0 (2 * fq_size) xb
      yb ← fq2_to_bytes y
      copy_at out (2 * fq_size) (length out) yb
  ]

  unfoldable pub fq_from_bytes : Bytes → Result ConvertError Fq.Element
  fq_from_bytes bytes = do
    let x = Fq.from_be_bytes_mod_order bytes
    back ← fq_to_bytes x
    if bytes_eq back bytes then ok x else err non_canonical_field

  unfoldable pub fq2_from_bytes : Bytes → Result ConvertError (Fq2 Fq.Element)
  fq2_from_bytes bytes = do
    hi ← slice bytes 0 fq_size
    c1 ← fq_from_bytes hi
    lo ← slice_from bytes fq_size
    c0 ← fq_from_bytes lo
    ok (record { c0 = c0; c1 = c1 })

  unfoldable pub fr_from_bytes : Bytes → Result ConvertError Fr.Element
  fr_from_bytes bytes = do
    let s = Fr.from_be_bytes_mod_order bytes
    back ← fr_to_bytes s
    if bytes_eq back bytes then ok s else err non_canonical_field

  unfoldable pub g1_from_bytes : Bytes → Result ConvertError G1.Point
  g1_from_bytes bytes = if all_zero bytes then ok G1.identity else do
    xb ← slice bytes 0 fq_size
    x ← fq_from_bytes xb
    yb ← slice_from bytes fq_size
    y ← fq_from_bytes yb
    checked_affine G1 (G1.new_unchecked x y)

  unfoldable pub g2_from_bytes : Bytes → Result ConvertError G2.Point
  g2_from_bytes bytes = if all_zero bytes then ok G2.identity else do
    xb ← slice bytes 0 (2 * fq_size)
    x ← fq2_from_bytes xb
    yb ← slice_from bytes (2 * fq_size)
    y ← fq2_from_bytes yb
    checked_affine G2 (G2.new_unchecked x y)

-- `OnChainKey` and `OnChainProof`.
pub record OnChainKey : Type 0 where
  pub body : Bytes
  pub num_public_inputs : ℕ

pub record OnChainProof : Type 0 where
  pub bytes : Bytes

-- The elements of a key, in the order of the source's tuple.
pub record KeyElements (ark : Ark) : Type 0 where
  pub alpha : ark.G1.Point
  pub beta : ark.G2.Point
  pub gamma : ark.G2.Point
  pub delta : ark.G2.Point
  pub ic : List ark.G1.Point

pub record ProofElements (ark : Ark) : Type 0 where
  pub a : ark.G1.Point
  pub b : ark.G2.Point
  pub c : ark.G1.Point

-- A view of the verifier crate, whose only failure is a panic.
abbrev pub view : {A : Type 0} → Result Groth16Error A → Result ConvertError A
view m = map_err (λ _. ConvertError.unsupported Reason.invalid_body_length) m

module _ (ark : Ark) where
  open ark use {Fr, G1, G2}

  -- The loop over `ic`, from index i on.
  unfoldable pub write_ic : ℕ → Bytes → List G1.Point → Result ConvertError Bytes
  write_ic i body [] = ok body
  write_ic i body (p ∷ rest) = do
    let off = vk_ic_offset + i * g1_size
    b ← g1_to_bytes ark p
    body ← copy_at body off (off + g1_size) b
    write_ic (i + 1) body rest

  unfoldable pub write_key : Bytes → KeyElements ark → Result ConvertError Bytes
  write_key body e = do
    al ← g1_to_bytes ark e.alpha
    body ← copy_at body vk_alpha_offset (vk_alpha_offset + g1_size) al
    nb ← g2_to_bytes ark (G2.neg e.beta)
    body ← copy_at body vk_neg_beta_offset (vk_neg_beta_offset + g2_size) nb
    ng ← g2_to_bytes ark (G2.neg e.gamma)
    body ← copy_at body vk_neg_gamma_offset (vk_neg_gamma_offset + g2_size) ng
    nd ← g2_to_bytes ark (G2.neg e.delta)
    body ← copy_at body vk_neg_delta_offset (vk_neg_delta_offset + g2_size) nd
    write_ic 0 body e.ic

  unfoldable pub new_key : KeyElements ark → Result ConvertError OnChainKey
  new_key e = do
    n ← ok_or (checked_sub (length e.ic) 1) (ConvertError.unsupported Reason.no_ic0)
    ensure (leb n max_public_inputs) (ConvertError.too_many_public_inputs n)
    body ← write_key (replicate (vk_body_len n) 0) e
    ok (record { body = body; num_public_inputs = n })

  -- `(0..=n).map(..).collect()`: `count` entries are left, and i is the next.
  unfoldable pub read_ic : VerifyingKey unchecked → ℕ → ℕ → Result ConvertError (List G1.Point)
  read_ic vk zero i = ok []
  read_ic vk (suc count) i = do
    b ← view (ic vk i)
    p ← g1_from_bytes ark b
    rest ← read_ic vk count (i + 1)
    ok (p ∷ rest)

  unfoldable pub decode_body : Bytes → Result ConvertError (KeyElements ark)
  decode_body body = do
    vk ←
        map_err (λ _. ConvertError.unsupported Reason.invalid_body_length)
          (VerifyingKey.from_body body)
    ab ← view (alpha vk)
    al ← g1_from_bytes ark ab
    bb ← view (neg_beta vk)
    nb ← g2_from_bytes ark bb
    gb ← view (neg_gamma vk)
    ng ← g2_from_bytes ark gb
    db ← view (neg_delta vk)
    nd ← g2_from_bytes ark db
    ics ← read_ic vk (vk.num_public_inputs + 1) 0
    ok (record { alpha = al; beta = G2.neg nb; gamma = G2.neg ng; delta = G2.neg nd; ic = ics })

  -- The assertion is the debug build's.
  unfoldable pub key_from_body : Bytes → Result ConvertError OnChainKey
  key_from_body body = do
    e ← decode_body body
    rebuilt ← new_key e
    if bytes_eq rebuilt.body body then ok rebuilt else panic

  unfoldable pub key_elements : OnChainKey → Result ConvertError (KeyElements ark)
  key_elements key = decode_body key.body

  unfoldable pub new_proof : ProofElements ark → Result ConvertError OnChainProof
  new_proof e = do
    a ← g1_to_bytes ark e.a
    out ← copy_at (replicate proof_size 0) proof_a_offset (proof_a_offset + g1_size) a
    b ← g2_to_bytes ark e.b
    out ← copy_at out proof_b_offset (proof_b_offset + g2_size) b
    c ← g1_to_bytes ark e.c
    out ← copy_at out proof_c_offset (proof_c_offset + g1_size) c
    ok (record { bytes = out })

  unfoldable pub proof_elements : OnChainProof → Result ConvertError (ProofElements ark)
  proof_elements p = do
    ab ← slice p.bytes proof_a_offset proof_b_offset
    a ← g1_from_bytes ark ab
    bb ← slice p.bytes proof_b_offset proof_c_offset
    b ← g2_from_bytes ark bb
    cb ← slice_from p.bytes proof_c_offset
    c ← g1_from_bytes ark cb
    ok (record { a = a; b = b; c = c })

  unfoldable pub public_inputs_to_bytes : List Fr.Element → Result ConvertError (List Bytes)
  public_inputs_to_bytes [] = ok []
  public_inputs_to_bytes (s ∷ rest) = do
    b ← fr_to_bytes ark s
    bs ← public_inputs_to_bytes rest
    ok (b ∷ bs)

  unfoldable pub public_inputs_flat : List Fr.Element → Result ConvertError Bytes
  public_inputs_flat inputs = do bs ← public_inputs_to_bytes inputs; ok (flatten bs)

-- `OnChainKey::validate_for_publish`.
unfoldable pub publishable : Syscalls → OnChainKey → Result Groth16Error (Unit {0})
publishable sys key = do
  vk ← VerifyingKey.from_body key.body
  _ ← validate_for_publish sys vk
  ok tt

-- `OnChainKey::hash`.
unfoldable pub hash : (Bytes → Bytes) → OnChainKey → Bytes
hash sha256 key = sha256 key.body
