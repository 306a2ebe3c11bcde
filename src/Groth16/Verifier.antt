-- ===== src/Groth16/Verifier.antt =====
-- groth16-verify/src/verifier.rs: the inputs' linear combination, the pairing input, the check.
pub mod Assembly
pub mod Combination
pub mod Verdict
pub mod Returns
use groth16_verifier_program.Common.{
  ℕ, ◌+◌, ◌*◌, Bool, true, ◌&&◌, List, [], ◌∷◌, Bytes, Result, ok, ◌>>=◌, ◌>>◌, ensure, ◌==◌,
  if◌then◌else◌, length, replicate, copy_at, chunks_exact,
}
use groth16_verifier_program.Groth16.Constants.{
  fr_size, g1_size, pairing_input_size, pairing_slot_ab_offset, pairing_slot_alpha_beta_offset,
  pairing_slot_c_offset, pairing_slot_delta_offset, pairing_slot_gamma_offset,
  pairing_slot_l_offset,
}
use groth16_verifier_program.Groth16.Errors.{
  Groth16Error, public_input_count_mismatch, non_canonical_scalar, proof_invalid,
}
use groth16_verifier_program.Groth16.Proof.{Proof, a_b, c}
use groth16_verifier_program.Groth16.Scalar.{is_canonical, is_zero, is_one}
use groth16_verifier_program.Groth16.VerifyingKey.{
  VerifyingKey, checked, alpha_neg_beta, neg_gamma, neg_delta, ic,
}
use groth16_verifier_program.Groth16.Syscall.{Syscalls, g1_add, g1_mul, pairing_is_one}

-- The first loop of `prepare_inputs`.
unfoldable pub all_canonical : List Bytes → Bool
all_canonical [] = true
all_canonical (s ∷ rest) = is_canonical s && all_canonical rest

-- Six copies into a 768-byte buffer.
unfoldable pub write_pairing_input :
    Bytes → VerifyingKey checked → Proof → Bytes → Result Groth16Error Bytes
write_pairing_input input vk proof l = do
  ab ← a_b proof
  alpha_beta ← alpha_neg_beta vk
  g ← neg_gamma vk
  krs ← c proof
  d ← neg_delta vk
  input ← copy_at input pairing_slot_ab_offset (pairing_slot_ab_offset + length ab) ab
  input ←
      copy_at input pairing_slot_alpha_beta_offset
        (pairing_slot_alpha_beta_offset + length alpha_beta) alpha_beta
  input ← copy_at input pairing_slot_l_offset (pairing_slot_l_offset + g1_size) l
  input ← copy_at input pairing_slot_gamma_offset (pairing_slot_gamma_offset + length g) g
  input ← copy_at input pairing_slot_c_offset (pairing_slot_c_offset + g1_size) krs
  copy_at input pairing_slot_delta_offset (pairing_slot_delta_offset + length d) d

unfoldable pub assemble_pairing_input :
    VerifyingKey checked → Proof → Bytes → Result Groth16Error Bytes
assemble_pairing_input vk proof l = write_pairing_input (replicate pairing_input_size 0) vk proof l

module _ (sys : Syscalls) where
  -- The body of the second loop of `prepare_inputs`; `continue` keeps the accumulator.
  unfoldable pub add_term : VerifyingKey checked → ℕ → Bytes → Bytes → Result Groth16Error Bytes
  add_term vk i acc s = if is_zero s then ok acc else do
    p ← ic vk (i + 1)
    if is_zero p
        then ok acc
        else if is_one s
        then g1_add sys acc p
        else do term ← g1_mul sys p s; g1_add sys acc term

  unfoldable pub add_terms :
      VerifyingKey checked → ℕ → Bytes → List Bytes → Result Groth16Error Bytes
  add_terms vk i acc [] = ok acc
  add_terms vk i acc (s ∷ rest) = do acc' ← add_term vk i acc s; add_terms vk (i + 1) acc' rest

  unfoldable pub prepare_inputs : VerifyingKey checked → Bytes → Result Groth16Error Bytes
  prepare_inputs vk public_inputs = do
    ensure (length public_inputs == vk.num_public_inputs * fr_size) public_input_count_mismatch
    ensure (all_canonical (chunks_exact fr_size public_inputs)) non_canonical_scalar
    acc ← ic vk 0
    add_terms vk 0 acc (chunks_exact fr_size public_inputs)

  unfoldable pub check_pairing : Bytes → Result Groth16Error (Unit {0})
  check_pairing input = do one ← pairing_is_one sys input; ensure one proof_invalid

  unfoldable pub verify : VerifyingKey checked → Proof → Bytes → Result Groth16Error (Unit {0})
  verify vk proof public_inputs = do
    l ← prepare_inputs vk public_inputs
    input ← assemble_pairing_input vk proof l
    check_pairing input
