-- ===== src/Groth16/Errors.antt =====
-- groth16-verify/src/error.rs.
pub data Groth16Error : Type 0 where
  invalid_proof_length invalid_key_length too_many_public_inputs : Groth16Error
  public_input_count_mismatch non_canonical_scalar invalid_point proof_invalid : Groth16Error
  invalid_account_data wrong_discriminator identity_key_element : Groth16Error
