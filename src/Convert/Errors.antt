-- ===== src/Convert/Errors.antt =====
-- tools/convert/src/lib.rs: the error type.
use groth16_verifier_program.Common.{ℕ}

-- The texts of `Unsupported`.
pub data Reason : Type 0 where
  no_ic0 invalid_body_length : Reason
  committed_inputs commitment_keys : Reason
  commitments secret_inputs length_disagrees : Reason

pub data ConvertError : Type 0 where
  unexpected_eof non_canonical_field invalid_point : ConvertError
  trailing_bytes : ℕ → ConvertError
  unsupported : Reason → ConvertError
  too_many_public_inputs : ℕ → ConvertError
