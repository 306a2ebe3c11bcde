-- ===== src/Program/Errors.antt =====
-- program/src/error.rs: the program's error codes, and the verifier's errors mapped onto them.
pub mod Codes
use groth16_verifier_program.Common.{ℕ}
use groth16_verifier_program.Groth16.Errors.{Groth16Error}

-- The variants of pinocchio's `ProgramError` that the program names; `other` stands for those that
-- only the runtime's calls return.
pub data ProgramError : Type 0 where
  custom : ℕ → ProgramError
  invalid_argument invalid_instruction_data invalid_account_data : ProgramError
  missing_required_signature invalid_account_owner incorrect_authority : ProgramError
  incorrect_program_id account_already_initialized arithmetic_overflow : ProgramError
  account_borrow_failed : ProgramError
  other : ℕ → ProgramError

pub data Groth16ProgramError : Type 0 where
  invalid_proof_length invalid_key_length too_many_public_inputs : Groth16ProgramError
  public_input_count_mismatch non_canonical_scalar invalid_point : Groth16ProgramError
  proof_invalid invalid_account_data wrong_discriminator : Groth16ProgramError
  key_address_mismatch key_already_published staging_size_mismatch : Groth16ProgramError
  write_out_of_bounds identity_key_element : Groth16ProgramError

-- `e as u32`.
unfoldable pub as_u32 : Groth16ProgramError → ℕ
as_u32 Groth16ProgramError.invalid_proof_length = 0
as_u32 Groth16ProgramError.invalid_key_length = 1
as_u32 Groth16ProgramError.too_many_public_inputs = 2
as_u32 Groth16ProgramError.public_input_count_mismatch = 3
as_u32 Groth16ProgramError.non_canonical_scalar = 4
as_u32 Groth16ProgramError.invalid_point = 5
as_u32 Groth16ProgramError.proof_invalid = 6
as_u32 Groth16ProgramError.invalid_account_data = 7
as_u32 Groth16ProgramError.wrong_discriminator = 8
as_u32 Groth16ProgramError.key_address_mismatch = 100
as_u32 Groth16ProgramError.key_already_published = 101
as_u32 Groth16ProgramError.staging_size_mismatch = 102
as_u32 Groth16ProgramError.write_out_of_bounds = 103
as_u32 Groth16ProgramError.identity_key_element = 104

-- `From<Groth16ProgramError> for ProgramError`.
unfoldable pub into : Groth16ProgramError → ProgramError
unfolding as_u32
into e = custom (as_u32 e)

unfoldable pub groth16_code : Groth16Error → Groth16ProgramError
groth16_code Groth16Error.invalid_proof_length = Groth16ProgramError.invalid_proof_length
groth16_code Groth16Error.invalid_key_length = Groth16ProgramError.invalid_key_length
groth16_code Groth16Error.too_many_public_inputs = Groth16ProgramError.too_many_public_inputs
groth16_code Groth16Error.public_input_count_mismatch =
    Groth16ProgramError.public_input_count_mismatch
groth16_code Groth16Error.non_canonical_scalar = Groth16ProgramError.non_canonical_scalar
groth16_code Groth16Error.invalid_point = Groth16ProgramError.invalid_point
groth16_code Groth16Error.proof_invalid = Groth16ProgramError.proof_invalid
groth16_code Groth16Error.invalid_account_data = Groth16ProgramError.invalid_account_data
groth16_code Groth16Error.wrong_discriminator = Groth16ProgramError.wrong_discriminator
groth16_code Groth16Error.identity_key_element = Groth16ProgramError.identity_key_element

unfoldable pub map_groth16 : Groth16Error → ProgramError
unfolding groth16_code into
map_groth16 e = into (groth16_code e)
