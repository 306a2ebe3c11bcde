-- ===== src/Program/Errors/Codes.antt =====
-- Which codes the errors of program/src/error.rs have.
use groth16_verifier_program.Common.{◌≡◌, ℕ, Option, some, if◌then◌else◌, ap, ◌==◌, none, refl}
use groth16_verifier_program.Program.Errors.{
  Groth16ProgramError, as_u32, into, groth16_code, map_groth16,
}
use groth16_verifier_program.Groth16.Errors.{Groth16Error}

-- The error that a code stands for.
unfoldable pub from_code : ℕ → Option Groth16ProgramError
from_code c =
    if c == 0
    then some Groth16ProgramError.invalid_proof_length
    else if c == 1
    then some Groth16ProgramError.invalid_key_length
    else if c == 2
    then some Groth16ProgramError.too_many_public_inputs
    else if c == 3
    then some Groth16ProgramError.public_input_count_mismatch
    else if c == 4
    then some Groth16ProgramError.non_canonical_scalar
    else if c == 5
    then some Groth16ProgramError.invalid_point
    else if c == 6
    then some Groth16ProgramError.proof_invalid
    else if c == 7
    then some Groth16ProgramError.invalid_account_data
    else if c == 8
    then some Groth16ProgramError.wrong_discriminator
    else if c == 100
    then some Groth16ProgramError.key_address_mismatch
    else if c == 101
    then some Groth16ProgramError.key_already_published
    else if c == 102
    then some Groth16ProgramError.staging_size_mismatch
    else if c == 103
    then some Groth16ProgramError.write_out_of_bounds
    else if c == 104
    then some Groth16ProgramError.identity_key_element
    else none

from_code-as_u32 : (e : Groth16ProgramError) → from_code (as_u32 e) ≡ some e
unfolding from_code as_u32
from_code-as_u32 Groth16ProgramError.invalid_proof_length = refl
from_code-as_u32 Groth16ProgramError.invalid_key_length = refl
from_code-as_u32 Groth16ProgramError.too_many_public_inputs = refl
from_code-as_u32 Groth16ProgramError.public_input_count_mismatch = refl
from_code-as_u32 Groth16ProgramError.non_canonical_scalar = refl
from_code-as_u32 Groth16ProgramError.invalid_point = refl
from_code-as_u32 Groth16ProgramError.proof_invalid = refl
from_code-as_u32 Groth16ProgramError.invalid_account_data = refl
from_code-as_u32 Groth16ProgramError.wrong_discriminator = refl
from_code-as_u32 Groth16ProgramError.key_address_mismatch = refl
from_code-as_u32 Groth16ProgramError.key_already_published = refl
from_code-as_u32 Groth16ProgramError.staging_size_mismatch = refl
from_code-as_u32 Groth16ProgramError.write_out_of_bounds = refl
from_code-as_u32 Groth16ProgramError.identity_key_element = refl

-- No two of the program's errors share a code.
pub into-injective : (e e' : Groth16ProgramError) → into e ≡ into e' → e ≡ e'
unfolding into
into-injective e e' h =
    let c : as_u32 e ≡ as_u32 e' = cc h in
    cc (from_code-as_u32 e, from_code-as_u32 e', ap from_code c)

-- The verifier's error that a program error comes from.
unfoldable pub from_program : Groth16ProgramError → Option Groth16Error
from_program Groth16ProgramError.invalid_proof_length = some Groth16Error.invalid_proof_length
from_program Groth16ProgramError.invalid_key_length = some Groth16Error.invalid_key_length
from_program Groth16ProgramError.too_many_public_inputs = some Groth16Error.too_many_public_inputs
from_program Groth16ProgramError.public_input_count_mismatch =
    some Groth16Error.public_input_count_mismatch
from_program Groth16ProgramError.non_canonical_scalar = some Groth16Error.non_canonical_scalar
from_program Groth16ProgramError.invalid_point = some Groth16Error.invalid_point
from_program Groth16ProgramError.proof_invalid = some Groth16Error.proof_invalid
from_program Groth16ProgramError.invalid_account_data = some Groth16Error.invalid_account_data
from_program Groth16ProgramError.wrong_discriminator = some Groth16Error.wrong_discriminator
from_program Groth16ProgramError.identity_key_element = some Groth16Error.identity_key_element
from_program Groth16ProgramError.key_address_mismatch = none
from_program Groth16ProgramError.key_already_published = none
from_program Groth16ProgramError.staging_size_mismatch = none
from_program Groth16ProgramError.write_out_of_bounds = none

from_program-groth16_code : (e : Groth16Error) → from_program (groth16_code e) ≡ some e
unfolding from_program groth16_code
from_program-groth16_code Groth16Error.invalid_proof_length = refl
from_program-groth16_code Groth16Error.invalid_key_length = refl
from_program-groth16_code Groth16Error.too_many_public_inputs = refl
from_program-groth16_code Groth16Error.public_input_count_mismatch = refl
from_program-groth16_code Groth16Error.non_canonical_scalar = refl
from_program-groth16_code Groth16Error.invalid_point = refl
from_program-groth16_code Groth16Error.proof_invalid = refl
from_program-groth16_code Groth16Error.invalid_account_data = refl
from_program-groth16_code Groth16Error.wrong_discriminator = refl
from_program-groth16_code Groth16Error.identity_key_element = refl

-- `map_groth16` loses nothing: a program error that it returns is the image of one verifier error
-- only. Conversely the registry's own errors, the ones that `from_program` sends to nothing, are never
-- returned for a verifier error.
pub map_groth16-injective :
    (e : Groth16Error)
    → ((e' : Groth16Error) → map_groth16 e ≡ map_groth16 e' → e ≡ e')
      × ((p : Groth16ProgramError) → map_groth16 e ≡ into p → from_program p ≡ some e)
unfolding map_groth16
map_groth16-injective e = (
  λ e' h. cc (
    from_program-groth16_code e,
    from_program-groth16_code e',
    ap from_program (into-injective (groth16_code e) (groth16_code e') h),
  ),
  λ p h. cc (from_program-groth16_code e, ap from_program (into-injective (groth16_code e) p h)),
)
