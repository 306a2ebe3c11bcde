-- ===== src/Program/Processor/InitializeStaging.antt =====
-- program/src/processor/initialize_staging.rs.
pub mod Effect
use groth16_verifier_program.Common.{
  ℕ, List, [], ◌∷◌, Bytes, Result, ok, err, ◌>>=◌, ◌>>◌, ensure, leb, ◌==◌, length, u16_from_le,
  index,
}
use groth16_verifier_program.Groth16.Constants.{max_public_inputs, staging_account_len}
use groth16_verifier_program.Groth16.State.{
  write_staging_header, discriminator_offset, discriminator_uninitialized,
}
use groth16_verifier_program.Program.Errors.{
  ProgramError, Groth16ProgramError, into, invalid_instruction_data, account_already_initialized,
}
use groth16_verifier_program.Program.Runtime.{Store, update, View}
use groth16_verifier_program.Program.Processor.Checks.{staging_pair}

-- `payload.try_into::<[u8; 2]>()` and `u16::from_le_bytes`.
unfoldable pub payload_n : Bytes → Result ProgramError ℕ
payload_n (lo ∷ hi ∷ []) = ok (u16_from_le lo hi)
payload_n _ = err invalid_instruction_data

unfoldable pub process : Bytes → List View → Bytes → Store → Result ProgramError Store
process program_id accounts payload st = do
  (authority, staging) ← staging_pair st accounts program_id
  n ← payload_n payload
  ensure (leb n max_public_inputs) (into Groth16ProgramError.too_many_public_inputs)
  let contents = (st staging.address).contents
  ensure (length contents == staging_account_len n) (into Groth16ProgramError.staging_size_mismatch)
  disc ← index contents discriminator_offset
  ensure (disc == discriminator_uninitialized) account_already_initialized
  contents' ←
      write_staging_header contents
        (record { num_public_inputs = n; authority = authority.address })
  ok (update st staging.address (record (st staging.address) { contents = contents' }))
