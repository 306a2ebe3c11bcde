-- ===== src/Program/Processor/CloseStaging.antt =====
-- program/src/processor/close_staging.rs.
pub mod Effect
use groth16_verifier_program.Common.{List, Bytes, Result, ◌>>=◌, ◌>>◌, ensure, ◌==◌, length}
use groth16_verifier_program.Program.Errors.{ProgramError, invalid_instruction_data}
use groth16_verifier_program.Program.Runtime.{Store, View, Runtime}
use groth16_verifier_program.Program.Processor.Checks.{
  staging_pair, expect_writable, authorized_staging, drain_and_close,
}

unfoldable pub process : Runtime → Bytes → List View → Bytes → Store → Result ProgramError Store
process rt program_id accounts payload st = do
  ensure (length payload == 0) invalid_instruction_data
  (authority, staging) ← staging_pair st accounts program_id
  expect_writable authority
  _ ← authorized_staging (st staging.address).contents authority
  drain_and_close rt staging.address authority.address st
