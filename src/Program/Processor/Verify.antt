-- ===== src/Program/Processor/Verify.antt =====
-- program/src/processor/verify.rs.
pub mod Effect
use groth16_verifier_program.Common.{List, [], ◌∷◌, Bytes, Result, ok, err, ◌>>=◌, ◌>>◌, map_err}
use groth16_verifier_program.Groth16.Proof.{split_from}
use groth16_verifier_program.Groth16.State.{read_key_account}
use groth16_verifier_program.Groth16.Verifier.{verify}
use groth16_verifier_program.Groth16.VerifyingKey.{assume_validated}
use groth16_verifier_program.Program.Errors.{ProgramError, invalid_argument, map_groth16}
use groth16_verifier_program.Program.Runtime.{Store, View, Runtime}
use groth16_verifier_program.Program.Processor.Checks.{expect_owned_by}

-- `let [key] = accounts else { .. }`.
unfoldable pub exactly_one : List View → Result ProgramError View
exactly_one (a ∷ []) = ok a
exactly_one _ = err invalid_argument

unfoldable pub process :
    Runtime → Bytes → List View → Bytes → Store → Result ProgramError (Unit {0})
process rt program_id accounts payload st = do
  key ← exactly_one accounts
  expect_owned_by st key program_id
  (_, vk) ← map_err map_groth16 (read_key_account (st key.address).contents)
  (proof, public_inputs) ← map_err map_groth16 (split_from payload)
  map_err map_groth16 (verify rt.syscalls (assume_validated vk) proof public_inputs)
