-- ===== src/Program/Processor/Dispatch.antt =====
-- program/src/processor/mod.rs: `process_instruction`.
use groth16_verifier_program.Common.{List, [], ◌∷◌, Bytes, Result, ok, err, ◌>>=◌, ◌>>◌, ok_or}
use groth16_verifier_program.Groth16.Tag.{Tag, from_u8}
use groth16_verifier_program.Program.Errors.{ProgramError, invalid_instruction_data}
use groth16_verifier_program.Program.Runtime.{Store, View, Runtime}
use groth16_verifier_program.Program.Processor.InitializeStaging
use groth16_verifier_program.Program.Processor.Write
use groth16_verifier_program.Program.Processor.Publish
use groth16_verifier_program.Program.Processor.Verify
use groth16_verifier_program.Program.Processor.CloseStaging

-- `Verify` changes nothing.
unfoldable pub process_tag :
    Runtime → Bytes → List View → Tag → Bytes → Store → Result ProgramError Store
process_tag rt program_id accounts Tag.verify payload st =
    Verify.process rt program_id accounts payload st >> ok st
process_tag rt program_id accounts Tag.initialize_staging payload st =
    InitializeStaging.process program_id accounts payload st
process_tag rt program_id accounts Tag.write payload st =
    Write.process program_id accounts payload st
process_tag rt program_id accounts Tag.publish payload st =
    Publish.process rt program_id accounts payload st
process_tag rt program_id accounts Tag.close_staging payload st =
    CloseStaging.process rt program_id accounts payload st

unfoldable pub process_instruction :
    Runtime → Bytes → List View → Bytes → Store → Result ProgramError Store
process_instruction rt program_id accounts [] st = err invalid_instruction_data
process_instruction rt program_id accounts (tag ∷ payload) st = do
  t ← ok_or (from_u8 tag) invalid_instruction_data
  process_tag rt program_id accounts t payload st
