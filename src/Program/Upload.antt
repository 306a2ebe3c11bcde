-- ===== src/Program/Upload.antt =====
-- The client's `write_body` and the program's `Write` together: the pieces upload the whole body.
pub mod Pieces
pub mod Step
pub mod Body
-- What the runtime shows of an account that an instruction names.
use mathlib.Core.List.{flatten}
use groth16_verifier_program.Program.Processor.Checks.Pair.{update_self, update_ne}
use groth16_verifier_program.Program.Processor.Dispatch.{process_instruction, process_tag}
use groth16_verifier_program.Program.Processor.Write
use groth16_verifier_program.Groth16.Tag.{Tag, as_u8, from_u8_iff}
use groth16_verifier_program.Program.Processor.Write.Effect.{written, write_iff}
use groth16_verifier_program.Groth16.State.StagingAccount.{
  staging_header, read_staging_account-header,
}
use groth16_verifier_program.Groth16.Constants.{max_public_inputs, vk_body_len}
use groth16_verifier_program.Program.Errors.{ProgramError}
use groth16_verifier_program.Groth16.State.{StagingHeader, read_staging_account}
use groth16_verifier_program.Program.Runtime.{View, Runtime, Store, update, Account}
use groth16_verifier_program.Common.{
  ◌>>=◌, List, pieces, u32_from_le, ℕ, Bytes, ◌∷◌, u32_to_le, ◌<◌, ◌≡◌, [], ◌^◌, ◌≤◌, ◌*◌, ◌+◌,
  length, Result, ok, suc, ◌-◌, take, ap, ◌/◌, ◌≢◌, false, arith, true, ◌++◌, length-take, drop,
  length-append, length-drop, ◌∙◌, subst, sym, append_assoc, zero, refl, take-append, drop-drop,
  drop-append, ap₂, chunks, ◌%◌, flatten-pieces, ◌==◌,
}
use groth16_verifier_program.Groth16.Instruction.{
  new, new_readonly, AccountMeta, Instruction, write_body, write_pieces, write,
}

abbrev pub viewed : AccountMeta → View
viewed m = record { address = m.pubkey; is_signer = m.is_signer; is_writable = m.is_writable }

abbrev pub views : List AccountMeta → List View
views [] = []
views (m ∷ ms) = viewed m ∷ views ms

-- A transaction's instructions to the program, one after the other.
abbrev pub execute : Runtime → Bytes → List Instruction → Store → Result ProgramError Store
execute rt program_id [] st = ok st
execute rt program_id (i ∷ rest) st =
    process_instruction rt program_id (views i.accounts) i.payload st >>= execute rt program_id rest

-- The account of the program with this body, and the others as they were.
pub record Holds (program_id staging : Bytes) (header : StagingHeader) (before st : Store)
    (body : Bytes) : Type 0 where
  pub owned : (st staging).owner ≡ program_id
  pub lamports : (st staging).lamports ≡ (before staging).lamports
  pub contents : (st staging).contents ≡ staging_header header ++ body
  pub others : (a : Bytes) → a ≢ staging → st a ≡ before a
