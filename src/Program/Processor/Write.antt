-- ===== src/Program/Processor/Write.antt =====
-- program/src/processor/write.rs.
pub mod Effect
use groth16_verifier_program.Common.{
  ℕ, ◌++◌, List, Bytes, Option, none, some, Result, ok, ◌>>=◌, ◌>>◌, ensure, ok_or, leb,
  if◌then◌else◌, length, take, drop, u32_from_le, slice_from, copy_at, checked_add,
}
use groth16_verifier_program.Groth16.Constants.{staging_header_len}
use groth16_verifier_program.Program.Errors.{
  ProgramError, Groth16ProgramError, into, invalid_instruction_data,
}
use groth16_verifier_program.Program.Runtime.{Store, update, View}
use groth16_verifier_program.Program.Processor.Checks.{staging_pair, authorized_staging}

-- `payload.split_at_checked(4)`.
unfoldable pub split_payload : Bytes → Result ProgramError (Bytes × Bytes)
split_payload payload = do
  ensure (leb 4 (length payload)) invalid_instruction_data
  ok (take 4 payload, drop 4 payload)

-- `offset.checked_add(len).filter(|&end| end <= body_len)`.
unfoldable pub write_end : ℕ → ℕ → ℕ → Option ℕ
write_end offset len body_len = elim (checked_add offset len) [
  | none ↦ none
  | some end ↦ if leb end body_len then some end else none
]

-- `body` is the staging account from the header's end on, so the header is put back before it.
unfoldable pub process : Bytes → List View → Bytes → Store → Result ProgramError Store
process program_id accounts payload st = do
  (authority, staging) ← staging_pair st accounts program_id
  (offset_bytes, bytes) ← split_payload payload
  offset ← u32_from_le offset_bytes
  let contents = (st staging.address).contents
  _ ← authorized_staging contents authority
  body ← slice_from contents staging_header_len
  end ←
      ok_or (write_end offset (length bytes) (length body))
        (into Groth16ProgramError.write_out_of_bounds)
  body' ← copy_at body offset end bytes
  ok (
      update st staging.address
        (record (st staging.address) { contents = take staging_header_len contents ++ body' }))
