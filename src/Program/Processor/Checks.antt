-- ===== src/Program/Processor/Checks.antt =====
-- program/src/processor/mod.rs: the account checks that the processors share.
pub mod Pair
use groth16_verifier_program.Common.{
  Bool, not, List, [], ◌∷◌, Bytes, Result, ok, err, ◌>>=◌, ◌>>◌, ensure, ok_or, map_err, bytes_eq,
  checked_add,
}
use groth16_verifier_program.Groth16.State.{StagingHeader, read_staging_account}
use groth16_verifier_program.Program.Errors.{
  ProgramError, invalid_argument, missing_required_signature, invalid_account_owner,
  incorrect_authority, arithmetic_overflow, account_borrow_failed, map_groth16,
}
use groth16_verifier_program.Program.Runtime.{Store, update, View, Runtime}

unfoldable pub expect_signer : View → Result ProgramError (Unit {0})
expect_signer account = ensure account.is_signer missing_required_signature

unfoldable pub expect_writable : View → Result ProgramError (Unit {0})
expect_writable account = ensure account.is_writable invalid_argument

unfoldable pub owned_by : Store → View → Bytes → Bool
owned_by st account owner = bytes_eq (st account.address).owner owner

unfoldable pub expect_owned_by : Store → View → Bytes → Result ProgramError (Unit {0})
expect_owned_by st account owner = ensure (owned_by st account owner) invalid_account_owner

unfoldable pub expect_distinct : View → View → Result ProgramError (Unit {0})
expect_distinct a b = ensure (not (bytes_eq a.address b.address)) invalid_argument

-- `let [authority, staging] = accounts else { .. }`.
unfoldable pub exactly_two : List View → Result ProgramError (View × View)
exactly_two (a ∷ b ∷ []) = ok (a, b)
exactly_two _ = err invalid_argument

unfoldable pub staging_pair : Store → List View → Bytes → Result ProgramError (View × View)
staging_pair st accounts program_id = do
  (authority, staging) ← exactly_two accounts
  expect_signer authority
  expect_writable staging
  expect_owned_by st staging program_id
  expect_distinct authority staging
  ok (authority, staging)

unfoldable pub drain_and_close : Runtime → Bytes → Bytes → Store → Result ProgramError Store
drain_and_close rt from to st = do
  let lamports = (st from).lamports
  total ← ok_or (checked_add (st to).lamports lamports) arithmetic_overflow
  let credited = update st to (record (st to) { lamports = total })
  let drained = record (credited from) { lamports = 0 }
  closed ← rt.close drained
  ok (update credited from closed)

unfoldable pub authorized_staging : Bytes → View → Result ProgramError (StagingHeader × Bytes)
authorized_staging contents authority = do
  (header, body) ← map_err map_groth16 (read_staging_account contents)
  ensure (bytes_eq header.authority authority.address) incorrect_authority
  ok (header, body)

-- `key.try_borrow_mut()?` while another account's bytes are borrowed.
unfoldable pub try_borrow_mut : View → View → Result ProgramError (Unit {0})
try_borrow_mut held account =
    ensure (not (bytes_eq held.address account.address)) account_borrow_failed
