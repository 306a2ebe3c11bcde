-- ===== src/Program/Processor/Publish.antt =====
-- program/src/processor/publish.rs.
pub mod Guards
pub mod Calls
pub mod Effect
pub mod Ready
pub mod Succeeds
use groth16_verifier_program.Common.{
  ℕ, ◌-◌, not, ◌||◌, List, [], ◌∷◌, Bytes, Result, ok, err, ◌>>=◌, ◌>>◌, ensure, map_err, ltb, ◌==◌,
  if◌then◌else◌, length, bytes_eq, copy_at,
}
use groth16_verifier_program.Groth16.Constants.{
  system_program_id, key_account_len, key_header_len, vk_seed_prefix,
}
use groth16_verifier_program.Groth16.State.{write_key_header}
use groth16_verifier_program.Groth16.VerifyingKey.{from_body_with_len}
use groth16_verifier_program.Groth16.Validation.{validate_for_publish}
use groth16_verifier_program.Program.Errors.{
  ProgramError, Groth16ProgramError, into, map_groth16, invalid_argument, invalid_instruction_data,
  invalid_account_data, incorrect_program_id,
}
use groth16_verifier_program.Program.Runtime.{Store, update, View, Runtime}
use groth16_verifier_program.Program.Processor.Checks.{
  expect_signer, expect_writable, owned_by, expect_owned_by, expect_distinct, authorized_staging,
  drain_and_close, try_borrow_mut,
}

-- The five accounts, under the names of the source.
pub record Accounts : Type 0 where
  pub authority : View
  pub payer : View
  pub staging : View
  pub key : View
  pub system : View

-- `let [authority, payer, staging, key, system] = accounts else { .. }`.
unfoldable pub exactly_five : List View → Result ProgramError Accounts
exactly_five (a ∷ p ∷ s ∷ k ∷ y ∷ []) =
    ok (record { authority = a; payer = p; staging = s; key = k; system = y })
exactly_five _ = err invalid_argument

-- The checks on the accounts alone.
unfoldable pub check_accounts : Bytes → Accounts → Store → Result ProgramError (Unit {0})
check_accounts program_id accs st = do
  expect_signer accs.authority
  expect_writable accs.authority
  expect_signer accs.payer
  expect_writable accs.payer
  expect_writable accs.staging
  expect_writable accs.key
  expect_owned_by st accs.staging program_id
  expect_distinct accs.authority accs.staging
  ensure (bytes_eq accs.system.address system_program_id) incorrect_program_id

-- Step 2: the key account's address is the derived one, and nothing is there yet.
unfoldable pub check_target : Bytes → Bytes → View → Store → Result ProgramError (Unit {0})
check_target program_id expected key st = do
  ensure (bytes_eq key.address expected) (into Groth16ProgramError.key_address_mismatch)
  ensure (not (owned_by st key program_id)) (into Groth16ProgramError.key_already_published)
  ensure
      (not (not (owned_by st key system_program_id) || not (length (st key.address).contents == 0)))
      invalid_account_data

module _ (rt : Runtime) where
  unfoldable pub top_up : Bytes → Bytes → ℕ → Store → Result ProgramError Store
  top_up payer key shortfall st =
      if ltb 0 shortfall then rt.transfer payer key shortfall st else ok st

  unfoldable pub create_key_account :
      Bytes → Bytes → Bytes → Bytes → ℕ → ℕ → Store → Result ProgramError Store
  create_key_account payer key program_id hash bump space st = do
    required ← rt.try_minimum_balance space
    let shortfall = required - (st key).lamports
    st ← top_up payer key shortfall st
    let seeds = vk_seed_prefix ∷ hash ∷ (bump ∷ []) ∷ []
    st ← rt.allocate key space seeds st
    rt.assign key program_id seeds st

  -- The header and the body, into the account that was just made.
  unfoldable pub fill_key : View → View → ℕ → ℕ → Bytes → Store → Result ProgramError Store
  fill_key staging key bump n body st = do
    try_borrow_mut staging key
    let contents = (st key.address).contents
    contents ← write_key_header contents (record { bump = bump; num_public_inputs = n })
    contents ← copy_at contents key_header_len (length contents) body
    ok (update st key.address (record (st key.address) { contents = contents }))

  -- `body` is borrowed from the staging account, which none of the calls is given.
  unfoldable pub process : Bytes → List View → Bytes → Store → Result ProgramError Store
  process program_id accounts payload st = do
    ensure (length payload == 0) invalid_instruction_data
    accs ← exactly_five accounts
    check_accounts program_id accs st
    (header, body) ← authorized_staging (st accs.staging.address).contents accs.authority
    let n = header.num_public_inputs
    vk ← map_err map_groth16 (from_body_with_len body n)
    let hash = rt.sha256 body
    let derived = rt.find_program_address (vk_seed_prefix ∷ hash ∷ []) program_id
    check_target program_id derived.0 accs.key st
    _ ← map_err map_groth16 (validate_for_publish rt.syscalls vk)
    st ←
        create_key_account accs.payer.address accs.key.address program_id hash derived.1
          (key_account_len n) st
    st ← fill_key accs.staging accs.key derived.1 n body st
    drain_and_close rt accs.staging.address accs.authority.address st
