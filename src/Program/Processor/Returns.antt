-- ===== src/Program/Processor/Returns.antt =====
-- The processors return on every input: none of their slices, copies and conversions panics.
pub mod Writing
pub mod Verifying
use groth16_verifier_program.Groth16.VerifyingKey.Layout.{IsLaidOut}
use groth16_verifier_program.Groth16.Proof.Views.{split_from_iff}
use groth16_verifier_program.Groth16.State.KeyAccount.{read_key_account-eq-ok}
use groth16_verifier_program.Groth16.VerifyingKey.{assume_validated, VerifyingKey, unchecked}
use groth16_verifier_program.Groth16.Constants.{max_public_inputs, staging_account_len, proof_size}
use groth16_verifier_program.Groth16.State.StagingAccount.{
  read_staging_account-eq-ok, write_staging_header_lem,
}
use groth16_verifier_program.Program.Processor.Checks.Pair.{
  staging_pair_iff, authorized_staging_iff,
}
use groth16_verifier_program.Groth16.Proof.{split_from, from_bytes, Proof}
use groth16_verifier_program.Groth16.State.Returns.{
  read_staging_account-Returns, read_key_account-Returns,
}
use groth16_verifier_program.Groth16.State.{read_staging_account, read_key_account, StagingHeader}
use groth16_verifier_program.Program.Errors.{
  map_groth16, arithmetic_overflow, invalid_instruction_data, invalid_argument, incorrect_authority,
  into, Groth16ProgramError, invalid_account_owner, ProgramError, account_already_initialized,
}
use groth16_verifier_program.Groth16.Syscall.Returns.{WritesOutputs, index-Yields}
use groth16_verifier_program.Common.{
  Bytes, List, Returns, ℕ, ensure-Returns, then-Returns, ◌∷◌, length, map_err, ok_or, Returns-of,
  arith, checked_add, ◌==◌, [], map_err-Returns, ok_or-Returns, bytes_eq, ◌≡◌, leb, All,
  u32_from_le, ok, ◌+◌, length-take, subst, ◌≤◌, slice_from_lem, drop, index, copy_at_lem,
  Yields-Returns, map_err-eq-ok,
}
use groth16_verifier_program.Program.Runtime.{Runtime, View, Store, Account}
use groth16_verifier_program.Program.Processor.InitializeStaging
use groth16_verifier_program.Program.Processor.InitializeStaging.{payload_n}
use groth16_verifier_program.Program.Processor.Write
use groth16_verifier_program.Program.Processor.Write.{split_payload, write_end}
use groth16_verifier_program.Groth16.Verifier.{verify}
use groth16_verifier_program.Groth16.Verifier.Returns as Verifier
use groth16_verifier_program.Program.Processor.Verify
use groth16_verifier_program.Program.Processor.Verify.{exactly_one}
use groth16_verifier_program.Program.Processor.CloseStaging
use groth16_verifier_program.Program.Processor.Checks.{
  exactly_two, staging_pair, expect_signer, expect_writable, expect_owned_by, expect_distinct,
  authorized_staging, drain_and_close, owned_by,
}

-- The calls of the runtime return, and the syscalls write as many bytes as they are documented to.
pub record CallsReturn (rt : Runtime) : Type 0 where
  pub outputs : WritesOutputs rt.syscalls
  pub rents : (space : ℕ) → Returns (rt.try_minimum_balance space)
  pub transfers :
      (from to : Bytes) (amount : ℕ) (st : Store) → Returns (rt.transfer from to amount st)
  pub allocates :
      (a : Bytes) (space : ℕ) (seeds : List Bytes) (st : Store)
      → Returns (rt.allocate a space seeds st)
  pub assigns :
      (a owner : Bytes) (seeds : List Bytes) (st : Store) → Returns (rt.assign a owner seeds st)
  pub closes : (acc : Account) → Returns (rt.close acc)

pub authorized_staging-Returns :
    (contents : Bytes) (authority : View) → Returns (authorized_staging contents authority)
unfolding authorized_staging
authorized_staging-Returns contents authority =
    then-Returns (map_err map_groth16 (read_staging_account contents)) _
      (map_err-Returns map_groth16 (read_staging_account contents)
        (read_staging_account-Returns contents))
      (λ r _.
        ensure-Returns (bytes_eq r.0.authority authority.address) incorrect_authority _ (λ _. tt))

pub staging_pair-Returns :
    (st : Store) (accounts : List View) (program_id : Bytes)
    → Returns (staging_pair st accounts program_id)
unfolding staging_pair exactly_two expect_signer expect_writable expect_owned_by expect_distinct
staging_pair-Returns st [] program_id = tt
staging_pair-Returns st (a ∷ []) program_id = tt
staging_pair-Returns st (a ∷ b ∷ []) program_id =
    Returns-of (staging_pair st (a ∷ b ∷ []) program_id) (λ e. ground (arith, e))
staging_pair-Returns st (a ∷ b ∷ c ∷ r) program_id = tt

pub drain_and_close-Returns :
    (rt : Runtime)
    → CallsReturn rt
    → (from to : Bytes) (st : Store) → Returns (drain_and_close rt from to st)
unfolding drain_and_close
drain_and_close-Returns rt calls from to st =
    then-Returns (ok_or (checked_add (st to).lamports (st from).lamports) arithmetic_overflow) _
      (ok_or-Returns (checked_add (st to).lamports (st from).lamports) arithmetic_overflow)
      (λ total _. then-Returns (rt.close _) _ (calls.closes _) (λ closed _. tt))

pub close_staging-Returns :
    (rt : Runtime)
    → CallsReturn rt
    → (program_id : Bytes) (accounts : List View) (payload : Bytes) (st : Store)
    → Returns (CloseStaging.process rt program_id accounts payload st)
unfolding CloseStaging.process expect_writable
close_staging-Returns rt calls program_id accounts payload st =
    ensure-Returns (length payload == 0) invalid_instruction_data _ (λ _.
      then-Returns (staging_pair st accounts program_id) _
        (staging_pair-Returns st accounts program_id)
        (λ (authority, staging) _. ensure-Returns authority.is_writable invalid_argument _ (λ _.
          then-Returns (authorized_staging (st staging.address).contents authority) _
            (authorized_staging-Returns (st staging.address).contents authority)
            (λ _ _. drain_and_close-Returns rt calls staging.address authority.address st))))

payload_n-Returns : (payload : Bytes) → Returns (payload_n payload)
unfolding payload_n
payload_n-Returns [] = tt
payload_n-Returns (a ∷ []) = tt
payload_n-Returns (a ∷ b ∷ []) = tt
payload_n-Returns (a ∷ b ∷ c ∷ r) = tt

pub initialize_staging-Returns :
    (program_id : Bytes) (accounts : List View) (payload : Bytes) (st : Store)
    → All (λ (v : View). length v.address ≡ 32) accounts
    → Returns (InitializeStaging.process program_id accounts payload st)
unfolding InitializeStaging.process
initialize_staging-Returns program_id accounts payload st addresses =
    then-Returns (staging_pair st accounts program_id) _
      (staging_pair-Returns st accounts program_id)
      (λ (authority, staging) pair.
        let (given, _) = (staging_pair_iff st accounts program_id authority staging).0 pair in
        let a : length authority.address ≡ 32 =
          (subst (λ (vs : List View). All (λ (v : View). length v.address ≡ 32) vs) given
            addresses).0 in
        let contents = (st staging.address).contents in
        then-Returns (payload_n payload) _ (payload_n-Returns payload) (λ n _.
          ensure-Returns (leb n max_public_inputs) _ _ (λ _.
            ensure-Returns (length contents == staging_account_len n) _ _ (λ size.
              then-Returns (index contents 0) _
                (Yields-Returns (λ _. Unit {0}) (index {E = ProgramError} contents 0)
                  (index-Yields ProgramError contents 0 (ground (arith, size))))
                (λ disc _. ensure-Returns (disc == 0) account_already_initialized _ (λ _.
                  let h : StagingHeader = record {
                    num_public_inputs = n;
                    authority = authority.address;
                  } in
                  rw
                    (write_staging_header_lem {E = ProgramError} contents h (ground (arith, size))
                      a)
                    tt))))))
