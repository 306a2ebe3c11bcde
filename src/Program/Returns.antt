-- ===== src/Program/Returns.antt =====
-- No instruction of the program panics.
use groth16_verifier_program.Groth16.Tag.{Tag, from_u8}
use groth16_verifier_program.Program.Processor.Publish.Guards.{check_accounts_iff, check_target_iff}
use groth16_verifier_program.Groth16.State.Returns.{from_body_with_len-Returns}
use groth16_verifier_program.Groth16.Validation.Returns.{validate_for_publish-Returns}
use groth16_verifier_program.Groth16.Constants.{vk_body_len, key_account_len}
use groth16_verifier_program.Program.Errors.{map_groth16, invalid_instruction_data}
use groth16_verifier_program.Groth16.VerifyingKey.Layout.{IsLaidOut, from_body_with_len_iff}
use groth16_verifier_program.Program.Processor.Publish.Calls.{
  Cpi, create_key_account-eq-ok, fill_key-fills,
}
use groth16_verifier_program.Common.{
  ◌>>=◌, List, Bytes, Returns, ℕ, ensure-Returns, ◌∷◌, ◌≢◌, map_err, then-Returns, Returns-of,
  length, [], ◌-◌, arith, ◌==◌, if-Returns, ◌≡◌, map_err-Returns, Yields-Returns, ltb, ◌+◌,
  map_err-eq-ok, ap, ◌∙◌, length-replicate, All, ok_or, ok_or-Returns,
}
use groth16_verifier_program.Program.Runtime.{Runtime, View, Store}
use groth16_verifier_program.Program.Processor.Verify
use groth16_verifier_program.Program.Processor.Publish
use groth16_verifier_program.Program.Processor.Publish.{
  exactly_five, check_accounts, check_target, Accounts, create_key_account, fill_key, top_up,
}
use groth16_verifier_program.Program.Processor.Dispatch.{process_instruction, process_tag}
use groth16_verifier_program.Program.Processor.Checks.{
  expect_signer, expect_writable, expect_owned_by, expect_distinct, owned_by, authorized_staging,
  drain_and_close,
}
use groth16_verifier_program.Groth16.VerifyingKey.{VerifyingKey, unchecked, from_body_with_len}
use groth16_verifier_program.Groth16.Validation.{validate_for_publish}
use groth16_verifier_program.Program.Processor.Returns.{
  CallsReturn, authorized_staging-Returns, drain_and_close-Returns, initialize_staging-Returns,
  close_staging-Returns,
}
use groth16_verifier_program.Program.Processor.Returns.Writing.{write-Returns}
use groth16_verifier_program.Program.Processor.Returns.Verifying.{verify-Returns}

exactly_five-Returns : (accounts : List View) → Returns (exactly_five accounts)
unfolding exactly_five
exactly_five-Returns [] = tt
exactly_five-Returns (a ∷ []) = tt
exactly_five-Returns (a ∷ b ∷ []) = tt
exactly_five-Returns (a ∷ b ∷ c ∷ []) = tt
exactly_five-Returns (a ∷ b ∷ c ∷ d ∷ []) = tt
exactly_five-Returns (a ∷ b ∷ c ∷ d ∷ e ∷ []) = tt
exactly_five-Returns (a ∷ b ∷ c ∷ d ∷ e ∷ f ∷ r) = tt

check_accounts-Returns :
    (program_id : Bytes) (accs : Accounts) (st : Store)
    → Returns (check_accounts program_id accs st)
unfolding check_accounts expect_signer expect_writable expect_owned_by owned_by expect_distinct
check_accounts-Returns program_id accs st =
    Returns-of (check_accounts program_id accs st) (λ e. ground (arith, e))

check_target-Returns :
    (program_id expected : Bytes) (key : View) (st : Store)
    → Returns (check_target program_id expected key st)
unfolding check_target owned_by
check_target-Returns program_id expected key st =
    Returns-of (check_target program_id expected key st) (λ e. ground (arith, e))

module _ (rt : Runtime) (calls : CallsReturn rt) where
  create_key_account-Returns :
      (payer key program_id hash : Bytes) (bump space : ℕ) (st : Store)
      → Returns (create_key_account rt payer key program_id hash bump space st)
  unfolding create_key_account top_up
  create_key_account-Returns payer key program_id hash bump space st =
      then-Returns (rt.try_minimum_balance space) _ (calls.rents space) (λ required _.
        then-Returns (top_up rt payer key (required - (st key).lamports) st) _
          (if-Returns (ltb 0 (required - (st key).lamports)) _ _ (calls.transfers payer key _ st)
            tt)
          (λ st₁ _.
            then-Returns (rt.allocate key space _ st₁) _ (calls.allocates key space _ st₁)
              (λ st₂ _. calls.assigns key program_id _ st₂)))

  -- The account was just made in the size of the header and the body, so that both fit.
  module _ (cpi : Cpi rt) where
    filled-Returns :
        (program_id : Bytes) (accs : Accounts) (hash body : Bytes) (bump n : ℕ) (st : Store)
        → accs.staging.address ≢ accs.key.address
        → length body ≡ vk_body_len n
        → Returns (
            create_key_account rt accs.payer.address accs.key.address program_id hash bump
              (key_account_len n)
              st
            >>= λ (st₁ : Store).
                fill_key rt accs.staging accs.key bump n body st₁
                >>= drain_and_close rt accs.staging.address accs.authority.address)
    filled-Returns program_id accs hash body bump n st apart sized =
        let key = accs.key.address in
        let space = key_account_len n in
        then-Returns (create_key_account rt accs.payer.address key program_id hash bump space st) _
          (create_key_account-Returns accs.payer.address key program_id hash bump space st)
          (λ st₁ make.
            let (_, z, _) =
              create_key_account-eq-ok rt cpi accs.payer.address key program_id hash bump space st
                st₁ make in
            let size : length (st₁ key).contents ≡ 8 + length body =
              ap (λ (b : Bytes). length b) z ∙ length-replicate space 0 ∙ omega (arith, sized) in
            rw (fill_key-fills rt accs.staging accs.key bump n body st₁ apart size)
              (drain_and_close-Returns rt calls accs.staging.address accs.authority.address _))

    validated-Returns :
        (vk : VerifyingKey unchecked)
        → IsLaidOut vk
        → Returns (map_err map_groth16 (validate_for_publish rt.syscalls vk))
    validated-Returns vk laid = map_err-Returns map_groth16 (validate_for_publish rt.syscalls vk) (
        Yields-Returns (λ _. Unit {0}) (validate_for_publish rt.syscalls vk)
          (validate_for_publish-Returns rt.syscalls calls.outputs vk laid))

    body_sized :
        (body : Bytes) (n : ℕ) (vk : VerifyingKey unchecked)
        → vk.body ≡ body
        → vk.num_public_inputs ≡ n
        → IsLaidOut vk
        → length body ≡ vk_body_len n
    body_sized body n vk b m laid = rw (← b, ← m) laid.sized

    publish-Returns :
        (program_id : Bytes) (accounts : List View) (payload : Bytes) (st : Store)
        → Returns (Publish.process rt program_id accounts payload st)
    unfolding Publish.process
    publish-Returns program_id accounts payload st =
        ensure-Returns (length payload == 0) invalid_instruction_data _ (λ _.
          then-Returns (exactly_five accounts) _ (exactly_five-Returns accounts) (λ accs _.
            then-Returns (check_accounts program_id accs st) _
              (check_accounts-Returns program_id accs st)
              (λ _ checks.
                then-Returns (authorized_staging (st accs.staging.address).contents accs.authority)
                  _ (authorized_staging-Returns (st accs.staging.address).contents accs.authority)
                  (λ (header, body) _.
                    let n = header.num_public_inputs in
                    then-Returns (map_err map_groth16 (from_body_with_len body n)) _
                      (map_err-Returns map_groth16 (from_body_with_len body n)
                        (from_body_with_len-Returns body n))
                      (λ vk parse.
                        let (b, m, laid) =
                          (from_body_with_len_iff body n vk).0
                            (map_err-eq-ok map_groth16 (from_body_with_len body n) parse) in
                        then-Returns (check_target program_id _ accs.key st) _
                          (check_target-Returns program_id _ accs.key st)
                          (λ _ target.
                            then-Returns (map_err map_groth16 (validate_for_publish rt.syscalls vk))
                              _ (validated-Returns vk laid)
                              (λ _ _.
                                let given = (check_accounts_iff program_id accs st).0 checks in
                                let blank = (check_target_iff program_id _ accs.key st).0 target in
                                filled-Returns program_id accs (rt.sha256 body) body _ n st
                                  (λ e. blank.fresh (rw (← e) given.staging_owned))
                                  (body_sized body n vk b m laid))))))))

    tag-Returns :
        (program_id : Bytes) (accounts : List View) (t : Tag) (payload : Bytes) (st : Store)
        → All (λ (v : View). length v.address ≡ 32) accounts
        → Returns (process_tag rt program_id accounts t payload st)
    unfolding process_tag
    tag-Returns program_id accounts Tag.verify payload st addresses =
        then-Returns (Verify.process rt program_id accounts payload st) _
          (verify-Returns rt calls program_id accounts payload st) (λ _ _. tt)
    tag-Returns program_id accounts Tag.initialize_staging payload st addresses =
        initialize_staging-Returns program_id accounts payload st addresses
    tag-Returns program_id accounts Tag.write payload st addresses =
        write-Returns program_id accounts payload st
    tag-Returns program_id accounts Tag.publish payload st addresses =
        publish-Returns program_id accounts payload st
    tag-Returns program_id accounts Tag.close_staging payload st addresses =
        close_staging-Returns rt calls program_id accounts payload st

    -- On every list of accounts with addresses of 32 bytes, every input and every store, whatever the
    -- accounts hold, the program returns a store or an error, and never panics: no index, slice, copy or
    -- conversion of a processor, of the verifier or of the validation is out of range. The hypotheses
    -- are that the runtime's calls return, that the syscalls write as many bytes as documented, and what
    -- the system program's calls do.
    pub process_instruction-Returns :
        (program_id : Bytes) (accounts : List View) (input : Bytes) (st : Store)
        → All (λ (v : View). length v.address ≡ 32) accounts
        → Returns (process_instruction rt program_id accounts input st)
    unfolding process_instruction
    process_instruction-Returns program_id accounts [] st addresses = tt
    process_instruction-Returns program_id accounts (tag ∷ payload) st addresses =
        then-Returns (ok_or (from_u8 tag) invalid_instruction_data) _
          (ok_or-Returns (from_u8 tag) invalid_instruction_data)
          (λ t _. tag-Returns program_id accounts t payload st addresses)
