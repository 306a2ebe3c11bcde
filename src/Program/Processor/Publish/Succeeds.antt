-- ===== src/Program/Processor/Publish/Succeeds.antt =====
-- A `Publish` that brings what is asked for goes through.
use groth16_verifier_program.Program.Processor.Checks.Pair.{update_ne, authorized_staging_iff}
use groth16_verifier_program.Groth16.Constants.{vk_seed_prefix, key_account_len}
use groth16_verifier_program.Groth16.Validation.{check_points}
use groth16_verifier_program.Groth16.State.KeyAccount.{key_of}
use groth16_verifier_program.Program.Processor.CloseStaging.Effect.{drain_and_close-drains}
use groth16_verifier_program.Program.Processor.Publish.Effect.{published, writes_lem, Makes}
use groth16_verifier_program.Groth16.VerifyingKey.Layout.{IsLaidOut, from_body_with_len_iff}
use groth16_verifier_program.Program.Processor.Publish.Guards.{
  AreGiven, listed, IsBlank, check_accounts_iff, check_target_iff,
}
use groth16_verifier_program.Groth16.State.{StagingHeader, read_staging_account}
use groth16_verifier_program.Program.Processor.Publish.{
  Accounts, exactly_five, process, fill_key, create_key_account,
}
use groth16_verifier_program.Program.Processor.Publish.Ready.{Grants, creates, CanPay, run_of}
use groth16_verifier_program.Common.{
  Bytes, ◌≡◌, ok, [], ◌≢◌, ◌∷◌, ℕ, arith, ◌<◌, ◌^◌, length, ◌-◌, ◌+◌, ap, ◌∙◌, length-replicate,
  sym, ◌≤◌, refl,
}
use groth16_verifier_program.Program.Processor.Publish.Calls.{
  Cpi, create_key_account-eq-ok, fill_key-fills,
}
use groth16_verifier_program.Program.Runtime.{Runtime, Store, Account, update}

-- What the five accounts, the store and the rent have to be.
pub record Ready (rt : Runtime) (program_id : Bytes) (accs : Accounts) (header : StagingHeader)
    (body : Bytes) (st : Store) : Type 0 where
  pub given : AreGiven program_id accs st
  pub staged : read_staging_account (st accs.staging.address).contents ≡ ok (header, body)
  pub authorized : header.authority ≡ accs.authority.address
  pub laid_out : IsLaidOut (key_of body header.num_public_inputs)
  pub validated : check_points rt.syscalls (key_of body header.num_public_inputs) ≡ ok tt
  pub blank :
      IsBlank program_id
        (rt.find_program_address (vk_seed_prefix ∷ rt.sha256 body ∷ []) program_id).0
        accs.key
        st
  pub apart : accs.key.address ≢ accs.authority.address
  pub required : ℕ
  pub rent : rt.try_minimum_balance (key_account_len header.num_public_inputs) ≡ ok required
  pub small : required < 2 ^ 64
  pub pays :
      (st accs.key.address).lamports < required
      → CanPay accs.payer (required - (st accs.key.address).lamports) st
  pub collects : (st accs.authority.address).lamports + (st accs.staging.address).lamports < 2 ^ 64

module _ (rt : Runtime) (cpi : Cpi rt) (program_id : Bytes) (grants : Grants rt program_id)
    (accs : Accounts) (header : StagingHeader) (body : Bytes) (st : Store) where
  abbrev bump : ℕ
  bump = (rt.find_program_address (vk_seed_prefix ∷ rt.sha256 body ∷ []) program_id).1

  abbrev n : ℕ
  n = header.num_public_inputs

  staging-ne-key : Ready rt program_id accs header body st → accs.staging.address ≢ accs.key.address
  staging-ne-key r e = r.blank.fresh (rw (← e) r.given.staging_owned)

  -- The key account is made and filled, and no other account has more lamports than before.
  made_and_filled :
      Ready rt program_id accs header body st
      → (st₁ : Store) × (st₂ : Store) × (create_key_account rt accs.payer.address accs.key.address
            program_id
            (rt.sha256 body)
            bump
            (key_account_len n)
            st
          ≡ ok st₁)
        × (fill_key rt accs.staging accs.key bump n body st₁ ≡ ok st₂)
        × ((a : Bytes) → accs.key.address ≢ a → (st₂ a).lamports ≤ (st a).lamports)
  made_and_filled r =
      let (st₁, make, less) =
        creates rt cpi program_id grants accs.payer accs.key (rt.sha256 body) r.required
          (key_account_len n) st r.given.payer_signs r.given.payer_writable r.given.key_writable
          r.blank r.small r.pays r.rent (omega (arith, r.laid_out.bounded)) in
      let (_, z, _) =
        create_key_account-eq-ok rt cpi accs.payer.address accs.key.address program_id
          (rt.sha256 body) bump (key_account_len n) st st₁ make in
      let size : length (st₁ accs.key.address).contents ≡ 8 + length body =
        ap (λ (b : Bytes). length b) z
        ∙ length-replicate (key_account_len n) 0
        ∙ omega (arith, r.laid_out.sized) in
      let filled : Account = record (st₁ accs.key.address) {
        contents = published rt program_id header body;
      } in
      (
        st₁,
        update st₁ accs.key.address filled,
        make,
        fill_key-fills rt accs.staging accs.key bump n body st₁ (staging-ne-key r) size,
        λ a other.
            let e : update st₁ accs.key.address filled a ≡ st₁ a =
              update_ne st₁ accs.key.address a filled other in
            rw e (less a other),
      )

  -- Where the five accounts are given as asked for, the staging account holds the authority's header and
  -- a laid-out body with valid points, the account at the derived address is blank, the payer has what
  -- that account lacks of the rent, if anything, and the lamports to collect fit in 64 bits, `Publish`
  -- succeeds: the key account is the program's and holds exactly the header and the body, the staging
  -- account is empty, and every other account keeps its owner and contents. The hypotheses are what the
  -- calls of the system program do and when they succeed.
  pub publish_runs :
      Ready rt program_id accs header body st
      → (st' : Store) × (process rt program_id (listed accs) [] st ≡ ok st')
        × Makes program_id accs.key.address accs.staging.address
            (published rt program_id header body)
            st
            st'
  unfolding exactly_five
  publish_runs r =
      let ne = staging-ne-key r in
      let (st₁, st₂, make, fill, less) = made_and_filled r in
      let fits : (st₂ accs.authority.address).lamports + (st₂ accs.staging.address).lamports
          < 2 ^ 64 =
        omega (
          arith,
          less accs.authority.address r.apart,
          less accs.staging.address (λ e. ne (sym e)),
          r.collects,
        ) in
      let (st', drain) =
        drain_and_close-drains rt accs.staging.address accs.authority.address st₂ fits
          grants.closes in
      (
        st',
        run_of rt program_id (listed accs) st accs header body (key_of body n) st₁ st₂ st' refl
            ((check_accounts_iff program_id accs st).1 r.given)
            ((authorized_staging_iff (st accs.staging.address).contents accs.authority header
                body).1
              (r.staged, r.authorized))
            ((from_body_with_len_iff body n (key_of body n)).1 (refl, refl, r.laid_out))
            ((check_target_iff program_id _ accs.key st).1 r.blank) r.validated make fill drain,
        writes_lem rt cpi accs.staging accs.key accs.authority.address program_id (rt.sha256 body)
            bump n body accs.payer.address st st₁ st₂ st' ne r.laid_out.sized make fill drain,
      )
