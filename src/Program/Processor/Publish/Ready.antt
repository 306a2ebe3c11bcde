-- ===== src/Program/Processor/Publish/Ready.antt =====
-- When `Publish` goes through: what the instruction has to bring, and what the runtime's calls have to grant.
use groth16_verifier_program.Program.Processor.Checks.Pair.{update_self, update_ne}
use groth16_verifier_program.Program.Processor.Checks.{authorized_staging, drain_and_close}
use groth16_verifier_program.Groth16.VerifyingKey.{VerifyingKey, unchecked, from_body_with_len}
use groth16_verifier_program.Groth16.State.{StagingHeader}
use groth16_verifier_program.Program.Processor.Publish.Guards.{IsBlank}
use groth16_verifier_program.Groth16.Constants.{system_program_id, vk_seed_prefix, key_account_len}
use groth16_verifier_program.Groth16.Validation.{validate_for_publish, check_points}
use groth16_verifier_program.Program.Processor.Publish.{
  process, Accounts, exactly_five, check_accounts, create_key_account, top_up, check_target,
  fill_key,
}
use groth16_verifier_program.Program.Processor.Publish.Calls.{Cpi, top_up-Same}
use groth16_verifier_program.Common.{
  ℕ, Bytes, ◌≡◌, List, true, [], ◌≤◌, ◌+◌, ◌∷◌, ◌<◌, ◌^◌, ◌-◌, ok, ◌≢◌, length, Bool-cases, ◌∙◌,
  ltb, ap, inl, replicate, arith, inr, refl,
}
use groth16_verifier_program.Program.Runtime.{Runtime, View, Store, Account, update}

-- The calls of the system program and of the runtime succeed where they are documented to: a transfer
-- from a signer that is a bare account of the system program and has the lamports, an allocation of at
-- most 10240 bytes and an assignment for a bare account of the system program at an address that is
-- derived from the signer seeds, and the closing of an account without lamports.
pub record Grants (rt : Runtime) (program_id : Bytes) : Type 0 where
  pub transfers :
      (payer key : View) (amount : ℕ) (st : Store)
      → payer.is_signer ≡ true
      → payer.is_writable ≡ true
      → key.is_writable ≡ true
      → (st payer.address).owner ≡ system_program_id
      → (st payer.address).contents ≡ []
      → amount ≤ (st payer.address).lamports
      → (st key.address).lamports + amount < 2 ^ 64
      → (st' : Store) × (rt.transfer payer.address key.address amount st ≡ ok st')
        × ((a : Bytes) → key.address ≢ a → (st' a).lamports ≤ (st a).lamports)
  pub allocates :
      (key : View) (prefix hash : Bytes) (space : ℕ) (st : Store)
      → key.is_writable ≡ true
      → key.address ≡ (rt.find_program_address (prefix ∷ hash ∷ []) program_id).0
      → (st key.address).owner ≡ system_program_id
      → length (st key.address).contents ≡ 0
      → space ≤ 10240
      → (st' : Store) × (rt.allocate key.address space
            (prefix
              ∷ hash
              ∷ ((rt.find_program_address (prefix ∷ hash ∷ []) program_id).1 ∷ [])
              ∷ [])
            st
          ≡ ok st')
  pub assigns :
      (key : View) (prefix hash owner : Bytes) (st : Store)
      → key.is_writable ≡ true
      → key.address ≡ (rt.find_program_address (prefix ∷ hash ∷ []) program_id).0
      → (st key.address).owner ≡ system_program_id
      → (st' : Store) × (rt.assign key.address owner
            (prefix
              ∷ hash
              ∷ ((rt.find_program_address (prefix ∷ hash ∷ []) program_id).1 ∷ [])
              ∷ [])
            st
          ≡ ok st')
  pub closes : (acc : Account) → acc.lamports ≡ 0 → (acc' : Account) × (rt.close acc ≡ ok acc')

-- The payer of the rent: a bare account of the system program with enough lamports.
pub record CanPay (payer : View) (amount : ℕ) (st : Store) : Type 0 where
  pub owned : (st payer.address).owner ≡ system_program_id
  pub bare : (st payer.address).contents ≡ []
  pub rich : amount ≤ (st payer.address).lamports

module _ (rt : Runtime) (cpi : Cpi rt) (program_id : Bytes) (grants : Grants rt program_id)
    (payer key : View) (hash : Bytes) (required space : ℕ) (st : Store)
    (signs : payer.is_signer ≡ true) (payer_w : payer.is_writable ≡ true)
    (key_w : key.is_writable ≡ true)
    (blank : IsBlank program_id
      (rt.find_program_address (vk_seed_prefix ∷ hash ∷ []) program_id).0
      key
      st)
    (small : required < 2 ^ 64)
    (pays : (st key.address).lamports < required
      → CanPay payer (required - (st key.address).lamports) st) where
  abbrev Poorer : Store → Type 0
  Poorer st' = (a : Bytes) → key.address ≢ a → (st' a).lamports ≤ (st a).lamports

  tops_up :
      (st₁ : Store) × (top_up rt payer.address key.address (required - (st key.address).lamports) st
        ≡ ok st₁)
      × Poorer st₁
  unfolding top_up
  tops_up =
      let shortfall = required - (st key.address).lamports in
      elim (Bool-cases (ltb 0 shortfall)) [
        | inl short ↦
            let can = pays (ground (arith, short)) in
            let (st₁, t, less) =
              grants.transfers payer key shortfall st signs payer_w key_w can.owned can.bare
                can.rich (ground (arith, short, small)) in
            (st₁, rw short t, less)
        | inr enough ↦ (st, rw enough refl, λ a _. omega arith)
      ]

  -- The account is made, also at an address that had lamports before.
  pub creates :
      rt.try_minimum_balance space ≡ ok required
      → space ≤ 10240
      → (st₁ : Store) × (create_key_account rt payer.address key.address program_id hash
            (rt.find_program_address (vk_seed_prefix ∷ hash ∷ []) program_id).1
            space
            st
          ≡ ok st₁)
        × Poorer st₁
  unfolding create_key_account
  creates rent fits =
      let (st₁, t, less) = tops_up in
      let same = top_up-Same rt cpi payer.address key.address _ st st₁ t in
      let owned : (st₁ key.address).owner ≡ system_program_id =
        (same key.address).0 ∙ blank.system_owned in
      let bare : length (st₁ key.address).contents ≡ 0 =
        ap (λ (b : Bytes). length b) (same key.address).1 ∙ blank.no_contents in
      let (st₂, l) =
        grants.allocates key vk_seed_prefix hash space st₁ key_w blank.derived owned bare fits in
      let zeroed : Account = record (st₁ key.address) { contents = replicate space 0 } in
      let e₂ : st₂ ≡ update st₁ key.address zeroed = cpi.allocates _ _ _ _ _ l in
      let owned₂ : (st₂ key.address).owner ≡ system_program_id =
        ap (λ (s : Store). (s key.address).owner) e₂
        ∙ ap (λ (x : Account). x.owner) (update_self st₁ key.address zeroed)
        ∙ owned in
      let (st₃, g) =
        grants.assigns key vk_seed_prefix hash program_id st₂ key_w blank.derived owned₂ in
      let assigned : Account = record (st₂ key.address) { owner = program_id } in
      let e₃ : st₃ ≡ update st₂ key.address assigned = cpi.assigns _ _ _ _ _ g in
      (
        st₃,
        rw (rent, t, l, g) refl,
        λ a ne.
            let e : st₃ a ≡ st₁ a =
              ap (λ (s : Store). s a) e₃
              ∙ update_ne st₂ key.address a assigned ne
              ∙ ap (λ (s : Store). s a) e₂
              ∙ update_ne st₁ key.address a zeroed ne in
            rw e (less a ne),
      )

-- A run from its parts.
pub run_of :
    (rt : Runtime) (program_id : Bytes) (accounts : List View) (st : Store) (accs : Accounts)
    (header : StagingHeader) (body : Bytes) (vk : VerifyingKey unchecked) (st₁ st₂ st' : Store)
    → exactly_five accounts ≡ ok accs
    → check_accounts program_id accs st ≡ ok tt
    → authorized_staging (st accs.staging.address).contents accs.authority ≡ ok (header, body)
    → from_body_with_len body header.num_public_inputs ≡ ok vk
    → check_target program_id
        (rt.find_program_address (vk_seed_prefix ∷ rt.sha256 body ∷ []) program_id).0
        accs.key
        st
      ≡ ok tt
    → check_points rt.syscalls vk ≡ ok tt
    → create_key_account rt accs.payer.address accs.key.address program_id
        (rt.sha256 body)
        (rt.find_program_address (vk_seed_prefix ∷ rt.sha256 body ∷ []) program_id).1
        (key_account_len header.num_public_inputs)
        st
      ≡ ok st₁
    → fill_key rt accs.staging accs.key
        (rt.find_program_address (vk_seed_prefix ∷ rt.sha256 body ∷ []) program_id).1
        header.num_public_inputs
        body
        st₁
      ≡ ok st₂
    → drain_and_close rt accs.staging.address accs.authority.address st₂ ≡ ok st'
    → process rt program_id accounts [] st ≡ ok st'
unfolding process validate_for_publish
run_of rt program_id accounts st accs header body vk st₁ st₂ st' a b c d e f g h i =
    rw (a, b, c, d, e, f, g, h, i)
