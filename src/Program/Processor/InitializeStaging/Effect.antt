-- ===== src/Program/Processor/InitializeStaging/Effect.antt =====
-- What `InitializeStaging` asks for, and what it does.
use groth16_verifier_program.Program.Processor.Checks.{staging_pair}
use groth16_verifier_program.Program.Errors.{ProgramError}
use groth16_verifier_program.Groth16.State.{
  write_staging_header, discriminator_offset, discriminator_uninitialized,
}
use groth16_verifier_program.Program.Processor.Checks.Pair.{IsPair, staging_pair_iff}
use groth16_verifier_program.Groth16.Constants.{
  staging_header_len, staging_account_len, max_public_inputs,
}
use groth16_verifier_program.Groth16.State.StagingAccount.{staging_header, write_staging_header_lem}
use groth16_verifier_program.Common.{
  Bytes, ℕ, List, ◌++◌, All, drop, ◌≡◌, ◌∷◌, length, [], index, ok, ◌≤◌, >>=-eq-ok, get_elem?,
  arith, some, subst, ◌↔◌, u16_from_le, ◌+◌, ◌*◌, refl,
}
use groth16_verifier_program.Program.Runtime.{Account, View, Store, update}
use groth16_verifier_program.Program.Processor.InitializeStaging.{process, payload_n}

-- The staging account as it is after the header was written.
abbrev pub initialized : Account → Bytes → ℕ → Account
initialized acc authority n = record acc {
  contents =
      staging_header (record { num_public_inputs = n; authority = authority })
      ++ drop staging_header_len acc.contents;
}

-- The two bytes of n, the low one first.
abbrev pub IsSent : Bytes → ℕ → Type 0
IsSent payload n = (lo : ℕ) × (hi : ℕ) × (payload ≡ lo ∷ hi ∷ []) × (n ≡ lo + 256 * hi)

payload_n_iff : (payload : Bytes) (n : ℕ) → (payload_n payload ≡ ok n) ↔ IsSent payload n
unfolding payload_n u16_from_le
payload_n_iff [] n = (λ h. cc h, λ (lo, hi, h, _). cc h)
payload_n_iff (x ∷ []) n = (λ h. cc h, λ (lo, hi, h, _). cc h)
payload_n_iff (x ∷ y ∷ []) n = (λ h. (x, y, refl, cc h), λ (lo, hi, h, e). cc (h, e))
payload_n_iff (x ∷ y ∷ z ∷ r) n = (λ h. cc h, λ (lo, hi, h, _). cc h)

-- An `InitializeStaging` that goes through: a checked pair of accounts, a payload that encodes an n of
-- at most 151, a staging account of the length for n whose first byte is 0, and the new store.
pub record Initializes (program_id : Bytes) (accounts : List View) (payload : Bytes)
    (st st' : Store) : Type 0 where
  pub authority : View
  pub staging : View
  pub n : ℕ
  pub given : accounts ≡ authority ∷ staging ∷ []
  pub pair : IsPair program_id authority staging st
  pub sent : IsSent payload n
  pub bounded : n ≤ max_public_inputs
  pub sized : length (st staging.address).contents ≡ staging_account_len n
  pub blank :
      get_elem? (st staging.address).contents discriminator_offset
      ≡ some discriminator_uninitialized
  pub result :
      st' ≡ update st staging.address (initialized (st staging.address) authority.address n)

module _ (program_id : Bytes) (accounts : List View) (payload : Bytes) (st st' : Store)
    (addresses : All (λ (v : View). length v.address ≡ 32) accounts) where
  header_written :
      (authority staging : View) (n : ℕ)
      → length authority.address ≡ 32
      → length (st staging.address).contents ≡ staging_account_len n
      → write_staging_header {E = ProgramError}
          (st staging.address).contents
          (record { num_public_inputs = n; authority = authority.address })
        ≡ ok (initialized (st staging.address) authority.address n).contents
  header_written authority staging n a l =
      write_staging_header_lem (st staging.address).contents
        (record { num_public_inputs = n; authority = authority.address }) (omega arith) a

  checked :
      (authority staging : View) (n : ℕ)
      → length authority.address ≡ 32
      → staging_pair st accounts program_id ≡ ok (authority, staging)
      → payload_n payload ≡ ok n
      → process program_id accounts payload st ≡ ok st'
      → (n ≤ max_public_inputs)
        × (length (st staging.address).contents ≡ staging_account_len n)
        × (get_elem? (st staging.address).contents 0 ≡ some 0)
        × (st' ≡ update st staging.address (initialized (st staging.address) authority.address n))
  unfolding process index
  checked authority staging n a pair sent e = ground (arith, header_written authority staging n a)

  sound :
      process program_id accounts payload st ≡ ok st'
      → Initializes program_id accounts payload st st'
  unfolding process
  sound e =
      let ((authority, staging), pair, e₁) = >>=-eq-ok (staging_pair st accounts program_id) _ e in
      let (n, sent, e₂) = >>=-eq-ok (payload_n payload) _ e₁ in
      let (given, is_pair) = (staging_pair_iff st accounts program_id authority staging).0 pair in
      let a : length authority.address ≡ 32 =
        (subst (λ (vs : List View). All (λ (v : View). length v.address ≡ 32) vs) given
          addresses).0 in
      let (b, s, d, r) = checked authority staging n a pair sent e in
      record {
        authority = authority;
        staging = staging;
        n = n;
        given = given;
        pair = is_pair;
        sent = (payload_n_iff payload n).0 sent;
        bounded = b;
        sized = s;
        blank = d;
        result = r;
      }

  complete :
      Initializes program_id accounts payload st st'
      → process program_id accounts payload st ≡ ok st'
  unfolding process index
  complete i =
      let pair =
        (staging_pair_iff st accounts program_id i.authority i.staging).1 (i.given, i.pair) in
      let a : length i.authority.address ≡ 32 =
        (subst (λ (vs : List View). All (λ (v : View). length v.address ≡ 32) vs) i.given
          addresses).0 in
      ground (
        arith,
        pair,
        (payload_n_iff payload i.n).1 i.sent,
        i.bounded,
        i.sized,
        i.blank,
        i.result,
        header_written i.authority i.staging i.n a,
      )

  -- `InitializeStaging` succeeds exactly in the situation that `Initializes` describes, on any
  -- accounts with addresses of 32 bytes and any payload.
  pub initialize_iff :
      (process program_id accounts payload st ≡ ok st')
      ↔ Initializes program_id accounts payload st st'
  initialize_iff = (sound, complete)
