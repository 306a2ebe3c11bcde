-- ===== src/Program/Session/Registers.antt =====
-- From the zeroed staging account to the published key.
use groth16_verifier_program.Groth16.State.StagingAccount.{read_staging_account-header}
use groth16_verifier_program.Program.Processor.Publish.Succeeds.{Ready}
use groth16_verifier_program.Groth16.State.KeyAccount.{key_of}
use groth16_verifier_program.Groth16.Constants.{
  staging_header_len, vk_body_len, system_program_id, staging_account_len,
}
use groth16_verifier_program.Groth16.Validation.{check_points}
use groth16_verifier_program.Groth16.State.{StagingHeader}
use groth16_verifier_program.Program.Processor.Checks.Pair.{update_self, update_ne}
use groth16_verifier_program.Program.Processor.Publish.{Accounts}
use groth16_verifier_program.Common.{
  replicate, Bytes, ℕ, drop, ◌∙◌, ◌≡◌, u16_to_le, length, ◌≢◌, ap, sym, refl, arith, ◌∷◌, ok,
  length-drop, [], length-replicate, ◌%◌, ◌/◌, ◌<◌, get_elem?, some, suc, zero,
}
use groth16_verifier_program.Program.Runtime.{Runtime, Store, Account, update}
use groth16_verifier_program.Program.Processor.InitializeStaging
use groth16_verifier_program.Program.Processor.InitializeStaging.Effect.{
  initialized, initialize_iff,
}
use groth16_verifier_program.Program.Upload.{Holds}
use groth16_verifier_program.Program.Session.{
  CanStart, signer_only, signer_writable, writable_only, read_only,
}

first_zero : (k : ℕ) → 0 < k → get_elem? (replicate {A = ℕ} k 0) 0 ≡ some 0
unfolding replicate
first_zero zero h = absurd (omega (arith, h))
first_zero (suc k) h = refl

module _ (rt : Runtime) (program_id authority payer staging key : Bytes) (n : ℕ) (body : Bytes)
    (st : Store) (start : CanStart rt program_id authority payer staging key n body st) where
  abbrev pub staged : StagingHeader
  staged = record { num_public_inputs = n; authority = authority }

  abbrev pub first : Store
  first = update st staging (initialized (st staging) authority n)

  abbrev pub blank_body : Bytes
  blank_body = drop staging_header_len (st staging).contents

  pub initializes :
      InitializeStaging.process program_id
        (signer_only authority ∷ writable_only staging ∷ [])
        (u16_to_le n)
        st
      ≡ ok first
  unfolding u16_to_le replicate
  initializes =
      (initialize_iff program_id (signer_only authority ∷ writable_only staging ∷ []) (u16_to_le n)
          st first (start.sized, (start.staging_sized, tt))).1
        (record {
          authority = signer_only authority;
          staging = writable_only staging;
          n = n;
          given = refl;
          pair = record {
            signed = refl;
            writable = refl;
            owned = start.owned;
            distinct = start.distinct;
          };
          sent = (n % 256, n / 256 % 256, refl, omega (arith, start.laid_out.bounded));
          bounded = start.laid_out.bounded;
          sized =
              ap (λ (b : Bytes). length b) start.zeroed
              ∙ length-replicate {A = ℕ} (staging_account_len n) 0;
          blank = rw start.zeroed (first_zero (staging_account_len n) (omega arith));
          result = refl;
        })

  pub first-Holds : Holds program_id staging staged first first blank_body
  first-Holds =
      let self = update_self st staging (initialized (st staging) authority n) in
      record {
        owned = ap (λ (x : Account). x.owner) self ∙ start.owned;
        lamports = refl;
        contents = ap (λ (x : Account). x.contents) self;
        others = λ a _. refl;
      }

  -- What the pieces leave, seen from the start.
  pub since-Holds :
      (st₂ : Store)
      → Holds program_id staging staged first st₂ body
      → Holds program_id staging staged st st₂ body
  since-Holds st₂ h =
      let acc = initialized (st staging) authority n in
      record {
        owned = h.owned;
        lamports = h.lamports ∙ ap (λ (x : Account). x.lamports) (update_self st staging acc);
        contents = h.contents;
        others = λ a other. h.others a other ∙ update_ne st staging a acc (λ e. other (sym e));
      }

  pub length-blank_body : length blank_body ≡ vk_body_len n
  length-blank_body = omega (
    arith,
    length-drop 40 (st staging).contents,
    ap (λ (b : Bytes). length b) start.zeroed,
    length-replicate {A = ℕ} (staging_account_len n) 0,
  )

  abbrev pub parties : Accounts
  parties = record {
    authority = signer_writable authority;
    payer = signer_writable payer;
    staging = writable_only staging;
    key = writable_only key;
    system = read_only system_program_id;
  }

  key-ne-staging : key ≢ staging
  key-ne-staging e = start.blank.fresh (rw e start.owned)

  -- The payer, where it has to pay, is not the staging account.
  payer-ne-staging :
      (st staging).owner ≡ program_id → (st payer).owner ≡ system_program_id → payer ≢ staging
  payer-ne-staging owned bare e =
      start.blank.fresh (start.blank.system_owned ∙ sym bare ∙ rw e owned)

  -- With the body uploaded, everything is there that `Publish` asks for.
  pub uploaded-Ready :
      check_points rt.syscalls (key_of body n) ≡ ok tt
      → (st₂ : Store) → Holds program_id staging staged st st₂ body
      → Ready rt program_id parties staged body st₂
  uploaded-Ready valid st₂ h =
      let k : st₂ key ≡ st key = h.others key key-ne-staging in
      let a : st₂ authority ≡ st authority = h.others authority start.distinct in
      let kl : (st₂ key).lamports ≡ (st key).lamports = ap (λ (x : Account). x.lamports) k in
      record {
        given = record {
          authority_signs = refl;
          authority_writable = refl;
          payer_signs = refl;
          payer_writable = refl;
          staging_writable = refl;
          key_writable = refl;
          staging_owned = h.owned;
          distinct = start.distinct;
          system_named = refl;
        };
        staged = rw h.contents (
            read_staging_account-header staged body start.laid_out.bounded start.sized
              start.laid_out.sized);
        authorized = refl;
        laid_out = start.laid_out;
        validated = valid;
        blank = record {
          derived = start.blank.derived;
          fresh = rw k start.blank.fresh;
          system_owned = rw k start.blank.system_owned;
          no_contents = rw k start.blank.no_contents;
        };
        apart = start.apart;
        required = start.required;
        rent = start.rent;
        small = start.small;
        pays = λ short.
            let can = start.pays (omega (arith, kl, short)) in
            let p : st₂ payer ≡ st payer =
              h.others payer (payer-ne-staging start.owned can.owned) in
            record { owned = rw p can.owned; bare = rw p can.bare; rich = rw (k, p) can.rich };
        collects = omega (arith, ap (λ (x : Account). x.lamports) a, h.lamports, start.collects);
      }
