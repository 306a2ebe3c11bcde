-- ===== src/Tests/Registry.antt =====
-- The registry on a staged key with one public input.
use groth16_verifier_program.Program.Processor.Publish.Ready.{run_of}
use groth16_verifier_program.Program.Processor.CloseStaging.Effect.{drained}
use groth16_verifier_program.Groth16.State.KeyAccount.{key_of, key_header}
use groth16_verifier_program.Tests.Parity.{parity_syscalls}
use groth16_verifier_program.Program.Processor.Checks.Pair.{authorized_staging_iff}
use groth16_verifier_program.Groth16.Curve.{verdict_bytes}
use groth16_verifier_program.Groth16.Syscall
use groth16_verifier_program.Groth16.Syscall.{pairing_validate_points, pairing_is_one, g1_add}
use groth16_verifier_program.Groth16.Scalar.{is_zero, or_words}
use groth16_verifier_program.Groth16.Proof.{fixed}
use groth16_verifier_program.Groth16.Validation.{check_points, key_pairing_input, add_pairs}
use groth16_verifier_program.Groth16.Constants.{system_program_id, key_account_len}
use groth16_verifier_program.Groth16.VerifyingKey.{
  from_body_with_len, alpha, ic, neg_beta, neg_gamma, neg_delta, alpha_neg_beta,
}
use groth16_verifier_program.Groth16.State.{
  read_staging_account, read_n, write_key_header, write_n, StagingHeader,
}
use groth16_verifier_program.Program.Processor.Publish.{
  exactly_five, check_accounts, check_target, create_key_account, top_up, fill_key, Accounts,
}
use groth16_verifier_program.Program.Errors.{ProgramError}
use groth16_verifier_program.Program.Processor.Checks.{
  staging_pair, exactly_two, expect_signer, expect_writable, expect_owned_by, owned_by,
  expect_distinct, authorized_staging, drain_and_close, try_borrow_mut,
}
use groth16_verifier_program.Groth16.State.StagingAccount.{
  staging_header, read_staging_account-header,
}
use groth16_verifier_program.Program.Runtime.{update, Account, Store, View}
use groth16_verifier_program.Common.{
  Bytes, Result, ℕ, List, replicate, [], take, ok, false, ◌++◌, true, ◌∷◌, err, index, slice,
  slice_from, u16_from_le, drop, checked_add, bytes_eq, ◌≡◌, refl, copy_at, set_index, u16_to_le,
  arith,
}
use groth16_verifier_program.Common.{panic}
use groth16_verifier_program.Program.Processor.Publish
use groth16_verifier_program.Program.Processor.CloseStaging
use groth16_verifier_program.Tests.Cluster.{address, cluster}
use groth16_verifier_program.Tests.Verifier.{body₁}

abbrev pub program : Bytes
program = address 9

abbrev pub signer : ℕ → View
signer n = record { address = address n; is_signer = true; is_writable = true }

abbrev pub writable : Bytes → View
writable a = record { address = a; is_signer = false; is_writable = true }

abbrev pub wallet : Account
wallet = record { owner = replicate 32 0; lamports = 1000; contents = [] }

-- The signer 1 has staged the key in the account 3, and the account 4 is not initialised.
abbrev pub staged₁ : Account
staged₁ = record {
  owner = program;
  lamports = 50;
  contents = staging_header (record { num_public_inputs = 1; authority = address 1 }) ++ body₁;
}

abbrev pub blank₁ : Account
blank₁ = record { owner = program; lamports = 50; contents = replicate 616 0 }

abbrev pub before : Store
before = update (update (λ a. wallet) (address 3) staged₁) (address 4) blank₁

abbrev pub key_address : Bytes
key_address = take 31 body₁ ++ (64 ∷ [])

-- The store that a run leaves, if it succeeds.
abbrev pub after : Result ProgramError Store → Store
after (ok st) = st
after (err e) = λ a. wallet
after panic = λ a. wallet

abbrev pub pair₃ : List View
pair₃ = signer 1 ∷ writable (address 3) ∷ []

abbrev pub pair₄ : List View
pair₄ = signer 1 ∷ writable (address 4) ∷ []

abbrev pub publishers : List View
publishers =
    signer 1
    ∷ signer 2
    ∷ writable (address 3)
    ∷ writable key_address
    ∷ writable (replicate 32 0)
    ∷ []

abbrev pub closed : Store
closed = after (CloseStaging.process cluster program pair₃ [] before)

pub closes : CloseStaging.process cluster program pair₃ [] before ≡ ok closed
unfolding CloseStaging.process update staging_pair exactly_two expect_signer expect_writable
    expect_owned_by owned_by expect_distinct authorized_staging read_staging_account index read_n
    slice slice_from u16_from_le take drop replicate drain_and_close checked_add bytes_eq
closes = refl

abbrev pub header₁ : StagingHeader
header₁ = record { num_public_inputs = 1; authority = address 1 }

abbrev pub accounts₁ : Accounts
accounts₁ = record {
  authority = signer 1;
  payer = signer 2;
  staging = writable (address 3);
  key = writable key_address;
  system = writable (replicate 32 0);
}

holds₃ : (before (address 3)).contents ≡ staging_header header₁ ++ body₁
unfolding update bytes_eq replicate
holds₃ = refl

pub auth₃ : authorized_staging (before (address 3)).contents (signer 1) ≡ ok (header₁, body₁)
unfolding replicate
auth₃ =
    (authorized_staging_iff (before (address 3)).contents (signer 1) header₁ body₁).1
      (rw holds₃ (read_staging_account-header header₁ body₁ (omega arith) refl refl), refl)

pub checks₁ : check_accounts program accounts₁ before ≡ ok tt
unfolding check_accounts expect_signer expect_writable expect_owned_by owned_by expect_distinct
    update bytes_eq replicate system_program_id take drop
checks₁ = refl

pub target₁ : check_target program key_address (writable key_address) before ≡ ok tt
unfolding check_target owned_by update bytes_eq replicate system_program_id take
target₁ = refl

pub valid₁ : check_points parity_syscalls (key_of body₁ 1) ≡ ok tt
unfolding check_points alpha ic neg_beta neg_gamma neg_delta fixed is_zero or_words
    key_pairing_input alpha_neg_beta copy_at pairing_validate_points pairing_is_one Syscall.group_op
    add_pairs g1_add take drop replicate verdict_bytes bytes_eq slice index
valid₁ = refl

abbrev pub made : Store
made = after (
    create_key_account cluster (address 2) key_address program key_address 254 (key_account_len 1)
      before)

makes :
    create_key_account cluster
      (address 2)
      key_address
      program
      key_address
      254
      (key_account_len 1)
      before
    ≡ ok made
unfolding create_key_account top_up update bytes_eq take replicate
makes = refl

abbrev pub filled : Store
filled = update made key_address (record (made key_address) {
  contents = key_header (record { bump = 254; num_public_inputs = 1 }) ++ body₁;
})

fills : fill_key cluster (writable (address 3)) (writable key_address) 254 1 body₁ made ≡ ok filled
unfolding fill_key try_borrow_mut create_key_account top_up update bytes_eq take drop replicate
    write_key_header set_index write_n u16_to_le copy_at
fills = refl

abbrev pub published_store : Store
published_store = drained filled (address 3) (address 1)

drains : drain_and_close cluster (address 3) (address 1) filled ≡ ok published_store
unfolding drain_and_close checked_add create_key_account top_up update bytes_eq take replicate
drains = refl

pub publishes : Publish.process cluster program publishers [] before ≡ ok published_store
unfolding exactly_five from_body_with_len replicate take
publishes =
    run_of cluster program publishers before accounts₁ header₁ body₁ (key_of body₁ 1) made filled
      published_store refl checks₁ auth₃ refl target₁ valid₁ makes fills drains
