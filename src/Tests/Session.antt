-- ===== src/Tests/Session.antt =====
-- A key with one public input, from the zeroed staging account to its first verification.
use groth16_verifier_program.Program.Registry.Once.{published_once}
use groth16_verifier_program.Groth16.State.StagingAccount.{read_staging_account-header}
use groth16_verifier_program.Program.Registry.{IsKey, none_left}
use groth16_verifier_program.Groth16.State.{read_staging_account}
use groth16_verifier_program.Program.Processor.Publish.{create_key_account, top_up}
use groth16_verifier_program.Program.Session.Serves.{session_verifies}
use groth16_verifier_program.Groth16.VerifyingKey.{assume_validated}
use groth16_verifier_program.Groth16.Verifier.Verdict.{verdict}
use groth16_verifier_program.Groth16.Validation.Accepted.{check_points_iff}
use groth16_verifier_program.Program.Errors.{ProgramError, map_groth16, into, Groth16ProgramError}
use groth16_verifier_program.Program.Processor.Publish.Ready.{CanPay}
use groth16_verifier_program.Tests.Parity.{parity_syscalls, parity, parity_syscalls-Implements}
use groth16_verifier_program.Tests.Examples.{stored₁}
use groth16_verifier_program.Groth16.Constants.{system_program_id}
use groth16_verifier_program.Program.Session.{CanStart, writable_only, signer_writable}
use groth16_verifier_program.Groth16.Validation.Points.{Validated}
use groth16_verifier_program.Program.Processor.Publish.Effect.{Makes, published}
use groth16_verifier_program.Program.Processor.Checks.Pair.{authorized_staging_iff, update_self}
use groth16_verifier_program.Program.Processor.Publish.Guards.{
  listed, check_accounts_iff, check_target_iff, IsBlank, AreGiven,
}
use groth16_verifier_program.Groth16.State.KeyAccount.{key_of}
use groth16_verifier_program.Tests.Verifier.{body₁, inputs₁, proof₁, proof₁-size}
use groth16_verifier_program.Tests.Cluster.{cluster, address, cluster-Cpi, cluster-Grants}
use groth16_verifier_program.Program.Processor.Publish.Succeeds.{Ready, publish_runs}
use mathlib.Core.List.{flatten}
use groth16_verifier_program.Common.{
  ◌>>=◌, replicate, bytes_eq, take, arith, [], ◌≡◌, refl, ok, bytes_eq_ne, List, ◌+◌, Bytes, ◌∷◌,
  ◌++◌, map_err, All, IsByte, err,
}
use groth16_verifier_program.Program.Runtime.{Store, update}
use groth16_verifier_program.Program.Processor.Publish
use groth16_verifier_program.Program.Upload.{execute}
use groth16_verifier_program.Groth16.Instruction.{
  Instruction, initialize_staging, publish, verify, write_body,
}
use groth16_verifier_program.Tests.Registry.{
  before, accounts₁, header₁, program, key_address, valid₁, wallet, signer, writable, checks₁,
  auth₃, target₁, published_store, staged₁,
}

-- The key account has more lamports than the rent.
rich_key : (before key_address).lamports ≡ 1000
unfolding update bytes_eq replicate take
rich_key = refl

few_lamports : (before (address 1)).lamports + (before (address 3)).lamports ≡ 1050
unfolding update bytes_eq replicate take
few_lamports = refl

prefunded : Ready cluster program accounts₁ header₁ body₁ before
unfolding bytes_eq replicate take
prefunded = record {
  given = (check_accounts_iff program accounts₁ before).0 checks₁;
  staged =
      ((authorized_staging_iff (before (address 3)).contents (signer 1) header₁ body₁).0 auth₃).0;
  authorized = refl;
  laid_out = stored₁;
  validated = valid₁;
  blank = (check_target_iff program key_address (writable key_address) before).0 target₁;
  apart = bytes_eq_ne key_address (address 1) refl;
  required = 712;
  rent = refl;
  small = omega arith;
  pays = λ short. absurd (omega (arith, short, rich_key));
  collects = omega (arith, few_lamports);
}

publish_runs_example :
    (st' : Store) × (Publish.process cluster program (listed accounts₁) [] before ≡ ok st')
    × Makes program key_address (address 3) (published cluster program header₁ body₁) before st'
publish_runs_example =
    publish_runs cluster cluster-Cpi program (cluster-Grants program) accounts₁ header₁ body₁ before
      prefunded

-- The key account has some lamports, which the payer tops up, and the staging account is zeroed.
abbrev start_store : Store
start_store = update before key_address (record wallet { lamports = 5 })

key-IsBlank : IsBlank program key_address (writable_only key_address) start_store
unfolding update bytes_eq replicate take system_program_id
key-IsBlank = record {
  derived = refl;
  fresh = bytes_eq_ne (replicate 32 0) program refl;
  system_owned = refl;
  no_contents = refl;
}

can_pay : CanPay (signer_writable (address 2)) 707 start_store
unfolding update bytes_eq replicate take system_program_id
can_pay = record { owned = refl; bare = refl; rich = omega arith }

key_lamports : (start_store key_address).lamports ≡ 5
unfolding update bytes_eq replicate take
key_lamports = refl

collected : (start_store (address 1)).lamports + (start_store (address 4)).lamports ≡ 1050
unfolding update bytes_eq replicate take
collected = refl

can_start :
    CanStart cluster program (address 1) (address 2) (address 4) key_address 1 body₁ start_store
unfolding update bytes_eq replicate take
can_start = record {
  sized = refl;
  staging_sized = refl;
  laid_out = stored₁;
  distinct = bytes_eq_ne (address 1) (address 4) refl;
  apart = bytes_eq_ne key_address (address 1) refl;
  owned = refl;
  zeroed = refl;
  blank = key-IsBlank;
  required = 712;
  rent = refl;
  small = omega arith;
  pays = λ _. rw key_lamports can_pay;
  collects = omega (arith, collected);
}

-- The key's points are those of the layout that the session starts with.
valid_start :
    Validated parity_syscalls parity parity_syscalls-Implements (key_of body₁ 1) can_start.laid_out
valid_start =
    (check_points_iff parity_syscalls parity parity_syscalls-Implements (key_of body₁ 1)
        can_start.laid_out).0
      valid₁

-- The scalar that `inputs₁` is made of.
abbrev scalars₁ : List Bytes
scalars₁ = inputs₁ ∷ []

scalars₁-IsByte : All IsByte (flatten scalars₁)
unfolding replicate flatten
scalars₁-IsByte = ground arith

session_verifies_example :
    (pieces : List Instruction) × (st' : Store) × (write_body {E = ProgramError} program
        (address 1)
        (address 4)
        body₁
        100
      ≡ ok pieces)
    × (execute cluster program
          (initialize_staging program (address 1) (address 4) 1
            ∷ (pieces ++ (publish program (address 1) (address 2) (address 4) key_address ∷ [])))
          start_store
        ≡ ok st')
    × Makes program key_address
        (address 4)
        (published cluster program (record { num_public_inputs = 1; authority = address 1 }) body₁)
        start_store
        st'
    × (execute cluster program (verify program key_address proof₁.bytes scalars₁ ∷ []) st' ≡ (
        map_err map_groth16 (
          verdict parity
            (assume_validated (key_of body₁ 1))
            valid_start.points
            proof₁.bytes
            (flatten scalars₁))
        >>= λ _. ok st'))
session_verifies_example =
    session_verifies cluster cluster-Cpi program (cluster-Grants program) (address 1) (address 2)
      (address 4) key_address 1 body₁ 100 start_store can_start parity parity_syscalls-Implements
      valid_start (omega arith) proof₁ scalars₁ proof₁-size scalars₁-IsByte

-- The same body is staged again after it was published.
abbrev staged_again : Store
staged_again = update published_store (address 3) staged₁

still-IsKey : IsKey program (staged_again key_address)
unfolding update bytes_eq replicate take create_key_account top_up
still-IsKey = (refl, refl)

given_again : AreGiven program accounts₁ staged_again
unfolding update bytes_eq replicate take system_program_id
given_again = record {
  authority_signs = refl;
  authority_writable = refl;
  payer_signs = refl;
  payer_writable = refl;
  staging_writable = refl;
  key_writable = refl;
  staging_owned = refl;
  distinct = bytes_eq_ne (address 1) (address 3) refl;
  system_named = refl;
}

read_again : read_staging_account (staged_again (address 3)).contents ≡ ok (header₁, body₁)
unfolding replicate
read_again =
    rw (update_self published_store (address 3) staged₁)
      (read_staging_account-header header₁ body₁ (omega arith) refl refl)

published_once_example :
    Publish.process cluster program (listed accounts₁) [] staged_again
    ≡ err (into Groth16ProgramError.key_already_published)
unfolding replicate take
published_once_example =
    published_once cluster cluster-Cpi program staged_again staged_again accounts₁ header₁ body₁
      still-IsKey (none_left staged_again) given_again read_again refl refl
