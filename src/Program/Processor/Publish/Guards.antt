-- ===== src/Program/Processor/Publish/Guards.antt =====
-- The tests of publish.rs on the accounts and on the address, each as a condition.
use groth16_verifier_program.Common.{
  List, [], ◌∷◌, Bytes, ok, true, ◌≡◌, ◌≢◌, ◌↔◌, arith, length, bytes_eq_iff, ==_iff,
}
use groth16_verifier_program.Groth16.Constants.{system_program_id}
use groth16_verifier_program.Program.Runtime.{Store, View}
use groth16_verifier_program.Program.Processor.Checks.{
  expect_signer, owned_by, expect_writable, expect_owned_by, expect_distinct,
}
use groth16_verifier_program.Program.Processor.Publish.{
  exactly_five, check_accounts, check_target, Accounts,
}

abbrev pub listed : Accounts → List View
listed accs = accs.authority ∷ accs.payer ∷ accs.staging ∷ accs.key ∷ accs.system ∷ []

pub exactly_five-eq-ok :
    (accounts : List View) (accs : Accounts)
    → exactly_five accounts ≡ ok accs
    → accounts ≡ listed accs
unfolding exactly_five
exactly_five-eq-ok (a ∷ p ∷ s ∷ k ∷ y ∷ []) accs e = cc
exactly_five-eq-ok [] accs e = cc
exactly_five-eq-ok (a ∷ []) accs e = cc
exactly_five-eq-ok (a ∷ p ∷ []) accs e = cc
exactly_five-eq-ok (a ∷ p ∷ s ∷ []) accs e = cc
exactly_five-eq-ok (a ∷ p ∷ s ∷ k ∷ []) accs e = cc
exactly_five-eq-ok (a ∷ p ∷ s ∷ k ∷ y ∷ z ∷ r) accs e = cc

-- What the checks ask of the five accounts.
pub record AreGiven (program_id : Bytes) (accs : Accounts) (st : Store) : Type 0 where
  pub authority_signs : accs.authority.is_signer ≡ true
  pub authority_writable : accs.authority.is_writable ≡ true
  pub payer_signs : accs.payer.is_signer ≡ true
  pub payer_writable : accs.payer.is_writable ≡ true
  pub staging_writable : accs.staging.is_writable ≡ true
  pub key_writable : accs.key.is_writable ≡ true
  pub staging_owned : (st accs.staging.address).owner ≡ program_id
  pub distinct : accs.authority.address ≢ accs.staging.address
  pub system_named : accs.system.address ≡ system_program_id

pub check_accounts_iff :
    (program_id : Bytes) (accs : Accounts) (st : Store)
    → (check_accounts program_id accs st ≡ ok tt) ↔ AreGiven program_id accs st
unfolding check_accounts expect_signer expect_writable expect_owned_by owned_by expect_distinct
check_accounts_iff program_id accs st = (
  λ e. ground (
    arith,
    e,
    bytes_eq_iff (st accs.staging.address).owner program_id,
    bytes_eq_iff accs.authority.address accs.staging.address,
    bytes_eq_iff accs.system.address system_program_id,
  ),
  λ e. ground (
    arith,
    bytes_eq_iff (st accs.staging.address).owner program_id,
    bytes_eq_iff accs.authority.address accs.staging.address,
    bytes_eq_iff accs.system.address system_program_id,
  ),
)

-- The account for the key is the derived one, and blank.
pub record IsBlank (program_id expected : Bytes) (key : View) (st : Store) : Type 0 where
  pub derived : key.address ≡ expected
  pub fresh : (st key.address).owner ≢ program_id
  pub system_owned : (st key.address).owner ≡ system_program_id
  pub no_contents : length (st key.address).contents ≡ 0

pub check_target_iff :
    (program_id expected : Bytes) (key : View) (st : Store)
    → (check_target program_id expected key st ≡ ok tt) ↔ IsBlank program_id expected key st
unfolding check_target owned_by
check_target_iff program_id expected key st = (
  λ e. ground (
    arith,
    e,
    bytes_eq_iff key.address expected,
    bytes_eq_iff (st key.address).owner program_id,
    bytes_eq_iff (st key.address).owner system_program_id,
    ==_iff (length (st key.address).contents) 0,
  ),
  λ e. ground (
    arith,
    bytes_eq_iff key.address expected,
    bytes_eq_iff (st key.address).owner program_id,
    bytes_eq_iff (st key.address).owner system_program_id,
    ==_iff (length (st key.address).contents) 0,
  ),
)
