-- ===== src/Program/Registry/Once.antt =====
-- A key is published once.
use groth16_verifier_program.Groth16.State.KeyAccount.{key_of}
use groth16_verifier_program.Groth16.VerifyingKey.Layout.{from_body_with_len_iff}
use groth16_verifier_program.Program.Processor.Checks.Pair.{authorized_staging_iff}
use groth16_verifier_program.Groth16.State.StagingAccount.{read_staging_account-eq-ok}
use groth16_verifier_program.Program.Errors.{into, Groth16ProgramError}
use groth16_verifier_program.Groth16.Constants.{vk_seed_prefix, vk_body_len}
use groth16_verifier_program.Program.Processor.Publish.Guards.{AreGiven, listed, check_accounts_iff}
use groth16_verifier_program.Program.Processor.Publish.Calls.{Cpi}
use groth16_verifier_program.Common.{
  Bytes, ◌≡◌, err, ok, ◌∷◌, arith, [], bytes_eq_iff, length, ap, length-drop, ◌∙◌, refl,
}
use groth16_verifier_program.Program.Runtime.{Runtime, View, Store}
use groth16_verifier_program.Program.Registry.{Steps, IsKey}
use groth16_verifier_program.Program.Registry.Invariant.{key_immutable}
use groth16_verifier_program.Program.Processor.Checks.{owned_by}
use groth16_verifier_program.Program.Processor.Publish
use groth16_verifier_program.Program.Processor.Publish.{
  exactly_five, check_accounts, check_target, Accounts,
}
use groth16_verifier_program.Groth16.State.{StagingHeader, read_staging_account}

occupied :
    (program_id expected : Bytes) (key : View) (st : Store)
    → key.address ≡ expected
    → (st key.address).owner ≡ program_id
    → check_target program_id expected key st ≡ err (into Groth16ProgramError.key_already_published)
unfolding check_target owned_by
occupied program_id expected key st e o = ground (
  arith,
  e,
  o,
  (bytes_eq_iff key.address expected).1 e,
  (bytes_eq_iff (st key.address).owner program_id).1 o,
)

-- Once an account is the program's and marked as a key, whatever steps follow, a `Publish` to it fails
-- with `KeyAlreadyPublished`, for every staged body from whose hash its address is derived and all
-- accounts as asked for, whatever the syscalls would answer on the body's points. The hypotheses are
-- what the system program's calls do.
pub published_once :
    (rt : Runtime)
    → Cpi rt
    → (program_id : Bytes) (st st' : Store) (accs : Accounts) (header : StagingHeader)
      (body : Bytes)
    → IsKey program_id (st accs.key.address)
    → Steps rt program_id st st'
    → AreGiven program_id accs st'
    → read_staging_account (st' accs.staging.address).contents ≡ ok (header, body)
    → header.authority ≡ accs.authority.address
    → accs.key.address
      ≡ (rt.find_program_address (vk_seed_prefix ∷ rt.sha256 body ∷ []) program_id).0
    → Publish.process rt program_id (listed accs) [] st'
      ≡ err (into Groth16ProgramError.key_already_published)
unfolding Publish.process exactly_five
published_once rt cpi program_id st st' accs header body is_key steps given staged own derived =
    let (same, _) = key_immutable rt cpi program_id accs.key.address st st' steps is_key in
    let n = header.num_public_inputs in
    let (_, few, l, b, _) = read_staging_account-eq-ok (st' accs.staging.address).contents staged in
    let sized : length body ≡ vk_body_len n = omega (
      arith,
      l,
      ap (λ (x : Bytes). length x) b,
      length-drop 40 (st' accs.staging.address).contents,
    ) in
    rw
      (
        (check_accounts_iff program_id accs st').1 given,
        (authorized_staging_iff (st' accs.staging.address).contents accs.authority header body).1
            (staged, own),
        (from_body_with_len_iff body n (key_of body n)).1
            (refl, refl, record { bounded = few; sized = sized }),
        occupied program_id _ accs.key st' derived (same ∙ is_key.0),
      )
      refl
