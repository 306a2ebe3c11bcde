-- ===== src/Program/Session.antt =====
-- The client's instructions of groth16-verify/src/instruction.rs, run by the program of program/src: a
-- key's whole way from a zeroed staging account to a published key that proofs are verified against.
pub mod Sent
pub mod Registers
pub mod Serves
use groth16_verifier_program.Program.Processor.Publish.Ready.{CanPay}
use groth16_verifier_program.Groth16.Instruction.{new}
use groth16_verifier_program.Program.Upload.{viewed}
use groth16_verifier_program.Program.Processor.Publish.Guards.{IsBlank}
use groth16_verifier_program.Groth16.Constants.{
  staging_account_len, vk_seed_prefix, key_account_len,
}
use groth16_verifier_program.Groth16.State.KeyAccount.{key_of}
use groth16_verifier_program.Groth16.VerifyingKey.Layout.{IsLaidOut}
use groth16_verifier_program.Common.{
  Bytes, ℕ, length, ◌≡◌, ◌≢◌, replicate, ◌∷◌, [], false, ok, ◌<◌, ◌^◌, true, ◌-◌, ◌+◌,
}
use groth16_verifier_program.Program.Runtime.{Runtime, View, Store, Account, update}

abbrev pub signer_only : Bytes → View
signer_only a = record { address = a; is_signer = true; is_writable = false }

abbrev pub signer_writable : Bytes → View
signer_writable a = record { address = a; is_signer = true; is_writable = true }

abbrev pub writable_only : Bytes → View
writable_only a = record { address = a; is_signer = false; is_writable = true }

abbrev pub read_only : Bytes → View
read_only a = record { address = a; is_signer = false; is_writable = false }

-- What a client needs before it starts: a zeroed staging account of the program, a body of the length for
-- its n, a blank account at the address that is derived from the body's hash, and the rent.
pub record CanStart (rt : Runtime) (program_id authority payer staging key : Bytes) (n : ℕ)
    (body : Bytes) (st : Store) : Type 0 where
  pub sized : length authority ≡ 32
  pub staging_sized : length staging ≡ 32
  pub laid_out : IsLaidOut (key_of body n)
  pub distinct : authority ≢ staging
  pub apart : key ≢ authority
  pub owned : (st staging).owner ≡ program_id
  pub zeroed : (st staging).contents ≡ replicate (staging_account_len n) 0
  pub blank :
      IsBlank program_id
        (rt.find_program_address (vk_seed_prefix ∷ rt.sha256 body ∷ []) program_id).0
        (writable_only key)
        st
  pub required : ℕ
  pub rent : rt.try_minimum_balance (key_account_len n) ≡ ok required
  pub small : required < 2 ^ 64
  pub pays :
      (st key).lamports < required
      → CanPay (signer_writable payer) (required - (st key).lamports) st
  pub collects : (st authority).lamports + (st staging).lamports < 2 ^ 64
