-- ===== src/Program/Registry.antt =====
-- The registry that the instructions of program/src keep: what a published key is, and the steps that
-- a store of accounts makes.
pub mod Effects
pub mod Invariant
pub mod Answer
pub mod Once
use groth16_verifier_program.Program.Processor.Publish.Calls.{Same}
use groth16_verifier_program.Groth16.Constants.{vk_seed_prefix}
use groth16_verifier_program.Groth16.Validation.{check_points}
use groth16_verifier_program.Program.Processor.Dispatch.{process_instruction}
use groth16_verifier_program.Groth16.VerifyingKey.Layout.{IsLaidOut}
use groth16_verifier_program.Groth16.State.{discriminator_offset, discriminator_key}
use groth16_verifier_program.Groth16.State.KeyAccount.{key_header, key_of}
use groth16_verifier_program.Program.Runtime.{Runtime, Account, Store, View}
use groth16_verifier_program.Common.{
  Bytes, ◌≡◌, List, ℕ, get_elem?, All, ◌++◌, some, length, ok, ◌≢◌, ◌∷◌, [],
}

-- A program-owned account that `Verify` takes for a key.
abbrev pub IsKey : Bytes → Account → Type 0
IsKey program_id acc =
    (acc.owner ≡ program_id)
    × (get_elem? acc.contents discriminator_offset ≡ some discriminator_key)

-- A complete key: a header and a laid-out body with valid points, at the address that is derived from
-- the body's hash.
pub record IsPublished (rt : Runtime) (program_id address : Bytes) (acc : Account) : Type 0 where
  pub body : Bytes
  pub n : ℕ
  pub bump : ℕ
  pub holds : acc.contents ≡ key_header (record { bump = bump; num_public_inputs = n }) ++ body
  pub laid_out : IsLaidOut (key_of body n)
  pub validated : check_points rt.syscalls (key_of body n) ≡ ok tt
  pub derived :
      (address, bump) ≡ rt.find_program_address (vk_seed_prefix ∷ rt.sha256 body ∷ []) program_id

-- The registry's invariant: every key is complete.
abbrev pub IsRegistry : Runtime → Bytes → Store → Type 0
IsRegistry rt program_id st =
    (a : Bytes) → IsKey program_id (st a) → IsPublished rt program_id a (st a)

-- What happens to the accounts: an instruction of the program that succeeds (one that fails is
-- undone), or anything else in the cluster. Nothing but the program changes an account of the program,
-- and an account that becomes the program's without it is not marked as a key, since an account is
-- zeroed when it is given to another owner.
pub data Step (rt : Runtime) (program_id : Bytes) : Store → Store → Type 0 where
  instruction :
      (accounts : List View) (input : Bytes) (st st' : Store)
      → All (λ (v : View). length v.address ≡ 32) accounts
      → process_instruction rt program_id accounts input st ≡ ok st'
      → Step rt program_id st st'
  elsewhere :
      (st st' : Store)
      → ((a : Bytes) → (st a).owner ≡ program_id → Same (st' a) (st a))
      → ((a : Bytes) → (st a).owner ≢ program_id → ¬ IsKey program_id (st' a))
      → Step rt program_id st st'

-- Any number of steps.
pub data Steps (rt : Runtime) (program_id : Bytes) : Store → Store → Type 0 where
  none_left : (st : Store) → Steps rt program_id st st
  next :
      (st st₁ st₂ : Store)
      → Step rt program_id st st₁
      → Steps rt program_id st₁ st₂
      → Steps rt program_id st st₂
