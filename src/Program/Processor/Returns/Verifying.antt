-- ===== src/Program/Processor/Returns/Verifying.antt =====
-- `Verify` returns.
use groth16_verifier_program.Groth16.VerifyingKey.Layout.{IsLaidOut}
use groth16_verifier_program.Groth16.Proof.Views.{split_from_iff}
use groth16_verifier_program.Groth16.State.KeyAccount.{read_key_account-eq-ok}
use groth16_verifier_program.Groth16.VerifyingKey.{assume_validated, VerifyingKey, unchecked}
use groth16_verifier_program.Groth16.Constants.{proof_size}
use groth16_verifier_program.Groth16.Proof.{split_from, from_bytes, Proof}
use groth16_verifier_program.Groth16.State.Returns.{read_key_account-Returns}
use groth16_verifier_program.Groth16.State.{read_key_account}
use groth16_verifier_program.Program.Errors.{map_groth16, invalid_account_owner}
use groth16_verifier_program.Common.{
  Bytes, List, Returns, ensure-Returns, then-Returns, ◌∷◌, length, map_err, Returns-of, arith, [],
  map_err-Returns, ◌≡◌, Yields-Returns, map_err-eq-ok,
}
use groth16_verifier_program.Program.Runtime.{Runtime, View, Store}
use groth16_verifier_program.Groth16.Verifier.{verify}
use groth16_verifier_program.Groth16.Verifier.Returns as Verifier
use groth16_verifier_program.Program.Processor.Verify
use groth16_verifier_program.Program.Processor.Verify.{exactly_one}
use groth16_verifier_program.Program.Processor.Checks.{expect_owned_by, owned_by}
use groth16_verifier_program.Program.Processor.Returns.{CallsReturn}

exactly_one-Returns : (accounts : List View) → Returns (exactly_one accounts)
unfolding exactly_one
exactly_one-Returns [] = tt
exactly_one-Returns (a ∷ []) = tt
exactly_one-Returns (a ∷ b ∷ r) = tt

split_from-Returns : (bytes : Bytes) → Returns (split_from bytes)
unfolding split_from from_bytes
split_from-Returns bytes = Returns-of (split_from bytes) (λ e. ground (arith, e))

verified :
    (rt : Runtime)
    → CallsReturn rt
    → (vk : VerifyingKey unchecked) (proof : Proof) (inputs : Bytes) → IsLaidOut vk
    → length proof.bytes ≡ proof_size
    → Returns (map_err map_groth16 (verify rt.syscalls (assume_validated vk) proof inputs))
unfolding assume_validated
verified rt calls vk proof inputs laid size =
    let key = assume_validated vk in
    let laid' : IsLaidOut key = record { bounded = laid.bounded; sized = laid.sized } in
    map_err-Returns map_groth16 (verify rt.syscalls key proof inputs) (
      Yields-Returns (λ _. Unit {0}) (verify rt.syscalls key proof inputs)
        (Verifier.verify-Returns rt.syscalls calls.outputs key laid' proof inputs size))

pub verify-Returns :
    (rt : Runtime)
    → CallsReturn rt
    → (program_id : Bytes) (accounts : List View) (payload : Bytes) (st : Store)
    → Returns (Verify.process rt program_id accounts payload st)
unfolding Verify.process expect_owned_by
verify-Returns rt calls program_id accounts payload st =
    then-Returns (exactly_one accounts) _ (exactly_one-Returns accounts) (λ key _.
      let contents = (st key.address).contents in
      ensure-Returns (owned_by st key program_id) invalid_account_owner _ (λ _.
        then-Returns (map_err map_groth16 (read_key_account contents)) _
          (map_err-Returns map_groth16 (read_key_account contents)
            (read_key_account-Returns contents))
          (λ (h, vk) read.
            then-Returns (map_err map_groth16 (split_from payload)) _
              (map_err-Returns map_groth16 (split_from payload) (split_from-Returns payload))
              (λ (proof, inputs) split.
                let (_, _, laid, _, _, _) =
                  read_key_account-eq-ok contents
                    (map_err-eq-ok map_groth16 (read_key_account contents) read) in
                let (size, _) =
                  (split_from_iff payload proof inputs).0
                    (map_err-eq-ok map_groth16 (split_from payload) split) in
                verified rt calls vk proof inputs laid size))))
