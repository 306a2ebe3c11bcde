-- ===== src/Program/Registry/Answer.antt =====
-- What `Verify` answers on a published key.
use groth16_verifier_program.Groth16.VerifyingKey.Layout.{IsLaidOut}
use groth16_verifier_program.Groth16.State.{KeyHeader}
use groth16_verifier_program.Program.Errors.{map_groth16}
use groth16_verifier_program.Groth16.State.KeyAccount.{key_of, key_header}
use groth16_verifier_program.Groth16.VerifyingKey.{assume_validated}
use groth16_verifier_program.Groth16.Verifier.Verdict.{KeyPoints, verdict}
use groth16_verifier_program.Groth16.Constants.{proof_size, vk_seed_prefix}
use groth16_verifier_program.Groth16.Proof.{Proof}
use groth16_verifier_program.Program.Registry.{IsRegistry, IsKey}
use groth16_verifier_program.Common.{Bytes, length, ◌≡◌, All, IsByte, ◌∷◌, [], ◌++◌, map_err}
use groth16_verifier_program.Groth16.Curve.{Bn254, Implements}
use groth16_verifier_program.Program.Runtime.{Runtime, Store, View}
use groth16_verifier_program.Program.Processor.Verify.{process}
use groth16_verifier_program.Program.Processor.Verify.Effect.{process_lem}
use groth16_verifier_program.Groth16.Validation.Points.{check_points-eq-ok}

-- In a store that satisfies the registry's invariant, every account that is marked as a key holds exactly
-- a header and a body, where the body has the length for the header's n, at most 151, and the account's
-- address and the header's bump are those derived from the hash of the body. `Verify` on that account
-- answers, for a proof of 256 bytes and any bytes as public inputs, with the verdict for this body and
-- this n on the points that the elements of the body encode, its errors mapped to the program's. No
-- other hypothesis on the key is needed, since it was validated when it was published.
pub published_verify_lem :
    (rt : Runtime) (bn : Bn254)
    → Implements rt.syscalls bn
    → (program_id : Bytes) (st : Store) → IsRegistry rt program_id st
    → (key : View) → IsKey program_id (st key.address)
    → (proof : Proof) (public_inputs : Bytes) → length proof.bytes ≡ proof_size
    → All IsByte public_inputs
    → (h : KeyHeader) × (body : Bytes) × (kp : KeyPoints bn
        (assume_validated (key_of body h.num_public_inputs)))
      × ((st key.address).contents ≡ key_header h ++ body)
      × IsLaidOut (key_of body h.num_public_inputs)
      × ((key.address, h.bump)
          ≡ rt.find_program_address (vk_seed_prefix ∷ rt.sha256 body ∷ []) program_id)
      × (process rt program_id (key ∷ []) (proof.bytes ++ public_inputs) st
          ≡ map_err map_groth16 (
              verdict bn
                (assume_validated (key_of body h.num_public_inputs))
                kp
                proof.bytes
                public_inputs))
published_verify_lem rt bn imp program_id st inv key k proof public_inputs size bytes =
    let p = inv key.address k in
    let h : KeyHeader = record { bump = p.bump; num_public_inputs = p.n } in
    let v = check_points-eq-ok rt.syscalls bn imp (key_of p.body p.n) p.laid_out p.validated in
    (
      h,
      p.body,
      v.points,
      p.holds,
      p.laid_out,
      p.derived,
      process_lem rt bn imp program_id key st h p.body proof public_inputs v.points k.0 p.holds
          p.laid_out.bounded p.laid_out.sized size bytes,
    )
