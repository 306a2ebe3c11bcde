-- ===== src/Program/Session/Serves.antt =====
-- The whole way: initialise, upload, publish, and verify.
use groth16_verifier_program.Groth16.Validation.Accepted.{check_points_iff}
use groth16_verifier_program.Groth16.VerifyingKey.{assume_validated}
use groth16_verifier_program.Groth16.Verifier.Verdict.{verdict}
use groth16_verifier_program.Groth16.Constants.{proof_size, vk_seed_prefix}
use groth16_verifier_program.Groth16.Proof.{Proof}
use groth16_verifier_program.Groth16.Validation.Points.{Validated}
use groth16_verifier_program.Groth16.Curve.{Bn254, Implements}
use groth16_verifier_program.Program.Session.Sent.{
  initialize_staging-sent, execute-append, publish-sent, verify-sent,
}
use groth16_verifier_program.Program.Processor.Publish.Succeeds.{publish_runs}
use groth16_verifier_program.Program.Session.Registers.{
  first, blank_body, first-Holds, length-blank_body, since-Holds, uploaded-Ready, initializes,
  parties,
}
use groth16_verifier_program.Program.Processor.Publish.Effect.{Makes, published}
use groth16_verifier_program.Program.Errors.{ProgramError, map_groth16}
use groth16_verifier_program.Groth16.State.KeyAccount.{key_of}
use groth16_verifier_program.Groth16.Validation.{check_points}
use groth16_verifier_program.Groth16.State.{StagingHeader}
use groth16_verifier_program.Program.Processor.Publish.Ready.{Grants}
use groth16_verifier_program.Program.Processor.Publish.Calls.{Cpi, Same}
use mathlib.Core.List.{flatten}
use groth16_verifier_program.Common.{
  ◌>>=◌, Bytes, ℕ, ◌≡◌, ok, ◌<◌, List, ◌∷◌, ◌++◌, [], subst, ◌∙◌, sym, refl, length, All, IsByte,
  map_err, ap, Result,
}
use groth16_verifier_program.Program.Runtime.{Runtime, Store, Account}
use groth16_verifier_program.Program.Processor.Verify.Effect.{process_lem}
use groth16_verifier_program.Program.Upload.{execute}
use groth16_verifier_program.Program.Upload.Body.{write_body_uploads}
use groth16_verifier_program.Program.Session.{CanStart, read_only}
use groth16_verifier_program.Groth16.Instruction.{
  Instruction, initialize_staging, publish, verify, write_body,
}

module _ (rt : Runtime) (cpi : Cpi rt) (program_id : Bytes) (grants : Grants rt program_id)
    (authority payer staging key : Bytes) (n : ℕ) (body : Bytes) (chunk : ℕ) (st : Store)
    (start : CanStart rt program_id authority payer staging key n body st) where
  abbrev header : StagingHeader
  header = record { num_public_inputs = n; authority = authority }

  -- All of the registration, on a body that the validation accepts.
  pub registers :
      check_points rt.syscalls (key_of body n) ≡ ok tt
      → 0 < chunk
      → (pieces : List Instruction) × (st' : Store) × (write_body {E = ProgramError} program_id
            authority staging body chunk
          ≡ ok pieces)
        × (execute rt program_id
              (initialize_staging program_id authority staging n
                ∷ (pieces ++ (publish program_id authority payer staging key ∷ [])))
              st
            ≡ ok st')
        × Makes program_id key staging (published rt program_id header body) st st'
  registers valid pos =
      let st₁ = first rt program_id authority payer staging key n body st start in
      let (pieces, st₂, built, run, holds) =
        write_body_uploads rt program_id authority staging header refl start.sized
          start.laid_out.bounded start.distinct st₁
          (blank_body rt program_id authority payer staging key n body st start) body chunk pos
          (first-Holds rt program_id authority payer staging key n body st start)
          (length-blank_body rt program_id authority payer staging key n body st start)
          start.laid_out.sized in
      let since = since-Holds rt program_id authority payer staging key n body st start st₂ holds in
      let (st', done, made) =
        publish_runs rt cpi program_id grants
          (parties rt program_id authority payer staging key n body st start) header body st₂
          (uploaded-Ready rt program_id authority payer staging key n body st start valid st₂
            since) in
      let begin =
        initialize_staging-sent rt program_id authority staging n st
        ∙ initializes rt program_id authority payer staging key n body st start in
      let rest =
        execute-append rt program_id pieces (publish program_id authority payer staging key ∷ [])
          st₁
        ∙ rw run (publish-sent rt program_id authority payer staging key st₂ ∙ done) in
      (
        pieces,
        st',
        built,
        execute-append rt program_id (initialize_staging program_id authority staging n ∷ [])
              (pieces ++ (publish program_id authority payer staging key ∷ [])) st
            ∙ rw begin rest,
        record {
          key_owned = made.key_owned;
          key_written = made.key_written;
          staging_closed = made.staging_closed;
          others = λ a nk ns.
              subst (λ (x : Account). Same (st' a) x) (since.others a (λ e. ns (sym e)))
                (made.others a nk ns);
        },
      )

  module _ (bn : Bn254) (imp : Implements rt.syscalls bn)
      (valid : Validated rt.syscalls bn imp (key_of body n) start.laid_out) where
    -- A client that has a zeroed staging account, a laid-out body whose elements are proper points and
    -- the rent, and sends the instructions that the builders make, gets its key served: initialising,
    -- all pieces of the body, of any size but zero, and publishing run to their end; then the key
    -- account holds the header and the body, the staging account is empty and all other accounts have
    -- their owners and contents; and the builder's verification of a proof of 256 bytes and any inputs
    -- against that account answers the verdict on the key's points, its errors mapped, and changes
    -- nothing. The hypotheses are what the calls of the system program do and when they succeed, and
    -- that the syscalls implement the groups.
    pub session_verifies :
        0 < chunk
        → (proof : Proof) (public_inputs : List Bytes) → length proof.bytes ≡ proof_size
        → All IsByte (flatten public_inputs)
        → (pieces : List Instruction) × (st' : Store) × (write_body {E = ProgramError} program_id
              authority staging body chunk
            ≡ ok pieces)
          × (execute rt program_id
                (initialize_staging program_id authority staging n
                  ∷ (pieces ++ (publish program_id authority payer staging key ∷ [])))
                st
              ≡ ok st')
          × Makes program_id key staging (published rt program_id header body) st st'
          × (execute rt program_id (verify program_id key proof.bytes public_inputs ∷ []) st' ≡ (
              map_err map_groth16 (
                verdict bn
                  (assume_validated (key_of body n))
                  valid.points
                  proof.bytes
                  (flatten public_inputs))
              >>= λ _. ok st'))
    session_verifies pos proof public_inputs size bytes =
        let points = (check_points_iff rt.syscalls bn imp (key_of body n) start.laid_out).1 valid in
        let (pieces, st', built, run, made) = registers points pos in
        let bump = (rt.find_program_address (vk_seed_prefix ∷ rt.sha256 body ∷ []) program_id).1 in
        let answer =
          process_lem rt bn imp program_id (read_only key) st'
            (record { bump = bump; num_public_inputs = n }) body proof (flatten public_inputs)
            valid.points made.key_owned made.key_written start.laid_out.bounded start.laid_out.sized
            size bytes in
        (
          pieces,
          st',
          built,
          run,
          made,
          verify-sent rt program_id key proof.bytes public_inputs st'
              ∙ ap (λ (m : Result ProgramError (Unit {0})). m >>= λ _. ok st') answer,
        )
