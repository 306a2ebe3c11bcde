-- ===== src/Program/Session/Sent.antt =====
-- What the program makes of each instruction that a builder of groth16-verify/src/instruction.rs makes.
use groth16_verifier_program.Program.Session.{
  signer_only, signer_writable, read_only, writable_only,
}
use groth16_verifier_program.Program.Errors.{ProgramError}
use groth16_verifier_program.Groth16.Constants.{system_program_id}
use groth16_verifier_program.Groth16.Tag.{Tag, as_u8, from_u8-as_u8}
use groth16_verifier_program.Program.Upload.{execute, views}
use mathlib.Core.List.{flatten}
use groth16_verifier_program.Program.Runtime.{Runtime, Store}
use groth16_verifier_program.Program.Processor.Dispatch.{process_instruction, process_tag}
use groth16_verifier_program.Program.Processor.InitializeStaging
use groth16_verifier_program.Program.Processor.Publish
use groth16_verifier_program.Program.Processor.Verify
use groth16_verifier_program.Program.Processor.CloseStaging
use groth16_verifier_program.Groth16.Instruction.{
  Instruction, initialize_staging, publish, verify, close_staging,
}
use groth16_verifier_program.Common.{
  ◌>>=◌, Bytes, ℕ, List, ◌++◌, ◌∷◌, ◌≡◌, [], u16_to_le, ◌∙◌, ok, ap, Result-cases, refl, inl,
  Result, inr, >>=_assoc,
}

module _ (rt : Runtime) (program_id : Bytes) where
  -- Instructions one after the other.
  pub execute-append :
      (xs ys : List Instruction) (st : Store)
      → execute rt program_id (xs ++ ys) st
        ≡ (execute rt program_id xs st >>= execute rt program_id ys)
  execute-append [] ys st = refl
  execute-append (x ∷ xs) ys st =
      let first = process_instruction rt program_id (views x.accounts) x.payload st in
      ap (λ (f : Store → Result ProgramError Store). first >>= f) (λ i s. execute-append xs ys s i)
      ∙ >>=_assoc first (execute rt program_id xs) (execute rt program_id ys)

  pub execute_one :
      (x : Instruction) (st : Store)
      → execute rt program_id (x ∷ []) st
        ≡ process_instruction rt program_id (views x.accounts) x.payload st
  execute_one x st =
      elim (Result-cases (process_instruction rt program_id (views x.accounts) x.payload st)) [
        | inl (s, e) ↦ rw e refl
        | inr (inl (e, h)) ↦ rw h refl
        | inr (inr h) ↦ rw h refl
      ]

  -- The tag that a builder puts in front takes the instruction to its processor.
  pub dispatched :
      (x : Instruction) (t : Tag) (payload : Bytes) (st : Store)
      → x.payload ≡ as_u8 t ∷ payload
      → execute rt program_id (x ∷ []) st
        ≡ process_tag rt program_id (views x.accounts) t payload st
  unfolding process_instruction
  dispatched x t payload st e = execute_one x st ∙ rw e (rw (from_u8-as_u8 t) refl)

  pub initialize_staging-sent :
      (authority staging : Bytes) (n : ℕ) (st : Store)
      → execute rt program_id (initialize_staging program_id authority staging n ∷ []) st
        ≡ InitializeStaging.process program_id
            (signer_only authority ∷ writable_only staging ∷ [])
            (u16_to_le n)
            st
  unfolding initialize_staging process_tag
  initialize_staging-sent authority staging n st =
      dispatched (initialize_staging program_id authority staging n) Tag.initialize_staging
        (u16_to_le n) st refl

  pub publish-sent :
      (authority payer staging key : Bytes) (st : Store)
      → execute rt program_id (publish program_id authority payer staging key ∷ []) st
        ≡ Publish.process rt program_id
            (signer_writable authority
              ∷ signer_writable payer
              ∷ writable_only staging
              ∷ writable_only key
              ∷ read_only system_program_id
              ∷ [])
            []
            st
  unfolding publish process_tag
  publish-sent authority payer staging key st =
      dispatched (publish program_id authority payer staging key) Tag.publish [] st refl

  pub verify-sent :
      (key proof : Bytes) (public_inputs : List Bytes) (st : Store)
      → execute rt program_id (verify program_id key proof public_inputs ∷ []) st ≡ (
          Verify.process rt program_id (read_only key ∷ []) (proof ++ flatten public_inputs) st
          >>= λ _. ok st)
  unfolding verify process_tag
  verify-sent key proof public_inputs st =
      dispatched (verify program_id key proof public_inputs) Tag.verify
        (proof ++ flatten public_inputs) st refl

  pub close_staging-sent :
      (authority staging : Bytes) (st : Store)
      → execute rt program_id (close_staging program_id authority staging ∷ []) st
        ≡ CloseStaging.process rt program_id
            (signer_writable authority ∷ writable_only staging ∷ [])
            []
            st
  unfolding close_staging process_tag
  close_staging-sent authority staging st =
      dispatched (close_staging program_id authority staging) Tag.close_staging [] st refl
