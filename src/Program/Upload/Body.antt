-- ===== src/Program/Upload/Body.antt =====
-- All pieces: what the instructions of `write_body` leave.
use groth16_verifier_program.Program.Upload.Step.{after}
use groth16_verifier_program.Program.Upload.Step.{after-Holds, step_at}
use groth16_verifier_program.Program.Upload.Pieces.{
  Starts, empty, chunks_count, pieces-Starts, offset_at,
}
use groth16_verifier_program.Program.Errors.{ProgramError}
use groth16_verifier_program.Groth16.Constants.{max_public_inputs, vk_body_len}
use groth16_verifier_program.Groth16.State.{StagingHeader}
use groth16_verifier_program.Program.Runtime.{Runtime, Store}
use mathlib.Core.List.{flatten}
use groth16_verifier_program.Common.{
  ◌>>=◌, Bytes, ◌≡◌, length, ◌≤◌, ◌≢◌, chunks, ℕ, ◌<◌, List, ◌++◌, ok, ◌+◌, ◌-◌, subst, ◌/◌, ◌∷◌,
  ◌∙◌, length-append, flatten-pieces, arith, [], drop, sym, ap, length-drop, ◌*◌, ◌==◌, ◌%◌, false,
  ◌^◌, refl, Result, append_assoc,
}
use groth16_verifier_program.Groth16.Instruction.{Instruction, write_body, write_pieces, write}
use groth16_verifier_program.Program.Upload.{Holds, execute}

module _ (rt : Runtime) (program_id authority staging : Bytes) (header : StagingHeader)
    (own : header.authority ≡ authority) (sized : length authority ≡ 32)
    (few : header.num_public_inputs ≤ max_public_inputs) (apart : authority ≢ staging) where
  run_pieces :
      (before st : Store) (chunk i : ℕ) (ps : List Bytes) (done tail : Bytes)
      → Holds program_id staging header before st (done ++ tail)
      → Starts chunk i (length done) ps
      → length tail ≡ length (flatten ps)
      → length (done ++ tail) ≡ vk_body_len header.num_public_inputs
      → (st' : Store) × (execute rt program_id
            (write_pieces program_id authority staging chunk i ps)
            st
          ≡ ok st')
        × Holds program_id staging header before st' (done ++ flatten ps)
  unfolding write_pieces write flatten
  run_pieces before st chunk i [] done tail holds starts l whole =
      let e : tail ≡ [] = empty tail l in
      (
        st,
        refl,
        subst (λ (t : Bytes). Holds program_id staging header before st (done ++ t)) e holds,
      )
  run_pieces before st chunk i (p ∷ ps) done tail holds starts l whole =
      let n : length tail ≡ length p + length (flatten ps) = l ∙ length-append p (flatten ps) in
      let fits : length p ≤ length tail = omega (arith, n) in
      let left = drop (length p) tail in
      let st₁ : Store =
        after rt program_id authority staging header own sized few apart before st done tail p holds
          fits whole in
      let k : length left ≡ length (flatten ps) = omega (arith, n, length-drop (length p) tail) in
      let off : i * chunk % 2 ^ 32 ≡ length done =
        offset_at (i * chunk) (length done) starts.0
          (omega (arith, whole, few, length-append done tail)) in
      let (st', run, end) =
        run_pieces before st₁ chunk (i + 1) ps (done ++ p) left
          (after-Holds rt program_id authority staging header own sized few apart before st done
            tail p holds fits whole)
          (subst (λ (at : ℕ). Starts chunk (i + 1) at ps) (sym (length-append done p)) starts.1) k
          (omega (
            arith,
            whole,
            n,
            k,
            length-append done tail,
            length-append (done ++ p) left,
            length-append done p,
          )) in
      (
        st',
        ap
              (λ (m : Result ProgramError Store).
                m
                >>= execute rt program_id
                    (write_pieces program_id authority staging chunk (i + 1) ps))
              (step_at rt program_id authority staging header own sized few apart before st done
                tail p holds fits whole (i * chunk % 2 ^ 32) off)
            ∙ run,
        subst (λ (b : Bytes). Holds program_id staging header before st' b)
            (append_assoc done p (flatten ps)) end,
      )

  -- On a staging account of the authority, whatever body it holds, the instructions of `write_body` run to
  -- their end, for every size of the pieces but zero, and then the account holds the given body behind the
  -- same header; no other account has changed.
  pub write_body_uploads :
      (before : Store) (old body : Bytes) (chunk : ℕ)
      → 0 < chunk
      → Holds program_id staging header before before old
      → length old ≡ vk_body_len header.num_public_inputs
      → length body ≡ vk_body_len header.num_public_inputs
      → (instructions : List Instruction) × (st' : Store) × (write_body {E = ProgramError}
            program_id authority staging body chunk
          ≡ ok instructions)
        × (execute rt program_id instructions before ≡ ok st')
        × Holds program_id staging header before st' body
  unfolding write_body chunks
  write_body_uploads before old body chunk pos holds l₀ l =
      let count = (length body + (chunk - 1)) / chunk in
      let (enough, last) = chunks_count (length body) chunk pos in
      let whole : flatten (chunks chunk body) ≡ body = flatten-pieces count chunk body enough in
      let (st', run, end) =
        run_pieces before before chunk 0 (chunks chunk body) [] old holds
          (subst (λ (at : ℕ). Starts chunk 0 at (chunks chunk body)) (omega arith)
            (pieces-Starts count chunk 0 body last))
          (l₀ ∙ sym l ∙ ap (λ (b : Bytes). length b) (sym whole)) l₀ in
      let z : (chunk == 0) ≡ false = ground (arith, pos) in
      (
        write_pieces program_id authority staging chunk 0 (chunks chunk body),
        st',
        rw z refl,
        run,
        subst (λ (b : Bytes). Holds program_id staging header before st' b) whole end,
      )
