-- ===== src/Tests/Stages.antt =====
-- The benchmark's data and full stage, on the key with one public input.
use groth16_verifier_program.Groth16.Verifier.{prepare_inputs, verify}
use groth16_verifier_program.Tests.Parity.{parity_syscalls}
use groth16_verifier_program.Common.{
  replicate, Bytes, ◌≡◌, ok, ◌∷◌, some, arith, refl, ◌∙◌, >>=-eq-ok,
}
use groth16_verifier_program.Bench.{parse, instruction_data, run_stage, Input}
use groth16_verifier_program.Bench.Agreement.{parse-instruction_data, run_stage-verify, judged}
use groth16_verifier_program.Tests.Verifier.{
  body₁, gen₁, proof₁, inputs₁, key₁, proof₁-size, accepted,
}

parse-instruction_data_example :
    (rest : Bytes) × (instruction_data 4 body₁ proof₁.bytes inputs₁ gen₁ ≡ ok (4 ∷ rest))
    × (parse rest
        ≡ ok (record {
          n = 1;
          vk_body = body₁;
          proof = proof₁.bytes;
          public_inputs = inputs₁;
          l = gen₁;
        }))
unfolding replicate
parse-instruction_data_example =
    parse-instruction_data 1 body₁ proof₁.bytes inputs₁ gen₁ (omega arith) refl proof₁-size refl
      refl 4

abbrev input₁ : Input
input₁ = record { n = 1; vk_body = body₁; proof = proof₁.bytes; public_inputs = inputs₁; l = gen₁ }

run_stage-verify_example :
    run_stage parity_syscalls key₁ proof₁ 4 input₁
    ≡ judged
        (prepare_inputs parity_syscalls key₁ inputs₁)
        (verify parity_syscalls key₁ proof₁ inputs₁)
run_stage-verify_example = run_stage-verify parity_syscalls key₁ proof₁ input₁

prepared₁ : (l : Bytes) × (prepare_inputs parity_syscalls key₁ inputs₁ ≡ ok l)
unfolding verify
prepared₁ =
    let (l, prepared, _) = >>=-eq-ok (prepare_inputs parity_syscalls key₁ inputs₁) _ accepted in
    (l, prepared)

-- The verifier accepts here, so the flag is 1.
accepted_flag : run_stage parity_syscalls key₁ proof₁ 4 input₁ ≡ ok (some (1 ∷ replicate 63 0))
accepted_flag =
    let (_, prepared) = prepared₁ in
    run_stage-verify parity_syscalls key₁ proof₁ input₁ ∙ rw (prepared, accepted) refl
