-- ===== src/Bench/Agreement.antt =====
-- What the benchmark's data and stages agree with.
use groth16_verifier_program.Groth16.Proof.{a_b, c, fixed}
use groth16_verifier_program.Program.Errors.{ProgramError, invalid_instruction_data}
use groth16_verifier_program.Groth16.Errors.{Groth16Error}
use groth16_verifier_program.Groth16.State.KeyAccount.{u16_from_le-to_le}
use groth16_verifier_program.Groth16.Proof.{Proof, a_b, fixed}
use groth16_verifier_program.Groth16.VerifyingKey.{
  VerifyingKey, checked, alpha_neg_beta, neg_gamma, neg_delta,
}
use groth16_verifier_program.Groth16.Syscall.{Syscalls}
use groth16_verifier_program.Groth16.Constants.{vk_body_len, proof_size, fr_size, g1_size}
use groth16_verifier_program.Common.{
  ℕ, Bytes, ◌≡◌, ◌<◌, set_index, length, ◌++◌, replicate, ok, take-append, ◌*◌, drop-append, arith,
  some, length-append, checked_sub, ◌∷◌, ◌+◌, u16_to_le, index, ◌/◌, refl, Result, Option, err,
  panic, slice, copy_at, Result-cases, inr, inl,
}
use groth16_verifier_program.Bench.{
  Input, split_at, parse, run_stage, instruction_data, minus, run_verify, run_pairing, flagged,
}
use groth16_verifier_program.Groth16.Verifier.{
  verify, assemble_pairing_input, prepare_inputs, write_pairing_input, check_pairing,
}

split_at_lem : (at : ℕ) (xs ys : Bytes) → at ≡ length xs → split_at at (xs ++ ys) ≡ ok (xs, ys)
unfolding split_at
split_at_lem at xs ys h =
    rw (take-append at xs ys h, drop-append at xs ys h) (ground (arith, h, length-append xs ys))

minus_lem : (a b d : ℕ) → a ≡ b + d → minus a b ≡ ok d
unfolding minus checked_sub
minus_lem a b d h = ground (arith, h)

module _ (n : ℕ) (vk_body proof public_inputs l : Bytes) (bounded : n < 65536)
    (body_sized : length vk_body ≡ vk_body_len n) (proof_sized : length proof ≡ proof_size)
    (inputs_sized : length public_inputs ≡ n * fr_size) (l_sized : length l ≡ g1_size) where
  -- The data that the host builds for a tag from parts of the right sizes is the tag and bytes from
  -- which the program parses exactly those parts and the n of the body.
  pub parse-instruction_data :
      (tag : ℕ)
      → (rest : Bytes) × (instruction_data tag vk_body proof public_inputs l ≡ ok (tag ∷ rest))
        × (parse rest
            ≡ ok (record {
              n = n;
              vk_body = vk_body;
              proof = proof;
              public_inputs = public_inputs;
              l = l;
            }))
  unfolding instruction_data parse u16_to_le index
  parse-instruction_data tag =
      let r₄ = public_inputs ++ l in
      let r₃ = proof ++ r₄ in
      let r₂ = vk_body ++ r₃ in
      let quotient : 64 * (n + 1) / 64 ≡ n + 1 = omega arith in
      (
        u16_to_le n ++ r₂,
        rw
            (
              minus_lem (length vk_body) 448 (64 * (n + 1)) (omega (arith, body_sized)),
              quotient,
              minus_lem (n + 1) 1 n (omega arith),
            )
            refl,
        rw
            (
              split_at_lem 2 (u16_to_le n) r₂ refl,
              u16_from_le-to_le n bounded,
              split_at_lem (vk_body_len n) vk_body r₃ (omega (arith, body_sized)),
              split_at_lem 256 proof r₄ (omega (arith, proof_sized)),
              split_at_lem (n * 32) public_inputs l (omega (arith, inputs_sized)),
              l_sized,
            )
            refl,
      )

-- What the full stage should return, by the answers of the two calls that it replaces: the flag of
-- `verify` in front of zeros, and an error where the inputs themselves are refused.
abbrev pub judged :
    Result Groth16Error Bytes → Result Groth16Error (Unit {0}) → Result ProgramError (Option Bytes)
judged (err e) verified = err invalid_instruction_data
judged panic verified = panic
judged (ok l) (ok accepted) = ok (some (1 ∷ replicate 63 0))
judged (ok l) (err e) = ok (some (0 ∷ replicate 63 0))
judged (ok l) panic = panic

-- Assembling gives no error.
assembled-ne-err :
    (vk : VerifyingKey checked) (proof : Proof) (l : Bytes) (e : Groth16Error)
    → ¬ (assemble_pairing_input vk proof l ≡ err e)
unfolding assemble_pairing_input write_pairing_input a_b c alpha_neg_beta neg_gamma neg_delta fixed
    slice copy_at
assembled-ne-err vk proof l e h = ground (arith, h)

-- The benchmark's full stage, on every key, proof and input and whatever the syscalls answer, returns
-- what `judged` makes of `prepare_inputs` and of the verifier's `verify` on the same data: 64 zeros
-- with a 1 in front where `verify` accepts, 64 zeros where the inputs are prepared and `verify` does not
-- accept, `InvalidInstructionData` where `prepare_inputs` gives an error, and a panic only where one of
-- the two panics.
pub run_stage-verify :
    (sys : Syscalls) (vk : VerifyingKey checked) (proof : Proof) (input : Input)
    → run_stage sys vk proof 4 input
      ≡ judged (prepare_inputs sys vk input.public_inputs) (verify sys vk proof input.public_inputs)
unfolding run_stage run_verify run_pairing flagged verify set_index replicate
run_stage-verify sys vk proof input =
    elim (Result-cases (prepare_inputs sys vk input.public_inputs)) [
      | inr (inl (e, bad)) ↦ rw bad refl
      | inr (inr bad) ↦ rw bad refl
      | inl (l, prepared) ↦ elim (Result-cases (assemble_pairing_input vk proof l)) [
        | inr (inl (e, bad)) ↦ absurd (assembled-ne-err vk proof l e bad)
        | inr (inr bad) ↦ rw (prepared, bad) refl
        | inl (buf, assembled) ↦ elim (Result-cases (check_pairing sys buf)) [
          | inl (_, accepted) ↦ rw (prepared, assembled, accepted) refl
          | inr (inl (e, refused)) ↦ rw (prepared, assembled, refused) refl
          | inr (inr bad) ↦ rw (prepared, assembled, bad) refl
        ]
      ]
    ]
