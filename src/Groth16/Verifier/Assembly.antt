-- ===== src/Groth16/Verifier/Assembly.antt =====
-- The pairing input is the four pairs, end to end.
use groth16_verifier_program.Groth16.Proof.{c}
use groth16_verifier_program.Groth16.VerifyingKey.{alpha_neg_beta, neg_gamma, neg_delta}
use groth16_verifier_program.Common.{
  ◌≡◌, ok, length, ◌++◌, arith, length-append, copy_at_next, [], ◌+◌, refl, replicate, append-nil,
}
use groth16_verifier_program.Groth16.Verifier.{
  write_pairing_input, assemble_pairing_input, VerifyingKey, checked, Proof, Bytes, a_b,
}

-- With a laid-out key, a 256-byte proof and a 64-byte `L`, the copies fill the buffer with
-- `A ‖ B ‖ α ‖ −β ‖ L ‖ −γ ‖ C ‖ −δ`, whatever the views are called, and none is out of range.
pub assemble_pairing_input_lem :
    (vk : VerifyingKey checked) (proof : Proof) (l ab alpha_beta g krs d : Bytes)
    → a_b proof ≡ ok ab
    → alpha_neg_beta vk ≡ ok alpha_beta
    → neg_gamma vk ≡ ok g
    → c proof ≡ ok krs
    → neg_delta vk ≡ ok d
    → (length ab ≡ 192)
      × (length alpha_beta ≡ 192)
      × (length l ≡ 64)
      × (length g ≡ 128)
      × (length krs ≡ 64)
      × (length d ≡ 128)
    → assemble_pairing_input vk proof l ≡ ok (((((ab ++ alpha_beta) ++ l) ++ g) ++ krs) ++ d)
unfolding assemble_pairing_input write_pairing_input
assemble_pairing_input_lem vk proof l ab alpha_beta g krs d h₁ h₂ h₃ h₄ h₅ n =
    let d₁ = ab in
    let d₂ = d₁ ++ alpha_beta in
    let d₃ = d₂ ++ l in
    let d₄ = d₃ ++ g in
    let d₅ = d₄ ++ krs in
    let n₂ : length d₂ ≡ 384 = omega (arith, length-append ab alpha_beta) in
    let n₃ : length d₃ ≡ 448 = omega (arith, length-append d₂ l) in
    let n₄ : length d₄ ≡ 576 = omega (arith, length-append d₃ g) in
    let n₅ : length d₅ ≡ 640 = omega (arith, length-append d₄ krs) in
    rw
      (
        h₁,
        h₂,
        h₃,
        h₄,
        h₅,
        copy_at_next [] ab 0 (0 + length ab) 768 576 refl refl (omega arith),
        copy_at_next d₁ alpha_beta 192 (192 + length alpha_beta) 576 384 (omega arith) refl
            (omega arith),
        copy_at_next d₂ l 384 448 384 320 (omega arith) (omega arith) (omega arith),
        copy_at_next d₃ g 448 (448 + length g) 320 192 (omega arith) refl (omega arith),
        copy_at_next d₄ krs 576 640 192 128 (omega arith) (omega arith) (omega arith),
        copy_at_next d₅ d 640 (640 + length d) 128 0 (omega arith) refl (omega arith),
      )
      (unfold replicate in rw append-nil)
