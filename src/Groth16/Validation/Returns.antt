-- ===== src/Groth16/Validation/Returns.antt =====
-- The validation of a laid-out key returns, whatever the syscalls answer.
use groth16_verifier_program.Groth16.Errors.{identity_key_element}
use groth16_verifier_program.Groth16.Verifier.Returns.{ic-Yields}
use groth16_verifier_program.Groth16.Validation.Points.{key_pairing_input_lem}
use groth16_verifier_program.Groth16.Proof.Views.{field, length-field}
use groth16_verifier_program.Groth16.VerifyingKey.Layout.{
  IsLaidOut, alpha_lem, ic_lem, neg_beta_lem, neg_gamma_lem, alpha_neg_beta_lem, neg_delta_lem,
}
use groth16_verifier_program.Common.{
  Bytes, ℕ, Yields, length, ◌+◌, ◌≡◌, ◌*◌, bind-Yields, ◌≤◌, ok, arith, if◌then◌else◌, suc, ◌++◌,
  ltb, Bool-cases, length-append, zero, inl, ensure-Yields, inr, ◌/◌,
}
use groth16_verifier_program.Groth16.VerifyingKey.{VerifyingKey, unchecked, checked, ic}
use groth16_verifier_program.Groth16.Syscall.{
  Syscalls, g1_add, pairing_is_one, pairing_validate_points,
}
use groth16_verifier_program.Groth16.Syscall.Returns.{
  WritesOutputs, HasLength, g1_add-Yields, pairing_is_one-Yields,
}
use groth16_verifier_program.Groth16.Validation.{
  add_pairs, check_points, key_pairing_input, validate_for_publish,
}

module _ (sys : Syscalls) (out : WritesOutputs sys) (vk : VerifyingKey unchecked)
    (laid : IsLaidOut vk) where
  neighbour-Yields :
      (i : ℕ) (a : Bytes)
      → length a ≡ 64
      → i ≤ vk.num_public_inputs
      → Yields (HasLength 64) (if ltb i vk.num_public_inputs then ic vk (i + 1) else ok a)
  neighbour-Yields i a la h = elim (Bool-cases (ltb i vk.num_public_inputs)) [
    | inl more ↦ rw more (ic-Yields vk laid (i + 1) (ground (arith, more)))
    | inr last ↦ rw last la
  ]

  add_pairs-Yields :
      (rounds i : ℕ)
      → i + 2 * rounds ≤ vk.num_public_inputs + 2
      → Yields (λ (u : Unit {0}). Unit {0}) (add_pairs sys vk rounds i)
  unfolding add_pairs
  add_pairs-Yields zero i h = tt
  add_pairs-Yields (suc rounds) i h =
      bind-Yields (HasLength 64) (λ _. Unit {0}) (ic vk i) _
        (ic-Yields vk laid i (omega (arith, h)))
        (λ a la.
          bind-Yields (HasLength 64) (λ _. Unit {0}) _ _
            (neighbour-Yields i a la (omega (arith, h)))
            (λ b lb.
              bind-Yields (HasLength 64) (λ _. Unit {0}) (g1_add sys a b) _
                (g1_add-Yields sys out a b la lb)
                (λ _ _. add_pairs-Yields rounds (i + 2) (omega (arith, h)))))

  key_input : (input : Bytes) × (key_pairing_input vk (field 64 448 vk.body) ≡ ok input)
  key_input =
      let al = field 64 0 vk.body in
      let nb = field 128 64 vk.body in
      (
        _,
        key_pairing_input_lem vk (field 64 448 vk.body) (al ++ nb) (field 128 192 vk.body)
            (field 128 320 vk.body) (alpha_neg_beta_lem vk laid) (neg_gamma_lem vk laid)
            (neg_delta_lem vk laid)
            (
              omega (
                arith,
                length-append al nb,
                length-field 64 0 vk.body (omega (arith, laid.sized)),
                length-field 128 64 vk.body (omega (arith, laid.sized)),
              ),
              length-field 64 448 vk.body (omega (arith, laid.sized)),
              length-field 128 192 vk.body (omega (arith, laid.sized)),
              length-field 128 320 vk.body (omega (arith, laid.sized)),
            ),
      )

  check_points-Yields : Yields (λ (u : Unit {0}). Unit {0}) (check_points sys vk)
  unfolding check_points pairing_validate_points
  check_points-Yields =
      let (input, e) = key_input in
      rw
        (
          alpha_lem vk laid,
          ic_lem vk laid 0 (omega arith),
          neg_beta_lem vk laid,
          neg_gamma_lem vk laid,
          neg_delta_lem vk laid,
          e,
        )
        (ensure-Yields (λ _. Unit {0}) _ identity_key_element _
          (λ _.
            bind-Yields (λ _. Unit {0}) (λ _. Unit {0}) (pairing_validate_points sys input) _
              (bind-Yields (λ _. Unit {0}) (λ _. Unit {0}) (pairing_is_one sys input) _
                (pairing_is_one-Yields sys out input) (λ _ _. tt))
              (λ _ _. add_pairs-Yields ((vk.num_public_inputs + 1) / 2) 1 (omega arith))))

  -- No slice of the validation is out of range.
  pub validate_for_publish-Returns :
      Yields (λ (k : VerifyingKey checked). Unit {0}) (validate_for_publish sys vk)
  unfolding validate_for_publish
  validate_for_publish-Returns =
      bind-Yields (λ _. Unit {0}) (λ _. Unit {0}) (check_points sys vk) _ check_points-Yields
        (λ _ _. tt)
