-- ===== src/Groth16/Verifier/Returns.antt =====
-- On a laid-out key and a proof of 256 bytes the verifier returns, whatever the inputs and the syscalls'
-- answers.
use groth16_verifier_program.Groth16.Verifier.Assembly.{assemble_pairing_input_lem}
use groth16_verifier_program.Groth16.Proof.Views.{views_cover, field, length-field}
use groth16_verifier_program.Groth16.Errors.{proof_invalid}
use groth16_verifier_program.Groth16.Constants.{proof_size}
use groth16_verifier_program.Groth16.Proof.{Proof}
use groth16_verifier_program.Groth16.VerifyingKey.Layout.{
  IsLaidOut, ic_lem, length-ic, alpha_neg_beta_lem, neg_gamma_lem, neg_delta_lem,
}
use groth16_verifier_program.Common.{
  chunks_exact, ℕ, ◌≤◌, Bytes, ◌+◌, Yields, length, List, ◌≡◌, ◌/◌, eq-Yields, ensure-Yields,
  if-Yields, All, ◌∷◌, bind-Yields, ◌==◌, arith, ◌*◌, pieces, [], length-pieces, pieces_exact, ok,
  ensure_last, ◌++◌, length-append,
}
use groth16_verifier_program.Groth16.Scalar.{is_zero, is_one}
use groth16_verifier_program.Groth16.VerifyingKey.{VerifyingKey, checked, KeyState, ic}
use groth16_verifier_program.Groth16.Syscall.{Syscalls, g1_mul, pairing_is_one}
use groth16_verifier_program.Groth16.Syscall.Returns.{
  WritesOutputs, HasLength, g1_add-Yields, g1_mul-Yields, pairing_is_one-Yields,
}
use groth16_verifier_program.Groth16.Verifier.{
  add_term, add_terms, prepare_inputs, check_pairing, verify, all_canonical, assemble_pairing_input,
}

pub ic-Yields :
    {s : KeyState} (vk : VerifyingKey s)
    → IsLaidOut vk
    → (i : ℕ) → i ≤ vk.num_public_inputs
    → Yields (HasLength 64) (ic vk i)
ic-Yields vk laid i h =
    eq-Yields (HasLength 64) (ic vk i) _ (ic_lem vk laid i h) (length-ic vk laid i h)

module _ (sys : Syscalls) (out : WritesOutputs sys) (vk : VerifyingKey checked)
    (laid : IsLaidOut vk) where
  add_term-Yields :
      (i : ℕ) (acc s : Bytes)
      → i + 1 ≤ vk.num_public_inputs
      → length acc ≡ 64
      → length s ≡ 32
      → Yields (HasLength 64) (add_term sys vk i acc s)
  unfolding add_term
  add_term-Yields i acc s h la ls = if-Yields (HasLength 64) (is_zero s) _ _ la (
      bind-Yields (HasLength 64) (HasLength 64) (ic vk (i + 1)) _ (ic-Yields vk laid (i + 1) h)
        (λ p lp. if-Yields (HasLength 64) (is_zero p) _ _ la (
          if-Yields (HasLength 64) (is_one s) _ _ (g1_add-Yields sys out acc p la lp) (
            bind-Yields (HasLength 64) (HasLength 64) (g1_mul sys p s) _
              (g1_mul-Yields sys out p s lp ls)
              (λ term lt. g1_add-Yields sys out acc term la lt)))))

  add_terms-Yields :
      (i : ℕ) (acc : Bytes) (ss : List Bytes)
      → i + length ss ≤ vk.num_public_inputs
      → length acc ≡ 64
      → All (HasLength 32) ss
      → Yields (HasLength 64) (add_terms sys vk i acc ss)
  unfolding add_terms
  add_terms-Yields i acc [] h la ls = la
  add_terms-Yields i acc (s ∷ ss) h la ls =
      bind-Yields (HasLength 64) (HasLength 64) (add_term sys vk i acc s) _
        (add_term-Yields i acc s (omega (arith, h)) la ls.0)
        (λ acc' la'. add_terms-Yields (i + 1) acc' ss (omega (arith, h)) la' ls.1)

  prepare_inputs-Yields :
      (public_inputs : Bytes) → Yields (HasLength 64) (prepare_inputs sys vk public_inputs)
  unfolding prepare_inputs chunks_exact
  prepare_inputs-Yields public_inputs =
      let n = length public_inputs / 32 in
      ensure-Yields (HasLength 64) (length public_inputs == vk.num_public_inputs * 32) _ _ (λ count.
        ensure-Yields (HasLength 64) (all_canonical (chunks_exact 32 public_inputs)) _ _ (λ _.
          bind-Yields (HasLength 64) (HasLength 64) (ic vk 0) _ (ic-Yields vk laid 0 (omega arith))
            (λ acc la.
              add_terms-Yields 0 acc (pieces n 32 public_inputs)
                (ground (arith, count, length-pieces n 32 public_inputs)) la
                (pieces_exact n 32 public_inputs (omega arith)))))

  check_pairing-Yields :
      (input : Bytes) → Yields (λ (u : Unit {0}). Unit {0}) (check_pairing sys input)
  unfolding check_pairing
  check_pairing-Yields input =
      bind-Yields (λ _. Unit {0}) (λ _. Unit {0}) (pairing_is_one sys input) _
        (pairing_is_one-Yields sys out input) (λ one _. ensure_last one proof_invalid)

  assembled :
      (proof : Proof) (l : Bytes)
      → length proof.bytes ≡ proof_size
      → length l ≡ 64
      → (input : Bytes) × (assemble_pairing_input vk proof l ≡ ok input)
  assembled proof l size ll =
      let (_, _, ec, eab, _) = views_cover proof size in
      let x = field 64 0 proof.bytes in
      let y = field 128 64 proof.bytes in
      let al = field 64 0 vk.body in
      let nb = field 128 64 vk.body in
      (
        _,
        assemble_pairing_input_lem vk proof l (x ++ y) (al ++ nb) (field 128 192 vk.body)
            (field 64 192 proof.bytes) (field 128 320 vk.body) eab (alpha_neg_beta_lem vk laid)
            (neg_gamma_lem vk laid) ec (neg_delta_lem vk laid)
            (omega (
              arith,
              length-append x y,
              length-append al nb,
              length-field 64 0 proof.bytes (omega (arith, size)),
              length-field 128 64 proof.bytes (omega (arith, size)),
              length-field 64 192 proof.bytes (omega (arith, size)),
              length-field 64 0 vk.body (omega (arith, laid.sized)),
              length-field 128 64 vk.body (omega (arith, laid.sized)),
              length-field 128 192 vk.body (omega (arith, laid.sized)),
              length-field 128 320 vk.body (omega (arith, laid.sized)),
              ll,
            )),
      )

  -- No slice of the verifier is out of range.
  pub verify-Returns :
      (proof : Proof) (public_inputs : Bytes)
      → length proof.bytes ≡ proof_size
      → Yields (λ (u : Unit {0}). Unit {0}) (verify sys vk proof public_inputs)
  unfolding verify check_pairing
  verify-Returns proof public_inputs size =
      bind-Yields (HasLength 64) (λ _. Unit {0}) (prepare_inputs sys vk public_inputs) _
        (prepare_inputs-Yields public_inputs)
        (λ l ll. let (input, e) = assembled proof l size ll in rw e (check_pairing-Yields input))
