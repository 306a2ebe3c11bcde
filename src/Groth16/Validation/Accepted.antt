-- ===== src/Groth16/Validation/Accepted.antt =====
-- The validation accepts every key whose elements are proper points: the converse of what it checks.
use groth16_verifier_program.Groth16.Proof.Views.{field, length-field}
use groth16_verifier_program.Common.{
  List, ◌∷◌, [], ◌++◌, append_assoc, append-nil, length-append, ◌/◌,
}
use groth16_verifier_program.Groth16.Scalar.{is_zero}
use groth16_verifier_program.Groth16.VerifyingKey.{ic, alpha, neg_beta, neg_gamma, neg_delta}
use groth16_verifier_program.Groth16.Curve.{Slot, join_slots, decode_slots}
use groth16_verifier_program.Groth16.Curve.Calls.{g1_add_lem, pairing_is_one_lem}
use groth16_verifier_program.Groth16.Scalar.Zero.{is_zero_iff}
use groth16_verifier_program.Groth16.Validation.{check_points, add_pairs}
use groth16_verifier_program.Common.{
  ℕ, ◌≡◌, Bytes, ok, length, ◌+◌, ◌*◌, ◌↔◌, ◌≤◌, suc, ◌≢◌, some, arith, replicate, Bool-cases, ltb,
  false, inl, inr, zero, refl,
}
use groth16_verifier_program.Groth16.Validation.Points.{
  Validated, entry, check_points-eq-ok, key_pairing_input_lem,
}
use groth16_verifier_program.Groth16.VerifyingKey.Layout.{
  IsLaidOut, ic_lem, length-ic, alpha_lem, neg_beta_lem, neg_gamma_lem, neg_delta_lem,
  alpha_neg_beta_lem,
}
use groth16_verifier_program.Groth16.VerifyingKey.{
  VerifyingKey, unchecked, assume_validated, neg_beta, neg_gamma, neg_delta,
}
use groth16_verifier_program.Groth16.Curve.{Bn254, Implements}
use groth16_verifier_program.Groth16.Syscall.{Syscalls, pairing_validate_points}

module _ (sys : Syscalls) (bn : Bn254) (imp : Implements sys bn) (vk : VerifyingKey unchecked)
    (laid : IsLaidOut vk) where
  open bn use {G1, G2, decode₁, decode₂}

  nonzero : (k : ℕ) (b : Bytes) → length b ≡ 8 * k → b ≢ replicate (8 * k) 0 → is_zero b ≡ false
  nonzero k b l proper = elim (Bool-cases (is_zero b)) [
    | inl z ↦ absurd (proper ((is_zero_iff k b l).0 z))
    | inr z ↦ z
  ]

  one_more :
      (p q : Bytes) (a : G1) (b : G2) (rest : List Slot) (more : List (G1 × G2))
      → decode₁ p ≡ some a
      → decode₂ q ≡ some b
      → decode_slots bn rest ≡ some more
      → decode_slots bn ((p, q) ∷ rest) ≡ some ((a, b) ∷ more)
  one_more p q a b rest more ea eb em = rw (ea, eb, em, decode_slots) refl

  module _ (v : Validated sys bn imp vk laid) where
    entry_decodes :
        (i : ℕ)
        → i ≤ vk.num_public_inputs
        → decode₁ (entry sys bn imp vk laid i) ≡ some (v.points.ics i)
    unfolding assume_validated ic
    entry_decodes i h = v.points.has_ic i h (entry sys bn imp vk laid i) (ic_lem vk laid i h)

    pairs_pass :
        (rounds i : ℕ)
        → i + 2 * rounds ≤ vk.num_public_inputs + 2
        → add_pairs sys vk rounds i ≡ ok tt
    unfolding add_pairs
    pairs_pass zero i h = refl
    pairs_pass (suc rounds) i h =
        let inside : i ≤ vk.num_public_inputs = omega (arith, h) in
        let a = entry sys bn imp vk laid i in
        let next = pairs_pass rounds (i + 2) (omega (arith, h)) in
        elim (Bool-cases (ltb i vk.num_public_inputs)) [
          | inl more ↦
              let inside₁ : i + 1 ≤ vk.num_public_inputs = ground (arith, more) in
              rw
                (
                  ic_lem vk laid i inside,
                  more,
                  ic_lem vk laid (i + 1) inside₁,
                  g1_add_lem sys bn imp a (entry sys bn imp vk laid (i + 1)) (v.points.ics i)
                      (v.points.ics (i + 1)) (length-ic vk laid i inside)
                      (length-ic vk laid (i + 1) inside₁) (entry_decodes i inside)
                      (entry_decodes (i + 1) inside₁),
                )
                next
          | inr last ↦
              rw
                (
                  ic_lem vk laid i inside,
                  last,
                  g1_add_lem sys bn imp a a (v.points.ics i) (v.points.ics i)
                      (length-ic vk laid i inside) (length-ic vk laid i inside)
                      (entry_decodes i inside) (entry_decodes i inside),
                )
                next
        ]

    check_points-Validated : check_points sys vk ≡ ok tt
    unfolding check_points pairing_validate_points assume_validated alpha neg_beta neg_gamma
        neg_delta
    check_points-Validated =
        let p = v.points in
        let al = field 64 0 vk.body in
        let nb = field 128 64 vk.body in
        let ng = field 128 192 vk.body in
        let nd = field 128 320 vk.body in
        let q = entry sys bn imp vk laid 0 in
        let la = length-field 64 0 vk.body (omega (arith, laid.sized)) in
        let lb = length-field 128 64 vk.body (omega (arith, laid.sized)) in
        let lg = length-field 128 192 vk.body (omega (arith, laid.sized)) in
        let ld = length-field 128 320 vk.body (omega (arith, laid.sized)) in
        let lq = length-ic vk laid 0 (omega arith) in
        let za = nonzero 8 al la (v.α_proper al (alpha_lem vk laid)) in
        let zb = nonzero 16 nb lb (v.β_proper nb (neg_beta_lem vk laid)) in
        let zg = nonzero 16 ng lg (v.γ_proper ng (neg_gamma_lem vk laid)) in
        let zd = nonzero 16 nd ld (v.δ_proper nd (neg_delta_lem vk laid)) in
        let two : List Slot = (q, nd) ∷ [] in
        let one : List Slot = (q, ng) ∷ two in
        let slots : List Slot = (al, nb) ∷ one in
        let two_points : List (G1 × G2) = (p.ics 0, p.neg_δ) ∷ [] in
        let one_points : List (G1 × G2) = (p.ics 0, p.neg_γ) ∷ two_points in
        let points : List (G1 × G2) = (p.α, p.neg_β) ∷ one_points in
        let dq = entry_decodes 0 (omega arith) in
        let d : decode_slots bn slots ≡ some points =
          one_more al nb p.α p.neg_β one one_points (p.has_α al (alpha_lem vk laid))
            (p.has_β nb (neg_beta_lem vk laid))
            (one_more q ng (p.ics 0) p.neg_γ two two_points dq (p.has_γ ng (neg_gamma_lem vk laid))
              (one_more q nd (p.ics 0) p.neg_δ [] [] dq (p.has_δ nd (neg_delta_lem vk laid))
                refl)) in
        let flat : ((((al ++ nb) ++ q) ++ ng) ++ q) ++ nd ≡ join_slots slots =
          simp (append_assoc, append-nil) in
        rw
          (
            alpha_lem vk laid,
            ic_lem vk laid 0 (omega arith),
            neg_beta_lem vk laid,
            neg_gamma_lem vk laid,
            neg_delta_lem vk laid,
            za,
            zb,
            zg,
            zd,
            key_pairing_input_lem vk q (al ++ nb) ng nd (alpha_neg_beta_lem vk laid)
                (neg_gamma_lem vk laid) (neg_delta_lem vk laid)
                (omega (arith, length-append al nb, la, lb), lq, lg, ld),
            flat,
            pairing_is_one_lem sys bn imp slots points ((la, lb), ((lq, lg), ((lq, ld), tt))) d,
          )
          (pairs_pass ((vk.num_public_inputs + 1) / 2) 1 (omega arith))

  -- The validation accepts a laid-out key exactly if alpha, -beta, -gamma, -delta and every entry of the
  -- table decode to points, and none of the first four is the identity.
  pub check_points_iff : (check_points sys vk ≡ ok tt) ↔ Validated sys bn imp vk laid
  check_points_iff = (check_points-eq-ok sys bn imp vk laid, check_points-Validated)
