-- ===== src/Convert/Publishable.antt =====
-- The conversion tool of tools/convert/src and the validation of groth16-verify/src agree on keys.
use groth16_verifier_program.Groth16.Validation.Accepted.{check_points_iff}
use groth16_verifier_program.Convert.Wire.Key.{decode_body_iff}
use groth16_verifier_program.Convert.Gnark.Outcomes.{parse_verifying_key-AreValid}
use groth16_verifier_program.Groth16.Validation.{check_points}
use groth16_verifier_program.Groth16.State.KeyAccount.{key_of}
use groth16_verifier_program.Convert.Gnark.{parse_verifying_key}
use groth16_verifier_program.Groth16.Validation.Points.{Validated, point_lem}
use groth16_verifier_program.Groth16.Syscall.{Syscalls}
use groth16_verifier_program.Groth16.Scalar.Zero.{all_zero-replicate}
use groth16_verifier_program.Groth16.VerifyingKey.Layout.{
  IsLaidOut, ic_lem, length-ic, from_body_iff, alpha_lem, neg_beta_lem, neg_gamma_lem,
  neg_delta_lem,
}
use groth16_verifier_program.Groth16.Curve.{Bn254, Implements}
use groth16_verifier_program.Common.{
  ◌≢◌, ◌≡◌, Bytes, replicate, ok, ℕ, some, length, List, subst, ◌+◌, ◌≤◌, ◌<◌, ◌*◌, arith, suc,
  >>=-eq-ok, Bool-cases, ◌==◌, inl, sym, ==_iff, inr, zero, refl, All, IsByte,
}
use groth16_verifier_program.Groth16.Validation.Points.{Validated, point, point_lem}
use groth16_verifier_program.Convert.Ark.{Ark, IsArk, IsValid}
use groth16_verifier_program.Convert.Wire.{
  decode_body, KeyElements, g1_from_bytes, g2_from_bytes, read_ic, OnChainKey, key_elements,
}
use groth16_verifier_program.Convert.Wire.Points.{
  g1_bytes, g2_bytes, g1_from_bytes_iff, g2_from_bytes_iff,
}
use groth16_verifier_program.Groth16.VerifyingKey.{
  VerifyingKey, unchecked, assume_validated, alpha, neg_beta, neg_gamma, neg_delta, ic,
}
use groth16_verifier_program.Groth16.Proof.Views.{field, length-field}

-- Both encode points alike: the bytes that arkworks' coordinates of a valid point have in the tool are
-- the syscalls' bytes of a point.
pub record SharesPoints (ark : Ark) (bn : Bn254) : Type 0 where
  pub g1 :
      (p : ark.G1.Point) → IsValid ark.G1 p → (q : bn.G1) × (bn.decode₁ (g1_bytes ark p) ≡ some q)
  pub g2 :
      (p : ark.G2.Point) → IsValid ark.G2 p → (q : bn.G2) × (bn.decode₂ (g2_bytes ark p) ≡ some q)

-- None of the four elements that a body starts with is the identity.
pub record AreProper (ark : Ark) (e : KeyElements ark) : Type 0 where
  pub alpha : e.alpha ≢ ark.G1.identity
  pub beta : ark.G2.neg e.beta ≢ ark.G2.identity
  pub gamma : ark.G2.neg e.gamma ≢ ark.G2.identity
  pub delta : ark.G2.neg e.delta ≢ ark.G2.identity

module _ (ark : Ark) (law : IsArk ark) (bn : Bn254) (shares : SharesPoints ark bn) where
  open ark use {G1, G2}

  g1_decodes :
      (b : Bytes) (p : G1.Point)
      → length b ≡ 64
      → g1_from_bytes ark b ≡ ok p
      → (q : bn.G1) × (bn.decode₁ b ≡ some q)
  g1_decodes b p l e =
      let (same, valid) = (g1_from_bytes_iff ark law b p l).0 e in
      subst (λ (x : Bytes). (q : bn.G1) × (bn.decode₁ x ≡ some q)) same (shares.g1 p valid)

  g2_decodes :
      (b : Bytes) (p : G2.Point)
      → length b ≡ 128
      → g2_from_bytes ark b ≡ ok p
      → (q : bn.G2) × (bn.decode₂ b ≡ some q)
  g2_decodes b p l e =
      let (same, valid) = (g2_from_bytes_iff ark law b p l).0 e in
      subst (λ (x : Bytes). (q : bn.G2) × (bn.decode₂ x ≡ some q)) same (shares.g2 p valid)

  -- Zeros are read as the identity.
  g1_zeros : (p : G1.Point) → g1_from_bytes ark (replicate 64 0) ≡ ok p → p ≡ G1.identity
  unfolding g1_from_bytes
  g1_zeros p e = cc (rw (all_zero-replicate 64) at e)

  g2_zeros : (p : G2.Point) → g2_from_bytes ark (replicate 128 0) ≡ ok p → p ≡ G2.identity
  unfolding g2_from_bytes
  g2_zeros p e = cc (rw (all_zero-replicate 128) at e)

  -- Every entry of a table that was read decodes.
  entries :
      (vk : VerifyingKey unchecked)
      → IsLaidOut vk
      → (count i : ℕ) (ps : List G1.Point) → i + count ≤ vk.num_public_inputs + 1
      → read_ic ark vk count i ≡ ok ps
      → (j : ℕ) → i ≤ j
      → j < i + count
      → (q : bn.G1) × (bn.decode₁ (field 64 (448 + j * 64) vk.body) ≡ some q)
  unfolding read_ic
  entries vk laid zero i ps h e j l u = absurd (omega (arith, l, u))
  entries vk laid (suc count) i ps h e j l u =
      let here = field 64 (448 + i * 64) vk.body in
      let f = rw (ic_lem vk laid i (omega (arith, h))) at e in
      let (p, ep, f₁) = >>=-eq-ok (g1_from_bytes ark here) _ f in
      let (rest, er, _) = >>=-eq-ok (read_ic ark vk count (i + 1)) _ f₁ in
      elim (Bool-cases (j == i)) [
        | inl same ↦
            subst (λ (k : ℕ). (q : bn.G1) × (bn.decode₁ (field 64 (448 + k * 64) vk.body) ≡ some q))
              (sym ((==_iff j i).0 same))
              (g1_decodes here p (length-ic vk laid i (omega (arith, h))) ep)
        | inr other ↦
            entries vk laid count (i + 1) rest (omega (arith, h)) er j (ground (arith, l, other))
              (omega (arith, u))
      ]

  module _ (sys : Syscalls) (imp : Implements sys bn) (vk : VerifyingKey unchecked)
      (laid : IsLaidOut vk) (e : KeyElements ark) (proper : AreProper ark e) where
    -- The decoded elements, put together.
    decoded-Validated :
        (a : G1.Point) (b g d : G2.Point) (ps : List G1.Point)
        → g1_from_bytes ark (field 64 0 vk.body) ≡ ok a
        → g2_from_bytes ark (field 128 64 vk.body) ≡ ok b
        → g2_from_bytes ark (field 128 192 vk.body) ≡ ok g
        → g2_from_bytes ark (field 128 320 vk.body) ≡ ok d
        → read_ic ark vk (vk.num_public_inputs + 1) 0 ≡ ok ps
        → a ≢ G1.identity
        → b ≢ G2.identity
        → g ≢ G2.identity
        → d ≢ G2.identity
        → Validated sys bn imp vk laid
    unfolding assume_validated alpha neg_beta neg_gamma neg_delta ic
    decoded-Validated a b g d ps ea eb eg ed ep na nb ng nd =
        let (α, dα) = g1_decodes _ a (length-field 64 0 vk.body (omega (arith, laid.sized))) ea in
        let (β, dβ) = g2_decodes _ b (length-field 128 64 vk.body (omega (arith, laid.sized))) eb in
        let (γ, dγ) =
          g2_decodes _ g (length-field 128 192 vk.body (omega (arith, laid.sized))) eg in
        let (δ, dδ) =
          g2_decodes _ d (length-field 128 320 vk.body (omega (arith, laid.sized))) ed in
        record {
          points = record {
            α = α;
            neg_β = β;
            neg_γ = γ;
            neg_δ = δ;
            ics = point sys bn imp vk laid;
            has_α = λ x h. cc (h, alpha_lem vk laid, dα);
            has_β = λ x h. cc (h, neg_beta_lem vk laid, dβ);
            has_γ = λ x h. cc (h, neg_gamma_lem vk laid, dγ);
            has_δ = λ x h. cc (h, neg_delta_lem vk laid, dδ);
            has_ic = λ i inside x h. cc (
              h,
              ic_lem vk laid i inside,
              point_lem sys bn imp vk laid i (
                  entries vk laid (vk.num_public_inputs + 1) 0 ps (omega arith) ep i (omega arith)
                    (omega (arith, inside))),
            );
          };
          α_proper = λ x h z. na (
              g1_zeros a (
                subst (λ (y : Bytes). g1_from_bytes ark y ≡ ok a) (cc (h, alpha_lem vk laid, z))
                  ea));
          β_proper = λ x h z. nb (
              g2_zeros b (
                subst (λ (y : Bytes). g2_from_bytes ark y ≡ ok b) (cc (h, neg_beta_lem vk laid, z))
                  eb));
          γ_proper = λ x h z. ng (
              g2_zeros g (
                subst (λ (y : Bytes). g2_from_bytes ark y ≡ ok g) (cc (h, neg_gamma_lem vk laid, z))
                  eg));
          δ_proper = λ x h z. nd (
              g2_zeros d (
                subst (λ (y : Bytes). g2_from_bytes ark y ≡ ok d) (cc (h, neg_delta_lem vk laid, z))
                  ed));
        }

    decode_body-Validated : decode_body ark vk.body ≡ ok e → Validated sys bn imp vk laid
    unfolding decode_body
    decode_body-Validated h =
        let h₀ =
          rw
            (
              (from_body_iff vk.body vk).1 (refl, laid),
              alpha_lem vk laid,
              neg_beta_lem vk laid,
              neg_gamma_lem vk laid,
              neg_delta_lem vk laid,
            )
            at h in
        let (a, ea, h₁) = >>=-eq-ok (g1_from_bytes ark (field 64 0 vk.body)) _ h₀ in
        let (b, eb, h₂) = >>=-eq-ok (g2_from_bytes ark (field 128 64 vk.body)) _ h₁ in
        let (g, eg, h₃) = >>=-eq-ok (g2_from_bytes ark (field 128 192 vk.body)) _ h₂ in
        let (d, ed, h₄) = >>=-eq-ok (g2_from_bytes ark (field 128 320 vk.body)) _ h₃ in
        let (ps, ep, h₅) = >>=-eq-ok (read_ic ark vk (vk.num_public_inputs + 1) 0) _ h₄ in
        let made : KeyElements ark = record {
          alpha = a;
          beta = G2.neg b;
          gamma = G2.neg g;
          delta = G2.neg d;
          ic = ps;
        } in
        let same : e ≡ made = cc h₅ in
        let p : AreProper ark made = subst (λ (k : KeyElements ark). AreProper ark k) same proper in
        decoded-Validated a b g d ps ea eb eg ed ep p.alpha (rw (law.g2.neg-neg b) at p.beta)
          (rw (law.g2.neg-neg g) at p.gamma) (rw (law.g2.neg-neg d) at p.delta)

  -- A key that the tool parses from a gnark file, of whatever bytes, is one that the program publishes: it
  -- has the layout for its n, and the validation accepts its points, if none of its alpha and negated
  -- beta, gamma and delta is the identity. The hypotheses are the laws of arkworks' operations, that the
  -- syscalls implement the groups, and that both encode points alike.
  pub parse_verifying_key-check_points :
      (sys : Syscalls)
      → Implements sys bn
      → (bytes : Bytes) (key : OnChainKey) (e : KeyElements ark) → All IsByte bytes
      → parse_verifying_key ark bytes ≡ ok key
      → key_elements ark key ≡ ok e
      → AreProper ark e
      → IsLaidOut (key_of key.body key.num_public_inputs)
        × (check_points sys (key_of key.body key.num_public_inputs) ≡ ok tt)
  unfolding key_elements
  parse_verifying_key-check_points sys imp bytes key e h parsed shown proper =
      let (e', _, shown', n, l) = parse_verifying_key-AreValid ark law bytes key h parsed in
      let (_, _, _, few) = (decode_body_iff ark law key.body e').0 shown' in
      let vk = key_of key.body key.num_public_inputs in
      let laid : IsLaidOut vk = record { bounded = omega (arith, n, few); sized = l } in
      (
        laid,
        (check_points_iff sys bn imp vk laid).1
            (decode_body-Validated sys imp vk laid e proper shown),
      )
