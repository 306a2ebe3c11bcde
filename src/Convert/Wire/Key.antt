-- ===== src/Convert/Wire/Key.antt =====
-- Which bodies `decode_body` reads.
use groth16_verifier_program.Convert.Wire.Table.{read_ic-eq-ok, read_ic-bytes}
use groth16_verifier_program.Convert.Errors.{ConvertError, Reason}
use groth16_verifier_program.Groth16.Proof.Views.{field, length-field}
use groth16_verifier_program.Convert.Wire.Points.{
  g1_bytes, g2_bytes, length-g1_bytes, length-g2_bytes, g1_from_bytes_iff, g2_from_bytes_iff,
}
use groth16_verifier_program.Groth16.VerifyingKey.Layout.{
  IsLaidOut, from_body_iff, alpha_lem, neg_beta_lem, neg_gamma_lem, neg_delta_lem, body_fields,
}
use groth16_verifier_program.Convert.Wire.Body.{
  AreValid, key_body, ic_bytes, length-head_bytes, length-key_body, field_front, head_bytes,
  field_mid,
}
use groth16_verifier_program.Groth16.VerifyingKey.{VerifyingKey, unchecked, from_body}
use groth16_verifier_program.Common.{
  drop, Bytes, ◌≡◌, ok, ◌≤◌, length, ◌↔◌, List, >>=-eq-ok, map_err, ◌+◌, length-append,
  map_err-eq-ok, subst, refl, ap, ◌++◌, arith, ◌∙◌, ◌-◌, sym, [],
}
use groth16_verifier_program.Convert.Wire.{
  decode_body, KeyElements, g1_from_bytes, g2_from_bytes, read_ic,
}
use groth16_verifier_program.Convert.Ark.{Ark, IsArk}

module _ (ark : Ark) (law : IsArk ark) where
  open ark use {G1, G2}

  -- What is decoded, put together from its parts.
  gathered :
      (vk : VerifyingKey unchecked)
      → IsLaidOut vk
      → (a : G1.Point) (b g d : G2.Point) (ps : List G1.Point)
      → g1_from_bytes ark (field 64 0 vk.body) ≡ ok a
      → g2_from_bytes ark (field 128 64 vk.body) ≡ ok b
      → g2_from_bytes ark (field 128 192 vk.body) ≡ ok g
      → g2_from_bytes ark (field 128 320 vk.body) ≡ ok d
      → read_ic ark vk (vk.num_public_inputs + 1) 0 ≡ ok ps
      → let e : KeyElements ark = record {
        alpha = a;
        beta = G2.neg b;
        gamma = G2.neg g;
        delta = G2.neg d;
        ic = ps;
      } in
        (key_body ark e ≡ vk.body) × AreValid ark e × (1 ≤ length e.ic) × (length e.ic ≤ 152)
  unfolding drop
  gathered vk laid a b g d ps ea eb eg ed ep =
      let body = vk.body in
      let (qa, xa) =
        (g1_from_bytes_iff ark law (field 64 0 body) a
            (length-field 64 0 body (omega (arith, laid.sized)))).0
          ea in
      let (qb, xb) =
        (g2_from_bytes_iff ark law (field 128 64 body) b
            (length-field 128 64 body (omega (arith, laid.sized)))).0
          eb in
      let (qg, xg) =
        (g2_from_bytes_iff ark law (field 128 192 body) g
            (length-field 128 192 body (omega (arith, laid.sized)))).0
          eg in
      let (qd, xd) =
        (g2_from_bytes_iff ark law (field 128 320 body) d
            (length-field 128 320 body (omega (arith, laid.sized)))).0
          ed in
      let (qi, li, xi) =
        read_ic-eq-ok ark law vk (vk.num_public_inputs + 1) 0 ps (omega (arith, laid.sized)) ep in
      (
        rw (law.g2.neg-neg b, law.g2.neg-neg g, law.g2.neg-neg d, qa, qb, qg, qd, qi)
            (sym (body_fields vk laid)),
        record {
          alpha = xa;
          beta = law.g2.neg-IsValid b xb;
          gamma = law.g2.neg-IsValid g xg;
          delta = law.g2.neg-IsValid d xd;
          ic = xi;
        },
        omega (arith, li),
        omega (arith, li, laid.bounded),
      )

  -- `decode_body` after its view of the key is made.
  parts :
      (vk : VerifyingKey unchecked)
      → IsLaidOut vk
      → (e : KeyElements ark) → (decode_body ark vk.body ≡ ok e)
      → (key_body ark e ≡ vk.body) × AreValid ark e × (1 ≤ length e.ic) × (length e.ic ≤ 152)
  unfolding decode_body
  parts vk laid e h =
      let h₀ =
        rw
          (
            (from_body_iff vk.body vk).1 (refl, laid),
            alpha_lem vk laid,
            neg_beta_lem vk laid,
            neg_gamma_lem vk laid,
            neg_delta_lem vk laid,
          )
          at h in
      let body = vk.body in
      let (a, ea, h₁) = >>=-eq-ok (g1_from_bytes ark (field 64 0 body)) _ h₀ in
      let (b, eb, h₂) = >>=-eq-ok (g2_from_bytes ark (field 128 64 body)) _ h₁ in
      let (g, eg, h₃) = >>=-eq-ok (g2_from_bytes ark (field 128 192 body)) _ h₂ in
      let (d, ed, h₄) = >>=-eq-ok (g2_from_bytes ark (field 128 320 body)) _ h₃ in
      let (ps, ep, h₅) = >>=-eq-ok (read_ic ark vk (vk.num_public_inputs + 1) 0) _ h₄ in
      subst
        (λ (k : KeyElements ark).
          (key_body ark k ≡ vk.body) × AreValid ark k × (1 ≤ length k.ic) × (length k.ic ≤ 152))
        (cc h₅) (gathered vk laid a b g d ps ea eb eg ed ep)

  decoded :
      (body : Bytes) (e : KeyElements ark)
      → decode_body ark body ≡ ok e
      → (key_body ark e ≡ body) × AreValid ark e × (1 ≤ length e.ic) × (length e.ic ≤ 152)
  unfolding decode_body
  decoded body e h =
      let (vk, ev, _) =
        >>=-eq-ok
          (map_err (λ _. ConvertError.unsupported Reason.invalid_body_length) (from_body body)) _
          h in
      let (qb, laid) = (from_body_iff body vk).0 (
        map_err-eq-ok (λ _. ConvertError.unsupported Reason.invalid_body_length) (from_body body)
          ev) in
      let (q, v, l, u) = parts vk laid e (ap (decode_body ark) qb ∙ h) in (q ∙ qb, v, l, u)

  -- A body that was written is read.
  written :
      (e : KeyElements ark)
      → AreValid ark e
      → 1 ≤ length e.ic
      → length e.ic ≤ 152
      → decode_body ark (key_body ark e) ≡ ok e
  unfolding decode_body
  written e v l u =
      let al = g1_bytes ark e.alpha in
      let nb = g2_bytes ark (G2.neg e.beta) in
      let ng = g2_bytes ark (G2.neg e.gamma) in
      let nd = g2_bytes ark (G2.neg e.delta) in
      let t = ic_bytes ark e.ic in
      let la = length-g1_bytes ark law e.alpha in
      let lb = length-g2_bytes ark law (G2.neg e.beta) in
      let lg = length-g2_bytes ark law (G2.neg e.gamma) in
      let ld = length-g2_bytes ark law (G2.neg e.delta) in
      let lab = length-append al nb in
      let labg = length-append (al ++ nb) ng in
      let lh = length-head_bytes ark law e in
      let vk : VerifyingKey unchecked = record {
        body = key_body ark e;
        num_public_inputs = length e.ic - 1;
      } in
      let laid : IsLaidOut vk = record {
        bounded = omega arith;
        sized = omega (arith, length-key_body ark law e);
      } in
      let fa : field 64 0 vk.body ≡ al =
        field_front 64 0 (head_bytes ark e) t (omega (arith, lh))
        ∙ field_front 64 0 ((al ++ nb) ++ ng) nd (omega (arith, la, lb, lg, lab, labg))
        ∙ field_front 64 0 (al ++ nb) ng (omega (arith, la, lab))
        ∙ field_mid 64 0 [] al nb refl la in
      let fb : field 128 64 vk.body ≡ nb =
        field_front 128 64 (head_bytes ark e) t (omega (arith, lh))
        ∙ field_front 128 64 ((al ++ nb) ++ ng) nd (omega (arith, la, lb, lg, lab, labg))
        ∙ field_mid 128 64 al nb ng la lb in
      let fg : field 128 192 vk.body ≡ ng =
        field_front 128 192 (head_bytes ark e) t (omega (arith, lh))
        ∙ field_mid 128 192 (al ++ nb) ng nd (omega (arith, la, lb, lab)) lg in
      let fd : field 128 320 vk.body ≡ nd =
        field_mid 128 320 ((al ++ nb) ++ ng) nd t (omega (arith, la, lb, lg, lab, labg)) ld in
      let count : length e.ic - 1 + 1 ≡ length e.ic = omega arith in
      rw
        (
          (from_body_iff vk.body vk).1 (refl, laid),
          alpha_lem vk laid,
          neg_beta_lem vk laid,
          neg_gamma_lem vk laid,
          neg_delta_lem vk laid,
          fa,
          fb,
          fg,
          fd,
          (g1_from_bytes_iff ark law al e.alpha la).1 (refl, v.alpha),
          (g2_from_bytes_iff ark law nb (G2.neg e.beta) lb).1
              (refl, law.g2.neg-IsValid e.beta v.beta),
          (g2_from_bytes_iff ark law ng (G2.neg e.gamma) lg).1
              (refl, law.g2.neg-IsValid e.gamma v.gamma),
          (g2_from_bytes_iff ark law nd (G2.neg e.delta) ld).1
              (refl, law.g2.neg-IsValid e.delta v.delta),
          count,
          read_ic-bytes ark law vk (head_bytes ark e) e.ic 0 refl (omega (arith, lh)) v.ic,
          law.g2.neg-neg e.beta,
          law.g2.neg-neg e.gamma,
          law.g2.neg-neg e.delta,
        )
        refl

  -- `decode_body` accepts exactly the bodies that `OnChainKey::new` writes for valid elements, one to 152
  -- of them in the table, and gives those elements. No other bytes decode, and nothing panics.
  pub decode_body_iff :
      (body : Bytes) (e : KeyElements ark)
      → (decode_body ark body ≡ ok e)
        ↔ ((key_body ark e ≡ body) × AreValid ark e × (1 ≤ length e.ic) × (length e.ic ≤ 152))
  unfolding decode_body
  decode_body_iff body e = (λ h. decoded body e h, λ (q, v, l, u). rw (← q) (written e v l u))
