-- ===== src/Convert/Wire/Proof.antt =====
-- `OnChainProof` and the public inputs: what is written, and what is read.
use groth16_verifier_program.Convert.Wire.Body.{field_front, field_mid, field_last}
use groth16_verifier_program.Groth16.Proof.Views.{field, length-field, views_cover}
use groth16_verifier_program.Groth16.Constants.{proof_size}
use groth16_verifier_program.Convert.Errors.{ConvertError}
use groth16_verifier_program.Convert.Wire.Points.{
  g1_bytes, g2_bytes, length-g1_bytes, length-g2_bytes, g1_to_bytes_lem, g2_to_bytes_lem,
  g1_from_bytes_iff, g2_from_bytes_iff,
}
use groth16_verifier_program.Common.{
  ℕ, Bytes, replicate, length, ◌≡◌, take, ok, ◌++◌, ◌+◌, drop, slice_from, ◌≤◌, ◌↔◌, sym, slice,
  ◌-◌, slice_from_lem, ◌∙◌, length-append, arith, ap, slice_lem, refl, copy_at_next, >>=-eq-ok,
  take_all, [], length-drop, append-nil, subst, ap₂,
}
use groth16_verifier_program.Convert.Wire.{
  ProofElements, new_proof, OnChainProof, proof_elements, g1_from_bytes, g2_from_bytes,
}
use groth16_verifier_program.Convert.Ark.{Ark, IsArk, IsValid}

module _ (ark : Ark) where
  open ark use {G1, G2}

  -- `A ‖ B ‖ C`.
  abbrev pub proof_bytes : ProofElements ark → Bytes
  proof_bytes e = (g1_bytes ark e.a ++ g2_bytes ark e.b) ++ g1_bytes ark e.c

  pub record AreProofPoints (e : ProofElements ark) : Type 0 where
    pub a : IsValid G1 e.a
    pub b : IsValid G2 e.b
    pub c : IsValid G1 e.c

module _ (ark : Ark) (law : IsArk ark) where
  open ark use {G1, G2, Fr}

  -- `OnChainProof::new` writes `A ‖ B ‖ C`.
  pub new_proof_lem :
      (e : ProofElements ark) → new_proof ark e ≡ ok (record { bytes = proof_bytes ark e })
  unfolding new_proof replicate
  new_proof_lem e =
      let a = g1_bytes ark e.a in
      let b = g2_bytes ark e.b in
      let c = g1_bytes ark e.c in
      let la = length-g1_bytes ark law e.a in
      let lb = length-g2_bytes ark law e.b in
      let lc = length-g1_bytes ark law e.c in
      let lab = length-append a b in
      rw
        (
          g1_to_bytes_lem ark law e.a,
          copy_at_next {E = ConvertError} [] a 0 64 256 192 refl (omega (arith, la))
              (omega (arith, la)),
          g2_to_bytes_lem ark law e.b,
          copy_at_next {E = ConvertError} a b 64 192 192 64 (omega (arith, la)) (omega (arith, lb))
              (omega (arith, lb)),
          g1_to_bytes_lem ark law e.c,
          copy_at_next {E = ConvertError} (a ++ b) c 192 256 64 0 (omega (arith, la, lb, lab))
              (omega (arith, lc)) (omega (arith, lc)),
          append-nil,
        )
        refl

  range_field :
      (n lo hi : ℕ) (bytes : Bytes)
      → hi ≡ lo + n
      → hi ≤ length bytes
      → slice {E = ConvertError} bytes lo hi ≡ ok (field n lo bytes)
  range_field n lo hi bytes h k =
      let e : hi - lo ≡ n = omega (arith, h) in
      slice_lem bytes lo hi (omega (arith, h)) k ∙ ap (λ (m : ℕ). ok (take m (drop lo bytes))) e

  tail_field :
      (bytes : Bytes)
      → length bytes ≡ 256
      → slice_from {E = ConvertError} bytes 192 ≡ ok (field 64 192 bytes)
  tail_field bytes h =
      slice_from_lem bytes 192 (omega (arith, h))
      ∙ ap ok (sym (take_all 64 (drop 192 bytes) (omega (arith, h, length-drop 192 bytes))))

  -- `OnChainProof::elements` accepts, among byte strings of a proof's length, exactly the encodings of
  -- three valid points, and gives those points.
  pub proof_elements_iff :
      (p : OnChainProof) (e : ProofElements ark)
      → length p.bytes ≡ proof_size
      → (proof_elements ark p ≡ ok e) ↔ ((proof_bytes ark e ≡ p.bytes) × AreProofPoints ark e)
  unfolding proof_elements take drop
  proof_elements_iff p e l =
      let bytes = p.bytes in
      let fa = field 64 0 bytes in
      let fb = field 128 64 bytes in
      let fc = field 64 192 bytes in
      let la = length-field 64 0 bytes (omega (arith, l)) in
      let lb = length-field 128 64 bytes (omega (arith, l)) in
      let lc = length-field 64 192 bytes (omega (arith, l)) in
      let sa = range_field 64 0 64 bytes refl (omega (arith, l)) in
      let sb = range_field 128 64 192 bytes refl (omega (arith, l)) in
      let sc = tail_field bytes l in
      let (_, _, _, _, whole) = views_cover (record { bytes = bytes }) l in
      (
        λ h.
            let (a, ea, h₁) = >>=-eq-ok (g1_from_bytes ark fa) _ (rw (sa, sb, sc) at h) in
            let (b, eb, h₂) = >>=-eq-ok (g2_from_bytes ark fb) _ h₁ in
            let (c, ec, h₃) = >>=-eq-ok (g1_from_bytes ark fc) _ h₂ in
            let (qa, va) = (g1_from_bytes_iff ark law fa a la).0 ea in
            let (qb, vb) = (g2_from_bytes_iff ark law fb b lb).0 eb in
            let (qc, vc) = (g1_from_bytes_iff ark law fc c lc).0 ec in
            subst (λ (k : ProofElements ark). (proof_bytes ark k ≡ bytes) × AreProofPoints ark k)
              (cc h₃)
              (
                ap₂ (λ (s t : Bytes). s ++ t) (ap₂ (λ (s t : Bytes). s ++ t) qa qb) qc ∙ sym whole,
                record { a = va; b = vb; c = vc },
              ),
        λ (q, v).
            let a = g1_bytes ark e.a in
            let b = g2_bytes ark e.b in
            let c = g1_bytes ark e.c in
            let ka = length-g1_bytes ark law e.a in
            let kb = length-g2_bytes ark law e.b in
            let kc = length-g1_bytes ark law e.c in
            let ga : fa ≡ a = rw (← q) (
              field_front 64 0 (a ++ b) c (omega (arith, ka, kb, length-append a b))
              ∙ field_mid 64 0 [] a b refl ka) in
            let gb : fb ≡ b = rw (← q) (
              field_front 128 64 (a ++ b) c (omega (arith, ka, kb, length-append a b))
              ∙ field_last 128 64 a b ka kb) in
            let gc : fc ≡ c =
              rw (← q)
                (field_last 64 192 (a ++ b) c (omega (arith, ka, kb, length-append a b)) kc) in
            rw
              (
                sa,
                sb,
                sc,
                (g1_from_bytes_iff ark law fa e.a la).1 (sym ga, v.a),
                (g2_from_bytes_iff ark law fb e.b lb).1 (sym gb, v.b),
                (g1_from_bytes_iff ark law fc e.c lc).1 (sym gc, v.c),
              )
              refl,
      )

  -- Three valid points survive the way through the on-chain bytes, which have a proof's length.
  pub proof_elements-new_proof :
      (e : ProofElements ark) (p : OnChainProof)
      → AreProofPoints ark e
      → new_proof ark e ≡ ok p
      → (length p.bytes ≡ proof_size) × (proof_elements ark p ≡ ok e)
  proof_elements-new_proof e p v h =
      let a = g1_bytes ark e.a in
      let b = g2_bytes ark e.b in
      let c = g1_bytes ark e.c in
      let q : record { bytes = proof_bytes ark e } ≡ p = cc (sym (new_proof_lem e) ∙ h) in
      let l : length (proof_bytes ark e) ≡ 256 = omega (
        arith,
        length-append (a ++ b) c,
        length-append a b,
        length-g1_bytes ark law e.a,
        length-g2_bytes ark law e.b,
        length-g1_bytes ark law e.c,
      ) in
      rw (← q) (l, (proof_elements_iff (record { bytes = proof_bytes ark e }) e l).1 (refl, v))
