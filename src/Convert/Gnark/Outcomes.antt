-- ===== src/Convert/Gnark/Outcomes.antt =====
-- What each parser can give: a value made of valid points, or an error.
use groth16_verifier_program.Convert.Wire.RoundTrip.{key_elements-new_key, new_key_lem}
use groth16_verifier_program.Convert.Gnark.Total.{
  g1-Keeps, new_reader-IsAt, inner_slices-Keeps, g2-Keeps, scalars-Keeps, g1_points-Keeps,
}
use groth16_verifier_program.Groth16.Constants.{proof_size, vk_body_len}
use groth16_verifier_program.Convert.Gnark.ParseKey.{after_head, after_ic}
use groth16_verifier_program.Convert.Wire.Proof.{
  AreProofPoints, proof_bytes, new_proof_lem, proof_elements-new_proof,
}
use groth16_verifier_program.Convert.Wire.Body.{AreValid, key_body}
use groth16_verifier_program.Convert.Ark.{Ark, IsArk, IsValid}
use groth16_verifier_program.Common.{
  ◌>>◌, Bytes, All, Yields, Result, ◌≡◌, eq-Yields, Bool-cases, IsByte, ok, bind-Yields, List,
  Returns, ℕ, length, ◌+◌, ◌==◌, Yields-Returns, Yields-eq-ok, ◌*◌, inl, ensure-Yields, ◌≤◌, inr,
  leb, ◌∙◌, ◌-◌, refl,
}
use groth16_verifier_program.Convert.Errors.{ConvertError, Reason}
use groth16_verifier_program.Convert.Gnark.{
  parse_proof, parse_verifying_key, parse_public_witness, Reader, finish, new_reader, u32, g1,
  inner_slices, g2, ensure_remaining, scalars, g1_points,
}
use groth16_verifier_program.Convert.Wire.{
  key_elements, new_key, new_proof, proof_elements, OnChainKey, KeyElements, OnChainProof,
  ProofElements,
}
use groth16_verifier_program.Convert.Gnark.Safety.{
  IsAt, then-Keeps, u32-Keeps, finish-Yields, ensure_remaining-Yields,
}

module _ (ark : Ark) (law : IsArk ark) where
  open ark use {Fr, G1, G2}

  abbrev Valid₁ : G1.Point → Type 0
  Valid₁ p = IsValid G1 p

  abbrev Valid₂ : G2.Point → Type 0
  Valid₂ p = IsValid G2 p

  -- The key of some valid elements.
  abbrev IsKeyOfValid : OnChainKey → Type 0
  IsKeyOfValid key = (e : KeyElements ark) × AreValid ark e × (new_key ark e ≡ ok key)

  abbrev IsProofOfValid : OnChainProof → Type 0
  IsProofOfValid p = (e : ProofElements ark) × AreProofPoints ark e × (new_proof ark e ≡ ok p)

  new_key-Yields : (e : KeyElements ark) → AreValid ark e → Yields IsKeyOfValid (new_key ark e)
  new_key-Yields e v = elim (Bool-cases (length e.ic == 0)) [
    | inl z ↦ eq-Yields IsKeyOfValid (new_key ark e) _ (new_key_lem ark law e) (rw z tt)
    | inr z ↦ elim (Bool-cases (leb (length e.ic) 152)) [
      | inl fits ↦
          let q = new_key_lem ark law e ∙ rw (z, fits) refl in
          eq-Yields IsKeyOfValid (new_key ark e)
            (ok (record { body = key_body ark e; num_public_inputs = length e.ic - 1 })) q (e, v, q)
      | inr big ↦ eq-Yields IsKeyOfValid (new_key ark e) _ (new_key_lem ark law e) (rw (z, big) tt)
    ]
  ]

  new_proof-Yields :
      (e : ProofElements ark) → AreProofPoints ark e → Yields IsProofOfValid (new_proof ark e)
  new_proof-Yields e v =
      eq-Yields IsProofOfValid (new_proof ark e) (ok (record { bytes = proof_bytes ark e }))
        (new_proof_lem ark law e) (e, v, new_proof_lem ark law e)

  finish-then :
      {B : Type 0} (Q : B → Type 0) (r : Reader) (m : Result ConvertError B)
      → IsAt r
      → Yields Q m
      → Yields Q (finish r >> m)
  finish-then Q r m at h =
      bind-Yields (λ (u : Unit {0}). Unit {0}) Q (finish r) (λ _. m) (finish-Yields r at) (λ _ _. h)

  parse_proof-Yields :
      (bytes : Bytes) → All IsByte bytes → Yields IsProofOfValid (parse_proof ark bytes)
  unfolding parse_proof
  parse_proof-Yields bytes h =
      let Q = IsProofOfValid in
      let r₀ : Reader = new_reader bytes in
      then-Keeps Valid₁ Q (g1 ark r₀) _ (g1-Keeps ark law r₀ (new_reader-IsAt bytes h))
        (λ a r₁ i₁ va. then-Keeps Valid₂ Q (g2 ark r₁) _ (g2-Keeps ark law r₁ i₁) (λ b r₂ i₂ vb.
          then-Keeps Valid₁ Q (g1 ark r₂) _ (g1-Keeps ark law r₂ i₂) (λ c r₃ i₃ vc.
            then-Keeps (λ (n : ℕ). Unit {0}) Q (u32 r₃) _ (u32-Keeps r₃ i₃)
              (λ n r₄ i₄ _.
                ensure-Yields Q (n == 0) (ConvertError.unsupported Reason.commitments) _ (λ _.
                  then-Keeps Valid₁ Q (g1 ark r₄) _ (g1-Keeps ark law r₄ i₄) (λ _ r₅ i₅ _.
                    finish-then Q r₅ (new_proof ark (record { a = a; b = b; c = c })) i₅ (
                      new_proof-Yields (record { a = a; b = b; c = c })
                        (record { a = va; b = vb; c = vc }))))))))

  parse_public_witness-Yields :
      (bytes : Bytes)
      → All IsByte bytes
      → Yields (λ (ss : List Fr.Element). Unit {0}) (parse_public_witness ark bytes)
  unfolding parse_public_witness
  parse_public_witness-Yields bytes h =
      let Q = λ (ss : List Fr.Element). Unit {0} in
      let N = λ (n : ℕ). Unit {0} in
      let r₀ : Reader = new_reader bytes in
      then-Keeps N Q (u32 r₀) _ (u32-Keeps r₀ (new_reader-IsAt bytes h)) (λ public r₁ i₁ _.
        then-Keeps N Q (u32 r₁) _ (u32-Keeps r₁ i₁) (λ secret r₂ i₂ _.
          ensure-Yields Q (secret == 0) (ConvertError.unsupported Reason.secret_inputs) _ (λ _.
            then-Keeps N Q (u32 r₂) _ (u32-Keeps r₂ i₂) (λ len r₃ i₃ _.
              ensure-Yields Q (len == public) (ConvertError.unsupported Reason.length_disagrees) _
                (λ _.
                  bind-Yields (λ (u : Unit {0}). r₃.pos + len * 32 ≤ length r₃.bytes) Q
                    (ensure_remaining r₃ len 32) _ (ensure_remaining-Yields r₃ len 32 i₃)
                    (λ _ _.
                      then-Keeps (λ (ss : List Fr.Element). length ss ≡ len) Q (scalars ark len r₃)
                        _ (scalars-Keeps ark law len r₃ i₃)
                        (λ ss r₄ i₄ _. finish-then Q r₄ (ok ss) i₄ tt)))))))

  -- The end of `parse_verifying_key`, after the table.
  key_end-Yields :
      (e : KeyElements ark) (r : Reader)
      → IsAt r
      → AreValid ark e
      → Yields IsKeyOfValid (after_ic ark law e r)
  key_end-Yields e r i v =
      let Q = IsKeyOfValid in
      let N = λ (n : ℕ). Unit {0} in
      then-Keeps N Q (u32 r) _ (u32-Keeps r i) (λ outer r₁ i₁ _.
        then-Keeps (λ (u : Unit {0}). Unit {0}) Q (inner_slices outer r₁) _
          (inner_slices-Keeps outer r₁ i₁)
          (λ _ r₂ i₂ _. then-Keeps N Q (u32 r₂) _ (u32-Keeps r₂ i₂) (λ keys r₃ i₃ _.
            ensure-Yields Q (keys == 0) (ConvertError.unsupported Reason.commitment_keys) _
              (λ _. finish-then Q r₃ (new_key ark e) i₃ (new_key-Yields e v)))))

  key_table-Yields :
      (alpha : G1.Point) (beta gamma delta : G2.Point) (r : Reader)
      → IsAt r
      → IsValid G1 alpha
      → IsValid G2 beta
      → IsValid G2 gamma
      → IsValid G2 delta
      → Yields IsKeyOfValid (after_head ark law alpha beta gamma delta r)
  key_table-Yields alpha beta gamma delta r i va vb vg vd =
      let Q = IsKeyOfValid in
      then-Keeps (λ (n : ℕ). Unit {0}) Q (u32 r) _ (u32-Keeps r i)
        (λ n r₁ i₁ _.
          bind-Yields (λ (u : Unit {0}). r₁.pos + n * 32 ≤ length r₁.bytes) Q
            (ensure_remaining r₁ n 32) _ (ensure_remaining-Yields r₁ n 32 i₁)
            (λ _ _.
              ensure-Yields Q (leb n 152) (ConvertError.too_many_public_inputs (n - 1)) _ (λ _.
                then-Keeps (λ (ps : List G1.Point). (length ps ≡ n) × All Valid₁ ps) Q
                  (g1_points ark n r₁) _ (g1_points-Keeps ark law n r₁ i₁)
                  (λ ps r₂ i₂ (_, vs).
                    key_end-Yields
                      (record { alpha = alpha; beta = beta; gamma = gamma; delta = delta; ic = ps })
                      r₂ i₂ (record { alpha = va; beta = vb; gamma = vg; delta = vd; ic = vs })))))

  parse_verifying_key-Yields :
      (bytes : Bytes) → All IsByte bytes → Yields IsKeyOfValid (parse_verifying_key ark bytes)
  unfolding parse_verifying_key
  parse_verifying_key-Yields bytes h =
      let Q = IsKeyOfValid in
      let r₀ : Reader = new_reader bytes in
      then-Keeps Valid₁ Q (g1 ark r₀) _ (g1-Keeps ark law r₀ (new_reader-IsAt bytes h))
        (λ a r₁ i₁ va. then-Keeps Valid₁ Q (g1 ark r₁) _ (g1-Keeps ark law r₁ i₁) (λ _ r₂ i₂ _.
          then-Keeps Valid₂ Q (g2 ark r₂) _ (g2-Keeps ark law r₂ i₂) (λ b r₃ i₃ vb.
            then-Keeps Valid₂ Q (g2 ark r₃) _ (g2-Keeps ark law r₃ i₃) (λ g r₄ i₄ vg.
              then-Keeps Valid₁ Q (g1 ark r₄) _ (g1-Keeps ark law r₄ i₄) (λ _ r₅ i₅ _.
                then-Keeps Valid₂ Q (g2 ark r₅) _ (g2-Keeps ark law r₅ i₅)
                  (λ d r₆ i₆ vd. key_table-Yields a b g d r₆ i₆ va vb vg vd))))))

  -- The three parsers return, with a value or an error, for every string of bytes: no slice is out of
  -- range, no position passes the end, and the flag's match has no other case.
  pub parsers_return :
      (bytes : Bytes)
      → All IsByte bytes
      → Returns (parse_verifying_key ark bytes)
        × Returns (parse_proof ark bytes)
        × Returns (parse_public_witness ark bytes)
  parsers_return bytes h = (
    Yields-Returns IsKeyOfValid (parse_verifying_key ark bytes)
        (parse_verifying_key-Yields bytes h),
    Yields-Returns IsProofOfValid (parse_proof ark bytes) (parse_proof-Yields bytes h),
    Yields-Returns (λ (ss : List Fr.Element). Unit {0}) (parse_public_witness ark bytes)
        (parse_public_witness-Yields bytes h),
  )

  -- A key that was parsed, from whatever bytes, is of the on-chain layout, and its body decodes, to valid
  -- elements.
  pub parse_verifying_key-AreValid :
      (bytes : Bytes) (key : OnChainKey)
      → All IsByte bytes
      → parse_verifying_key ark bytes ≡ ok key
      → (e : KeyElements ark) × AreValid ark e
        × (key_elements ark key ≡ ok e)
        × (length e.ic ≡ key.num_public_inputs + 1)
        × (length key.body ≡ vk_body_len key.num_public_inputs)
  parse_verifying_key-AreValid bytes key h q =
      let (e, v, made) =
        Yields-eq-ok IsKeyOfValid (parse_verifying_key ark bytes) key
          (parse_verifying_key-Yields bytes h) q in
      let (back, n, l) = key_elements-new_key ark law e key v made in (e, v, back, n, l)

  -- A proof that was parsed, from whatever bytes, has 256 bytes, which decode, to valid points.
  pub parse_proof-AreProofPoints :
      (bytes : Bytes) (p : OnChainProof)
      → All IsByte bytes
      → parse_proof ark bytes ≡ ok p
      → (e : ProofElements ark) × AreProofPoints ark e
        × (length p.bytes ≡ proof_size)
        × (proof_elements ark p ≡ ok e)
  parse_proof-AreProofPoints bytes p h q =
      let (e, v, made) =
        Yields-eq-ok IsProofOfValid (parse_proof ark bytes) p (parse_proof-Yields bytes h) q in
      let (l, back) = proof_elements-new_proof ark law e p v made in (e, v, l, back)
