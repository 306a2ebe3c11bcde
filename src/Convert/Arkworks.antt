-- ===== src/Convert/Arkworks.antt =====
-- tools/convert/src/arkworks.rs: the key and the proof of `ark_groth16`, to the on-chain bytes and
-- back. The two structures are that crate's.
use groth16_verifier_program.Convert.Wire.RoundTrip.{new_key_lem, key_elements-new_key}
use groth16_verifier_program.Groth16.Constants.{vk_body_len, proof_size}
use groth16_verifier_program.Convert.Errors.{ConvertError}
use groth16_verifier_program.Convert.Wire.Proof.{
  AreProofPoints, proof_bytes, new_proof_lem, proof_elements-new_proof,
}
use groth16_verifier_program.Convert.Wire.Body.{AreValid, key_body}
use groth16_verifier_program.Convert.Wire.{
  OnChainKey, OnChainProof, key_elements, new_key, new_proof, proof_elements,
  public_inputs_to_bytes, KeyElements, ProofElements,
}
use groth16_verifier_program.Convert.Ark.{Ark, IsArk}
use groth16_verifier_program.Common.{
  ◌>>=◌, Result, List, ◌≡◌, Bytes, ◌≤◌, length, ok, ◌-◌, ◌==◌, refl, false, arith, leb, true, ◌∙◌,
}

pub record ArkVerifyingKey (ark : Ark) : Type 0 where
  pub alpha_g1 : ark.G1.Point
  pub beta_g2 : ark.G2.Point
  pub gamma_g2 : ark.G2.Point
  pub delta_g2 : ark.G2.Point
  pub gamma_abc_g1 : List ark.G1.Point

pub record ArkProof (ark : Ark) : Type 0 where
  pub a : ark.G1.Point
  pub b : ark.G2.Point
  pub c : ark.G1.Point

module _ (ark : Ark) where
  unfoldable pub key : ArkVerifyingKey ark → Result ConvertError OnChainKey
  key vk = new_key ark (record {
    alpha = vk.alpha_g1;
    beta = vk.beta_g2;
    gamma = vk.gamma_g2;
    delta = vk.delta_g2;
    ic = vk.gamma_abc_g1;
  })

  unfoldable pub proof : ArkProof ark → Result ConvertError OnChainProof
  proof p = new_proof ark (record { a = p.a; b = p.b; c = p.c })

  unfoldable pub public_inputs : List ark.Fr.Element → Result ConvertError (List Bytes)
  public_inputs inputs = public_inputs_to_bytes ark inputs

  unfoldable pub key_from_on_chain : OnChainKey → Result ConvertError (ArkVerifyingKey ark)
  key_from_on_chain key = do
    e ← key_elements ark key
    ok (record {
      alpha_g1 = e.alpha;
      beta_g2 = e.beta;
      gamma_g2 = e.gamma;
      delta_g2 = e.delta;
      gamma_abc_g1 = e.ic;
    })

  unfoldable pub proof_from_on_chain : OnChainProof → Result ConvertError (ArkProof ark)
  proof_from_on_chain p = do e ← proof_elements ark p; ok (record { a = e.a; b = e.b; c = e.c })

module _ (ark : Ark) (law : IsArk ark) where
  -- An arkworks key whose points are valid, and which has one to 152 points in its table, is converted
  -- to a key of the layout, and comes back as it was.
  pub key_from_on_chain-key :
      (vk : ArkVerifyingKey ark)
      → AreValid ark (record {
        alpha = vk.alpha_g1;
        beta = vk.beta_g2;
        gamma = vk.gamma_g2;
        delta = vk.delta_g2;
        ic = vk.gamma_abc_g1;
      })
      → 1 ≤ length vk.gamma_abc_g1
      → length vk.gamma_abc_g1 ≤ 152
      → (onchain : OnChainKey) × (key ark vk ≡ ok onchain)
        × (length onchain.body ≡ vk_body_len onchain.num_public_inputs)
        × (key_from_on_chain ark onchain ≡ ok vk)
  unfolding key key_from_on_chain
  key_from_on_chain-key vk v l u =
      let e : KeyElements ark = record {
        alpha = vk.alpha_g1;
        beta = vk.beta_g2;
        gamma = vk.gamma_g2;
        delta = vk.delta_g2;
        ic = vk.gamma_abc_g1;
      } in
      let onchain : OnChainKey = record {
        body = key_body ark e;
        num_public_inputs = length e.ic - 1;
      } in
      let a : (length e.ic == 0) ≡ false = ground (arith, l) in
      let b : leb (length e.ic) 152 ≡ true = ground (arith, u) in
      let made : new_key ark e ≡ ok onchain = new_key_lem ark law e ∙ rw (a, b) refl in
      let (back, _, sized) = key_elements-new_key ark law e onchain v made in
      (onchain, made, sized, rw back refl)

  -- The same for a proof of valid points, which is converted to 256 bytes.
  pub proof_from_on_chain-proof :
      (p : ArkProof ark)
      → AreProofPoints ark (record { a = p.a; b = p.b; c = p.c })
      → (onchain : OnChainProof) × (proof ark p ≡ ok onchain)
        × (length onchain.bytes ≡ proof_size)
        × (proof_from_on_chain ark onchain ≡ ok p)
  unfolding proof proof_from_on_chain
  proof_from_on_chain-proof p v =
      let e : ProofElements ark = record { a = p.a; b = p.b; c = p.c } in
      let onchain : OnChainProof = record { bytes = proof_bytes ark e } in
      let made : new_proof ark e ≡ ok onchain = new_proof_lem ark law e in
      let (sized, back) = proof_elements-new_proof ark law e onchain v made in
      (onchain, made, sized, rw back refl)
