-- ===== src/Convert/Wire/Table.antt =====
-- The table `IC₀..ICₙ` of a key's body, as `decode_body` reads it.
use groth16_verifier_program.Convert.Wire.Points.{g1_bytes, length-g1_bytes, g1_from_bytes_iff}
use groth16_verifier_program.Groth16.Proof.Views.{field, fixed_lem, length-field}
use groth16_verifier_program.Convert.Wire.Body.{ic_bytes, field_mid}
use groth16_verifier_program.Common.{
  Bytes, ℕ, ◌+◌, List, ◌≡◌, ◌*◌, length, ◌≤◌, ◌++◌, ok, All, drop, ◌∷◌, [], sym, drop_all, arith,
  ◌∙◌, append_assoc, suc, length-append, >>=-eq-ok, drop-drop, refl, ap₂, take-append-drop, ap,
  zero,
}
use groth16_verifier_program.Convert.Wire.{read_ic, g1_from_bytes}
use groth16_verifier_program.Convert.Ark.{Ark, IsArk, IsValid}
use groth16_verifier_program.Groth16.VerifyingKey.{ic, VerifyingKey, unchecked}

module _ (ark : Ark) (law : IsArk ark) where
  open ark use {G1, G2}

  -- An entry of the table lies within the body.
  ic_at :
      (vk : VerifyingKey unchecked) (i : ℕ)
      → 448 + i * 64 + 64 ≤ length vk.body
      → ic vk i ≡ ok (field 64 (448 + i * 64) vk.body)
  unfolding ic
  ic_at vk i h = fixed_lem 64 (448 + i * 64) vk.body h

  pub read_ic-bytes :
      (vk : VerifyingKey unchecked) (done : Bytes) (ps : List G1.Point) (i : ℕ)
      → vk.body ≡ done ++ ic_bytes ark ps
      → length done ≡ 448 + i * 64
      → All (λ (p : G1.Point). IsValid G1 p) ps
      → read_ic ark vk (length ps) i ≡ ok ps
  unfolding read_ic
  read_ic-bytes vk done [] i e h v = refl
  read_ic-bytes vk done (p ∷ rest) i e h v =
      let b = g1_bytes ark p in
      let t = ic_bytes ark rest in
      let l = length-g1_bytes ark law p in
      let whole : vk.body ≡ (done ++ b) ++ t = e ∙ sym (append_assoc done b t) in
      let room : length vk.body ≡ length done + (64 + length t) =
        rw whole (omega (arith, length-append (done ++ b) t, length-append done b, l)) in
      let shown : field 64 (448 + i * 64) vk.body ≡ b =
        rw whole (field_mid 64 (448 + i * 64) done b t h l) in
      rw
        (
          ic_at vk i (omega (arith, room, h)),
          shown,
          (g1_from_bytes_iff ark law b p l).1 (refl, v.0),
          read_ic-bytes vk (done ++ b) rest (i + 1) whole
              (omega (arith, length-append done b, h, l)) v.1,
        )
        refl

  pub read_ic-eq-ok :
      (vk : VerifyingKey unchecked) (count i : ℕ) (ps : List G1.Point)
      → 448 + i * 64 + 64 * count ≡ length vk.body
      → read_ic ark vk count i ≡ ok ps
      → (ic_bytes ark ps ≡ drop (448 + i * 64) vk.body)
        × (length ps ≡ count)
        × All (λ (p : G1.Point). IsValid G1 p) ps
  unfolding read_ic
  read_ic-eq-ok vk zero i ps h e =
      let q : [] ≡ ps = cc e in
      rw (← q) (sym (drop_all (448 + i * 64) vk.body (omega (arith, h))), refl, tt)
  read_ic-eq-ok vk (suc count) i ps h e =
      let off = 448 + i * 64 in
      let f = rw (ic_at vk i (omega (arith, h))) at e in
      let (p, ep, f₁) = >>=-eq-ok (g1_from_bytes ark (field 64 off vk.body)) _ f in
      let (rest, er, f₂) = >>=-eq-ok (read_ic ark vk count (i + 1)) _ f₁ in
      let l = length-field 64 off vk.body (omega (arith, h)) in
      let (qp, vp) = (g1_from_bytes_iff ark law (field 64 off vk.body) p l).0 ep in
      let (qr, lr, vr) = read_ic-eq-ok vk count (i + 1) rest (omega (arith, h)) er in
      let q : p ∷ rest ≡ ps = cc f₂ in
      let d : drop 64 (drop off vk.body) ≡ drop (448 + (i + 1) * 64) vk.body =
        drop-drop off 64 (448 + (i + 1) * 64) vk.body (omega arith) in
      rw (← q) (
        ap₂ (λ (a b : Bytes). a ++ b) qp (qr ∙ sym d) ∙ take-append-drop 64 (drop off vk.body),
        ap suc lr,
        (vp, vr),
      )
