-- ===== src/Convert/Wire/Body.antt =====
-- The key's elements and the body they make up: the writer of `OnChainKey::new`, and what
-- `decode_body` reads.
use groth16_verifier_program.Convert.Errors.{ConvertError}
use groth16_verifier_program.Groth16.Proof.Views.{field}
use groth16_verifier_program.Convert.Wire.Points.{
  g1_bytes, g2_bytes, length-g1_bytes, g1_to_bytes_lem, length-g2_bytes, g2_to_bytes_lem,
}
use groth16_verifier_program.Convert.Wire.{KeyElements, write_key, write_ic}
use groth16_verifier_program.Common.{
  List, Bytes, length, ℕ, ◌∷◌, ◌≡◌, replicate, All, ◌++◌, [], ◌*◌, ◌+◌, ok, append_assoc, arith,
  length-append, drop-append, refl, sym, copy_at_next, take-append, suc, ◌∙◌, ap, ◌≤◌, take_all,
  drop-append_le, take-append_le, drop, length-drop,
}
use groth16_verifier_program.Convert.Ark.{Ark, IsArk, IsValid}

module _ (ark : Ark) where
  open ark use {G1, G2}

  -- `IC₀ ‖ IC₁ ‖ …`.
  abbrev pub ic_bytes : List G1.Point → Bytes
  ic_bytes [] = []
  ic_bytes (p ∷ rest) = g1_bytes ark p ++ ic_bytes rest

  -- `α ‖ −β ‖ −γ ‖ −δ`.
  abbrev pub head_bytes : KeyElements ark → Bytes
  head_bytes e =
      ((g1_bytes ark e.alpha ++ g2_bytes ark (G2.neg e.beta)) ++ g2_bytes ark (G2.neg e.gamma))
      ++ g2_bytes ark (G2.neg e.delta)

  abbrev pub key_body : KeyElements ark → Bytes
  key_body e = head_bytes e ++ ic_bytes e.ic

  -- Every element is the identity or a point of its group.
  pub record AreValid (e : KeyElements ark) : Type 0 where
    pub alpha : IsValid G1 e.alpha
    pub beta : IsValid G2 e.beta
    pub gamma : IsValid G2 e.gamma
    pub delta : IsValid G2 e.delta
    pub ic : All (λ (p : G1.Point). IsValid G1 p) e.ic

module _ (ark : Ark) (law : IsArk ark) where
  open ark use {G1, G2}

  pub length-ic_bytes : (ps : List G1.Point) → length (ic_bytes ark ps) ≡ 64 * length ps
  length-ic_bytes [] = refl
  length-ic_bytes (p ∷ rest) = omega (
    arith,
    length-append (g1_bytes ark p) (ic_bytes ark rest),
    length-g1_bytes ark law p,
    length-ic_bytes rest,
  )

  pub length-head_bytes : (e : KeyElements ark) → length (head_bytes ark e) ≡ 448
  length-head_bytes e =
      let al = g1_bytes ark e.alpha in
      let nb = g2_bytes ark (G2.neg e.beta) in
      let ng = g2_bytes ark (G2.neg e.gamma) in
      let nd = g2_bytes ark (G2.neg e.delta) in
      omega (
        arith,
        length-append ((al ++ nb) ++ ng) nd,
        length-append (al ++ nb) ng,
        length-append al nb,
        length-g1_bytes ark law e.alpha,
        length-g2_bytes ark law (G2.neg e.beta),
        length-g2_bytes ark law (G2.neg e.gamma),
        length-g2_bytes ark law (G2.neg e.delta),
      )

  write_ic_lem :
      (i : ℕ) (done : Bytes) (ps : List G1.Point)
      → length done ≡ 448 + i * 64
      → write_ic ark i (done ++ replicate (64 * length ps) 0) ps ≡ ok (done ++ ic_bytes ark ps)
  unfolding write_ic replicate
  write_ic_lem i done [] h = refl
  write_ic_lem i done (p ∷ rest) h =
      let b = g1_bytes ark p in
      let l = length-g1_bytes ark law p in
      rw
        (
          g1_to_bytes_lem ark law p,
          copy_at_next {E = ConvertError} done b (448 + i * 64) (448 + i * 64 + 64)
              (64 * suc (length rest)) (64 * length rest) (omega (arith, h)) (omega (arith, l))
              (omega (arith, l)),
        )
        (write_ic_lem (i + 1) (done ++ b) rest (omega (arith, h, l, length-append done b))
          ∙ ap ok (append_assoc done b (ic_bytes ark rest)))

  pub write_key_lem :
      (e : KeyElements ark)
      → write_key ark (replicate (448 + 64 * length e.ic) 0) e ≡ ok (key_body ark e)
  unfolding write_key
  write_key_lem e =
      let m = 64 * length e.ic in
      let al = g1_bytes ark e.alpha in
      let nb = g2_bytes ark (G2.neg e.beta) in
      let ng = g2_bytes ark (G2.neg e.gamma) in
      let nd = g2_bytes ark (G2.neg e.delta) in
      let la = length-g1_bytes ark law e.alpha in
      let lb = length-g2_bytes ark law (G2.neg e.beta) in
      let lg = length-g2_bytes ark law (G2.neg e.gamma) in
      let ld = length-g2_bytes ark law (G2.neg e.delta) in
      let lab = length-append al nb in
      let labg = length-append (al ++ nb) ng in
      rw
        (
          g1_to_bytes_lem ark law e.alpha,
          copy_at_next {E = ConvertError} [] al 0 64 (448 + m) (384 + m) refl (omega (arith, la))
              (omega (arith, la)),
          g2_to_bytes_lem ark law (G2.neg e.beta),
          copy_at_next {E = ConvertError} al nb 64 192 (384 + m) (256 + m) (omega (arith, la))
              (omega (arith, lb)) (omega (arith, lb)),
          g2_to_bytes_lem ark law (G2.neg e.gamma),
          copy_at_next {E = ConvertError} (al ++ nb) ng 192 320 (256 + m) (128 + m)
              (omega (arith, la, lb, lab)) (omega (arith, lg)) (omega (arith, lg)),
          g2_to_bytes_lem ark law (G2.neg e.delta),
          copy_at_next {E = ConvertError} ((al ++ nb) ++ ng) nd 320 448 (128 + m) m
              (omega (arith, la, lb, lg, lab, labg)) (omega (arith, ld)) (omega (arith, ld)),
        )
        (write_ic_lem 0 (head_bytes ark e) e.ic (omega (arith, length-head_bytes e)))

  pub length-key_body : (e : KeyElements ark) → length (key_body ark e) ≡ 448 + 64 * length e.ic
  length-key_body e = omega (
    arith,
    length-append (head_bytes ark e) (ic_bytes ark e.ic),
    length-head_bytes e,
    length-ic_bytes e.ic,
  )

-- The bytes `b` between two others are what a view of that place shows.
pub field_mid :
    (n offset : ℕ) (pre b post : Bytes)
    → length pre ≡ offset
    → length b ≡ n
    → field n offset ((pre ++ b) ++ post) ≡ b
field_mid n offset pre b post h k =
    rw (append_assoc pre b post, drop-append offset pre (b ++ post) (sym h))
      (take-append n b post (sym k))

pub field_last :
    (n offset : ℕ) (pre b : Bytes)
    → length pre ≡ offset
    → length b ≡ n
    → field n offset (pre ++ b) ≡ b
field_last n offset pre b h k =
    rw (drop-append offset pre b (sym h)) (take_all n b (omega (arith, k)))

pub field_front :
    (n offset : ℕ) (xs ys : Bytes)
    → offset + n ≤ length xs
    → field n offset (xs ++ ys) ≡ field n offset xs
field_front n offset xs ys h =
    rw (drop-append_le offset xs ys (omega (arith, h)))
      (take-append_le n (drop offset xs) ys (omega (arith, h, length-drop offset xs)))
