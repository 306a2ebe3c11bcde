-- ===== src/Convert/Wire/Points.antt =====
-- The bytes of a point, and which bytes are read back as a valid one.
use groth16_verifier_program.Groth16.Constants.{g2_size, g1_size}
use groth16_verifier_program.Convert.Wire.Coordinates.{
  fq2_bytes, length-fq2_bytes, fq_to_bytes_lem, fq2_to_bytes_lem, two_copies, fq2_from_bytes_iff,
  fq_from_bytes_iff, to_bytes_be-injective,
}
use groth16_verifier_program.Groth16.Scalar.Zero.{all_zero→replicate, all_zero-replicate}
use groth16_verifier_program.Groth16.Scalar.{all_zero}
use groth16_verifier_program.Common.{
  ℕ, Bytes, Result, length, Option, ◌≡◌, arith, if◌then◌else◌, replicate, ok, ◌*◌, ◌<◌, refl,
  Bool-cases, some, ◌||◌, ◌↔◌, ◌++◌, drop, ◌&&◌, take, slice_from, inl, slice, none, length-take,
  subst, length-drop, slice_from_lem, inr, sym, >>=-eq-ok, ap₂, ◌∙◌, take-append-drop, Option-cases,
  take-append, slice_front, ap, drop-append, take-replicate, drop-replicate, length-replicate,
  length-append,
}
use groth16_verifier_program.Common.{◌>>=◌}
use groth16_verifier_program.Convert.Ark.{Ark, IsArk, Affine, IsAffine, IsValid, Fq2}
use groth16_verifier_program.Convert.Wire.{
  g1_to_bytes, g2_to_bytes, g1_from_bytes, g2_from_bytes, checked_affine, fq2_from_bytes,
  fq_from_bytes,
}
use groth16_verifier_program.Convert.Errors.{ConvertError}

module _ {F : Type 0} (c : Affine F) (k : ℕ) (enc : F → Bytes) where
  -- `x ‖ y`, and zeros for the identity.
  abbrev pub coordinates : Option (F × F) → Bytes
  coordinates none = replicate (2 * k) 0
  coordinates (some (x, y)) = enc x ++ enc y

  abbrev pub point_bytes : c.Point → Bytes
  point_bytes p = coordinates (c.xy p)

-- Both curves at once: coordinates of k bytes.
module _ {F : Type 0} (c : Affine F) (origin : F) (law : IsAffine c origin) (k : ℕ)
    (enc : F → Bytes) (dec : Bytes → Result ConvertError F) where
  pub checked_affine-eq-ok : (p q : c.Point) → checked_affine c p ≡ ok q → (p ≡ q) × IsValid c q
  unfolding checked_affine
  checked_affine-eq-ok p q e =
      elim (Bool-cases (c.is_zero p || (c.is_on_curve p && c.is_in_correct_subgroup p))) [
        | inl good ↦
            let same : p ≡ q = cc (rw good at e) in
            (same, subst (λ (r : c.Point). IsValid c r) same good)
        | inr bad ↦ absurd (cc (rw bad at e))
      ]

  pub checked_affine_valid : (p : c.Point) → IsValid c p → checked_affine c p ≡ ok p
  unfolding checked_affine
  checked_affine_valid p v = rw v refl

  identity-IsValid : IsValid c c.identity
  identity-IsValid = ground (arith, law.is_zero-identity)

  -- The shape of `g1_from_bytes` and `g2_from_bytes`.
  abbrev pub read_point : Bytes → Result ConvertError c.Point
  read_point bytes = if all_zero bytes then ok c.identity else do
    xb ← slice bytes 0 k
    x ← dec xb
    yb ← slice_from bytes k
    y ← dec yb
    checked_affine c (c.new_unchecked x y)

  module _ (bytes : Bytes) (l : length bytes ≡ 2 * k) (pos : 0 < k)
      (dec_iff : (b : Bytes) (x : F) → length b ≡ k → (dec b ≡ ok x) ↔ (enc x ≡ b))
      (length-enc : (x : F) → length (enc x) ≡ k) (enc-origin : enc origin ≡ replicate k 0) where
    front : slice {E = ConvertError} bytes 0 k ≡ ok (take k bytes)
    front = slice_front bytes k (omega (arith, l))

    back : slice_from {E = ConvertError} bytes k ≡ ok (drop k bytes)
    back = slice_from_lem bytes k (omega (arith, l))

    length-front : length (take k bytes) ≡ k
    length-front = omega (arith, l, length-take k bytes)

    length-back : length (drop k bytes) ≡ k
    length-back = omega (arith, l, length-drop k bytes)

    pub read_point-eq-ok :
        (p : c.Point) → read_point bytes ≡ ok p → (point_bytes c k enc p ≡ bytes) × IsValid c p
    read_point-eq-ok p e = elim (Bool-cases (all_zero bytes)) [
      | inl zeros ↦
          let same : c.identity ≡ p = cc (rw zeros at e) in
          let z : bytes ≡ replicate (2 * k) 0 = rw l at (all_zero→replicate bytes zeros) in
          subst (λ (q : c.Point). (point_bytes c k enc q ≡ bytes) × IsValid c q) same
            (rw law.xy-identity (sym z), identity-IsValid)
      | inr other ↦
          let f = rw (other, front, back) at e in
          let (x, ex, f₁) = >>=-eq-ok (dec (take k bytes)) _ f in
          let (y, ey, f₂) = >>=-eq-ok (dec (drop k bytes)) _ f₁ in
          let (same, valid) = checked_affine-eq-ok (c.new_unchecked x y) p f₂ in
          let qx = (dec_iff (take k bytes) x length-front).0 ex in
          let qy = (dec_iff (drop k bytes) y length-back).0 ey in
          (
            subst (λ (q : c.Point). point_bytes c k enc q ≡ bytes) same
                (rw (law.xy-new x y)
                  (ap₂ (λ (a b : Bytes). a ++ b) qx qy ∙ take-append-drop k bytes)),
            valid,
          )
    ]

    -- A valid point of the curve does not have the bytes of the identity.
    not_zeros :
        (x y : F)
        → enc x ++ enc y ≡ replicate (2 * k) 0
        → IsValid c (c.new_unchecked x y)
        → ((u v : F) → enc u ≡ enc v → u ≡ v)
        → ⊥
    not_zeros x y z valid injective =
        let a : enc x ≡ replicate k 0 =
          sym (take-append k (enc x) (enc y) (sym (length-enc x)))
          ∙ ap (λ (b : Bytes). take k b) z
          ∙ take-replicate {A = ℕ} k (2 * k) 0 (omega arith) in
        let b : enc y ≡ replicate k 0 =
          sym (drop-append k (enc x) (enc y) (sym (length-enc x)))
          ∙ ap (λ (b : Bytes). drop k b) z
          ∙ drop-replicate {A = ℕ} k (2 * k) k 0 (omega arith) in
        let ex : x ≡ origin = injective x origin (a ∙ sym enc-origin) in
        let ey : y ≡ origin = injective y origin (b ∙ sym enc-origin) in
        let v = rw (ex, ey) at valid in
        cc (rw (law.is_zero-new origin origin, law.origin_off_curve) at v)

    pub read_point-bytes :
        ((u v : F) → enc u ≡ enc v → u ≡ v)
        → (p : c.Point) → point_bytes c k enc p ≡ bytes
        → IsValid c p
        → read_point bytes ≡ ok p
    read_point-bytes injective p e valid = elim (Option-cases (c.xy p)) [
      | inl at_infinity ↦
          let z : replicate (2 * k) 0 ≡ bytes = rw at_infinity at e in
          rw (← z, all_zero-replicate (2 * k)) (ap ok (sym (law.eq_identity p at_infinity)))
      | inr ((x, y), q) ↦
          let z : enc x ++ enc y ≡ bytes = rw q at e in
          let same : p ≡ c.new_unchecked x y = law.eq-new p x y q in
          let v : IsValid c (c.new_unchecked x y) =
            subst (λ (r : c.Point). IsValid c r) same valid in
          elim (Bool-cases (all_zero bytes)) [
            | inl zeros ↦
                absurd (not_zeros x y (z ∙ rw l at (all_zero→replicate bytes zeros)) v injective)
            | inr other ↦
                let a : enc x ≡ take k bytes =
                  rw (← z) (sym (take-append k (enc x) (enc y) (sym (length-enc x)))) in
                let b : enc y ≡ drop k bytes =
                  rw (← z) (sym (drop-append k (enc x) (enc y) (sym (length-enc x)))) in
                rw
                  (
                    other,
                    front,
                    back,
                    (dec_iff (take k bytes) x length-front).1 a,
                    (dec_iff (drop k bytes) y length-back).1 b,
                  )
                  (checked_affine_valid (c.new_unchecked x y) v ∙ ap ok (sym same))
          ]
    ]

module _ (ark : Ark) where
  -- The on-chain bytes of a point: `x ‖ y`, or zeros.
  abbrev pub g1_bytes : ark.G1.Point → Bytes
  g1_bytes p = point_bytes ark.G1 32 ark.Fq.to_bytes_be p

  abbrev pub g2_bytes : ark.G2.Point → Bytes
  g2_bytes p = point_bytes ark.G2 64 (fq2_bytes ark) p

module _ (ark : Ark) (law : IsArk ark) where
  open ark use {Fq, G1, G2}

  fq2_bytes-injective : (x y : Fq2 Fq.Element) → fq2_bytes ark x ≡ fq2_bytes ark y → x ≡ y
  fq2_bytes-injective x y e =
      let l = length-fq2_bytes ark law in
      cc (
        (fq2_from_bytes_iff ark law (fq2_bytes ark x) x (l x)).1 refl,
        (fq2_from_bytes_iff ark law (fq2_bytes ark x) y (l x)).1 (sym e),
      )

  fq2_bytes-zero : fq2_bytes ark (record { c0 = law.zero_fq; c1 = law.zero_fq }) ≡ replicate 64 0
  unfolding replicate
  fq2_bytes-zero = rw law.zero_fq-bytes refl

  -- A string of 64 bytes is read as a point of G1 exactly if it is that point's encoding and the point
  -- is the identity or a point of the curve and its subgroup. So no other bytes stand for a point.
  pub g1_from_bytes_iff :
      (bytes : Bytes) (p : G1.Point)
      → length bytes ≡ g1_size
      → (g1_from_bytes ark bytes ≡ ok p) ↔ ((g1_bytes ark p ≡ bytes) × IsValid G1 p)
  unfolding g1_from_bytes
  g1_from_bytes_iff bytes p l =
      let dec_iff =
        λ (b : Bytes) (x : Fq.Element) (_ : length b ≡ 32). fq_from_bytes_iff ark law b x in
      (
        λ e.
            read_point-eq-ok G1 law.zero_fq law.g1 32 Fq.to_bytes_be (fq_from_bytes ark) bytes l
              (omega arith) dec_iff law.fq.length-to_bytes_be law.zero_fq-bytes p e,
        λ (e, v).
            read_point-bytes G1 law.zero_fq law.g1 32 Fq.to_bytes_be (fq_from_bytes ark) bytes l
              (omega arith) dec_iff law.fq.length-to_bytes_be law.zero_fq-bytes
              (to_bytes_be-injective Fq law.fq) p e v,
      )

  -- The same for 128 bytes and G2.
  pub g2_from_bytes_iff :
      (bytes : Bytes) (p : G2.Point)
      → length bytes ≡ g2_size
      → (g2_from_bytes ark bytes ≡ ok p) ↔ ((g2_bytes ark p ≡ bytes) × IsValid G2 p)
  unfolding g2_from_bytes
  g2_from_bytes_iff bytes p l =
      let zero₂ : Fq2 Fq.Element = record { c0 = law.zero_fq; c1 = law.zero_fq } in
      let dec_iff =
        λ (b : Bytes) (x : Fq2 Fq.Element) (n : length b ≡ 64). fq2_from_bytes_iff ark law b x n in
      (
        λ e.
            read_point-eq-ok G2 zero₂ law.g2 64 (fq2_bytes ark) (fq2_from_bytes ark) bytes l
              (omega arith) dec_iff (length-fq2_bytes ark law) fq2_bytes-zero p e,
        λ (e, v).
            read_point-bytes G2 zero₂ law.g2 64 (fq2_bytes ark) (fq2_from_bytes ark) bytes l
              (omega arith) dec_iff (length-fq2_bytes ark law) fq2_bytes-zero fq2_bytes-injective p
              e v,
      )

  pub length-g1_bytes : (p : G1.Point) → length (g1_bytes ark p) ≡ 64
  length-g1_bytes p = elim (Option-cases (G1.xy p)) [
    | inl inf ↦ rw inf (length-replicate {A = ℕ} 64 0)
    | inr ((x, y), e) ↦ rw e (
        omega (
          arith,
          length-append (Fq.to_bytes_be x) (Fq.to_bytes_be y),
          law.fq.length-to_bytes_be x,
          law.fq.length-to_bytes_be y,
        ))
  ]

  pub length-g2_bytes : (p : G2.Point) → length (g2_bytes ark p) ≡ 128
  length-g2_bytes p = elim (Option-cases (G2.xy p)) [
    | inl inf ↦ rw inf (length-replicate {A = ℕ} 128 0)
    | inr ((x, y), e) ↦ rw e (
        omega (
          arith,
          length-append (fq2_bytes ark x) (fq2_bytes ark y),
          length-fq2_bytes ark law x,
          length-fq2_bytes ark law y,
        ))
  ]

  pub g1_to_bytes_lem : (p : G1.Point) → g1_to_bytes ark p ≡ ok (g1_bytes ark p)
  unfolding g1_to_bytes
  g1_to_bytes_lem p = elim (Option-cases (G1.xy p)) [
    | inl inf ↦ rw (inf, g1_to_bytes) refl
    | inr ((x, y), e) ↦
        rw (e, g1_to_bytes, fq_to_bytes_lem ark law x, fq_to_bytes_lem ark law y)
          (two_copies ark law 32 (Fq.to_bytes_be x) (Fq.to_bytes_be y) (law.fq.length-to_bytes_be x)
            (law.fq.length-to_bytes_be y))
  ]

  pub g2_to_bytes_lem : (p : G2.Point) → g2_to_bytes ark p ≡ ok (g2_bytes ark p)
  unfolding g2_to_bytes
  g2_to_bytes_lem p = elim (Option-cases (G2.xy p)) [
    | inl inf ↦ rw (inf, g2_to_bytes) refl
    | inr ((x, y), e) ↦
        rw (e, g2_to_bytes, fq2_to_bytes_lem ark law x, fq2_to_bytes_lem ark law y)
          (two_copies ark law 64 (fq2_bytes ark x) (fq2_bytes ark y) (length-fq2_bytes ark law x)
            (length-fq2_bytes ark law y))
  ]
