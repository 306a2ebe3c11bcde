-- ===== src/Convert/Wire/Safety.antt =====
-- Decoding never panics, and what it gives is valid.
use groth16_verifier_program.Groth16.Scalar.{all_zero}
use groth16_verifier_program.Convert.Wire.Points.{read_point}
use groth16_verifier_program.Convert.Errors.{ConvertError}
use groth16_verifier_program.Convert.Wire.Coordinates.{fr_to_bytes_lem, fq_to_bytes_lem, fq2_bytes}
use groth16_verifier_program.Convert.Wire.{
  g1_from_bytes, fr_from_bytes, fq2_from_bytes, g2_from_bytes, fq_from_bytes, checked_affine,
}
use groth16_verifier_program.Convert.Ark.{Ark, Affine, IsArk, IsAffine, Fq2, IsValid}
use groth16_verifier_program.Common.{
  ℕ, Bytes, length, Yields, Result, ◌≡◌, ◌*◌, Bool-cases, ◌||◌, slice_front, arith, bytes_eq, ◌&&◌,
  inl, slice_from_lem, inr, bind-Yields, take, length-take, drop, length-drop,
}

module _ {F : Type 0} (c : Affine F) (origin : F) (law : IsAffine c origin) (k : ℕ)
    (enc : F → Bytes) (dec : Bytes → Result ConvertError F)
    (dec-Yields : (b : Bytes) → length b ≡ k → Yields (λ (x : F). Unit {0}) (dec b)) where
  pub checked_affine-Yields :
      (p : c.Point) → Yields (λ (q : c.Point). IsValid c q) (checked_affine c p)
  unfolding checked_affine
  checked_affine-Yields p =
      elim (Bool-cases (c.is_zero p || (c.is_on_curve p && c.is_in_correct_subgroup p))) [
        | inl good ↦ rw good good
        | inr bad ↦ rw bad tt
      ]

  pub identity-IsValid : IsValid c c.identity
  identity-IsValid = ground (arith, law.is_zero-identity)

  pub read_point-Yields :
      (bytes : Bytes)
      → length bytes ≡ 2 * k
      → Yields (λ (q : c.Point). IsValid c q) (read_point c origin law k enc dec bytes)
  read_point-Yields bytes l = elim (Bool-cases (all_zero bytes)) [
    | inl zeros ↦ rw zeros identity-IsValid
    | inr other ↦
        rw
          (
            other,
            slice_front {E = ConvertError} bytes k (omega (arith, l)),
            slice_from_lem {E = ConvertError} bytes k (omega (arith, l)),
          )
          (bind-Yields (λ (x : F). Unit {0}) (λ (q : c.Point). IsValid c q) (dec (take k bytes)) _
            (dec-Yields (take k bytes) (omega (arith, l, length-take k bytes)))
            (λ x _.
              bind-Yields (λ (y : F). Unit {0}) (λ (q : c.Point). IsValid c q) (dec (drop k bytes))
                _ (dec-Yields (drop k bytes) (omega (arith, l, length-drop k bytes)))
                (λ y _. checked_affine-Yields (c.new_unchecked x y))))
  ]

module _ (ark : Ark) (law : IsArk ark) where
  open ark use {Fq, Fr, G1, G2}

  pub fq_from_bytes-Yields :
      (bytes : Bytes) → Yields (λ (x : Fq.Element). Unit {0}) (fq_from_bytes ark bytes)
  unfolding fq_from_bytes
  fq_from_bytes-Yields bytes =
      let m = Fq.from_be_bytes_mod_order bytes in
      rw (fq_to_bytes_lem ark law m) (elim (Bool-cases (bytes_eq (Fq.to_bytes_be m) bytes)) [
        | inl same ↦ rw same tt
        | inr other ↦ rw other tt
      ])

  pub fr_from_bytes-Yields :
      (bytes : Bytes) → Yields (λ (x : Fr.Element). Unit {0}) (fr_from_bytes ark bytes)
  unfolding fr_from_bytes
  fr_from_bytes-Yields bytes =
      let m = Fr.from_be_bytes_mod_order bytes in
      rw (fr_to_bytes_lem ark law m) (elim (Bool-cases (bytes_eq (Fr.to_bytes_be m) bytes)) [
        | inl same ↦ rw same tt
        | inr other ↦ rw other tt
      ])

  pub fq2_from_bytes-Yields :
      (bytes : Bytes)
      → length bytes ≡ 64
      → Yields (λ (x : Fq2 Fq.Element). Unit {0}) (fq2_from_bytes ark bytes)
  unfolding fq2_from_bytes
  fq2_from_bytes-Yields bytes l =
      rw
        (
          slice_front {E = ConvertError} bytes 32 (omega (arith, l)),
          slice_from_lem {E = ConvertError} bytes 32 (omega (arith, l)),
        )
        (bind-Yields (λ (x : Fq.Element). Unit {0}) (λ (x : Fq2 Fq.Element). Unit {0})
          (fq_from_bytes ark (take 32 bytes)) _ (fq_from_bytes-Yields (take 32 bytes))
          (λ c1 _.
            bind-Yields (λ (x : Fq.Element). Unit {0}) (λ (x : Fq2 Fq.Element). Unit {0})
              (fq_from_bytes ark (drop 32 bytes)) _ (fq_from_bytes-Yields (drop 32 bytes))
              (λ c0 _. tt)))

  pub g1_from_bytes-Yields :
      (bytes : Bytes)
      → length bytes ≡ 64
      → Yields (λ (p : G1.Point). IsValid G1 p) (g1_from_bytes ark bytes)
  unfolding g1_from_bytes
  g1_from_bytes-Yields bytes l =
      read_point-Yields G1 law.zero_fq law.g1 32 Fq.to_bytes_be (fq_from_bytes ark)
        (λ (b : Bytes) _. fq_from_bytes-Yields b) bytes l

  pub g2_from_bytes-Yields :
      (bytes : Bytes)
      → length bytes ≡ 128
      → Yields (λ (p : G2.Point). IsValid G2 p) (g2_from_bytes ark bytes)
  unfolding g2_from_bytes
  g2_from_bytes-Yields bytes l =
      read_point-Yields G2 (record { c0 = law.zero_fq; c1 = law.zero_fq }) law.g2 64 (fq2_bytes ark)
        (fq2_from_bytes ark) (λ (b : Bytes) n. fq2_from_bytes-Yields b n) bytes l
