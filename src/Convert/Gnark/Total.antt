-- ===== src/Convert/Gnark/Total.antt =====
-- The parsers return for every input, and the points that they give are valid.
use groth16_verifier_program.Convert.Gnark.Encoding.{flagged}
use groth16_verifier_program.Convert.Gnark.Safety.{Keeps}
use groth16_verifier_program.Convert.Gnark.Flags.{flag_of_lem}
use groth16_verifier_program.Convert.Wire.Safety.{
  fq_from_bytes-Yields, g1_from_bytes-Yields, fq2_from_bytes-Yields, fr_from_bytes-Yields,
  identity-IsValid, g2_from_bytes-Yields, checked_affine-Yields,
}
use groth16_verifier_program.Convert.Wire.Coordinates.{fq2_bytes, array_lem}
use groth16_verifier_program.Convert.Wire.{
  fq_from_bytes, g1_from_bytes, fq2_from_bytes, g2_from_bytes, fr_from_bytes,
}
use groth16_verifier_program.Convert.Gnark.Encoding.{infinity, point, compressed, uncompressed}
use groth16_verifier_program.Convert.Gnark.Safety.{
  IsAt, then-Keeps, After, IsPiece, take-Keeps, u32-Keeps, zero-Yields, peek-Yields,
  clear_flag-Yields,
}
use groth16_verifier_program.Convert.Ark.{Affine, Ark, IsArk, IsAffine, IsValid}
use groth16_verifier_program.Common.{
  Bytes, All, ℕ, Result, List, IsByte, ◌<◌, length, ◌≡◌, Yields, arith, suc, ◌*◌, ap, bind-Yields,
  Bool, ensure-Yields, Option-cases, ◌==◌, inl, inr, Bool-cases, ◌/◌, ◌||◌, true, zero, refl,
}
use groth16_verifier_program.Convert.Errors.{ConvertError, Reason}
use groth16_verifier_program.Convert.Gnark.{
  take, inner_slices, g1_points, scalars, fr, g2, g1, Reader, g2_flagged, g1_flagged,
  g1_uncompressed, g2_uncompressed, new_reader, g2_infinity, g1_infinity, g2_compressed,
  g1_compressed, u32, decompress, flag_uncompressed, flag_compressed_infinity,
  flag_compressed_smallest, expect_zero_after_flag, clear_flag, peek, flag_compressed_largest,
  flag_of,
}

module _ {F : Type 0} (c : Affine F) (origin : F) (law : IsAffine c origin) (k : ℕ)
    (enc : F → Bytes) (dec : Bytes → Result ConvertError F)
    (dec_point : Bytes → Result ConvertError c.Point) (pos : 0 < k)
    (dec-Yields : (b : Bytes) → length b ≡ k → Yields (λ (x : F). Unit {0}) (dec b))
    (dec_point-Yields : (b : Bytes)
      → length b ≡ 2 * k
      → Yields (λ (p : c.Point). IsValid c p) (dec_point b)) where
  abbrev Valid : c.Point → Type 0
  Valid p = IsValid c p

  uncompressed-Keeps : (r : Reader) → IsAt r → Keeps Valid (uncompressed c k dec dec_point r)
  uncompressed-Keeps r at =
      then-Keeps (IsPiece (2 * k)) (After Valid) (take r (2 * k)) _ (take-Keeps r (2 * k) at)
        (λ s r' at' (l, _). rw (array_lem (2 * k) s l) (
          bind-Yields Valid (After Valid) (dec_point s) _ (dec_point-Yields s l) (λ p v. (at', v))))

  infinity-Keeps : (r : Reader) → IsAt r → Keeps Valid (infinity c k dec dec_point r)
  infinity-Keeps r at =
      then-Keeps (IsPiece k) (After Valid) (take r k) _ (take-Keeps r k at) (λ s r' at' (l, _).
        bind-Yields (λ (u : Unit {0}). Unit {0}) (After Valid) (expect_zero_after_flag s) _
          (zero-Yields s (omega (arith, pos, l)))
          (λ u _. (at', identity-IsValid c origin law k enc dec dec-Yields)))

  decompress-Yields : (x : F) (largest : Bool) → Yields Valid (decompress c x largest)
  unfolding decompress
  decompress-Yields x largest = elim (Option-cases (c.get_point_from_x_unchecked x largest)) [
    | inl no_root ↦ rw no_root tt
    | inr (p, root) ↦ elim (Bool-cases (c.is_zero p)) [
      | inl z ↦ rw (root, z) tt
      | inr z ↦ rw (root, z) (checked_affine-Yields c origin law k enc dec dec-Yields p)
    ]
  ]

  compressed-Keeps :
      (r : Reader) (flag : ℕ) → IsAt r → Keeps Valid (compressed c k dec dec_point r flag)
  compressed-Keeps r flag at =
      then-Keeps (IsPiece k) (After Valid) (take r k) _ (take-Keeps r k at) (λ s r' at' (l, _).
        rw (array_lem k s l) (
          bind-Yields (λ (t : Bytes). length t ≡ k) (After Valid) (clear_flag s) _
            (clear_flag-Yields k s pos l)
            (λ raw n.
              bind-Yields (λ (x : F). Unit {0}) (After Valid) (dec raw) _ (dec-Yields raw n)
                (λ x _.
                  bind-Yields Valid (After Valid) (decompress c x (flag == flag_compressed_largest))
                    _ (decompress-Yields x (flag == flag_compressed_largest)) (λ p v. (at', v))))))

  -- The last arm, which would panic, is not reached from a byte.
  flagged-Keeps :
      (r : Reader) (b : ℕ)
      → IsByte b
      → IsAt r
      → Keeps Valid (flagged c k dec dec_point r (flag_of b))
  unfolding flag_uncompressed flag_compressed_infinity flag_compressed_smallest
      flag_compressed_largest
  flagged-Keeps r b h at = rw (flag_of_lem b h) (elim (Bool-cases (64 * (b / 64) == 0)) [
    | inl z ↦ rw z (uncompressed-Keeps r at)
    | inr n₀ ↦ elim (Bool-cases (64 * (b / 64) == 64)) [
      | inl z ↦ rw (n₀, z) (infinity-Keeps r at)
      | inr n₁ ↦
          let root : ((64 * (b / 64) == 128) || (64 * (b / 64) == 192)) ≡ true =
            ground (arith, n₀, n₁, h) in
          rw (n₀, n₁, root) (compressed-Keeps r (64 * (b / 64)) at)
    ]
  ])

  pub point-Keeps : (r : Reader) → IsAt r → Keeps Valid (point c k dec dec_point r)
  point-Keeps r at =
      bind-Yields IsByte (After Valid) (peek r) _ (peek-Yields r at) (λ b h. flagged-Keeps r b h at)

module _ (ark : Ark) (law : IsArk ark) where
  open ark use {Fq, Fr, G1, G2}

  abbrev Valid₁ : G1.Point → Type 0
  Valid₁ p = IsValid G1 p

  abbrev Valid₂ : G2.Point → Type 0
  Valid₂ p = IsValid G2 p

  pub g1-Keeps : (r : Reader) → IsAt r → Keeps Valid₁ (g1 ark r)
  unfolding g1 g1_flagged g1_uncompressed g1_infinity g1_compressed
  g1-Keeps r at =
      point-Keeps G1 law.zero_fq law.g1 32 Fq.to_bytes_be (fq_from_bytes ark) (g1_from_bytes ark)
        (omega arith) (λ (b : Bytes) _. fq_from_bytes-Yields ark law b)
        (λ (b : Bytes) l. g1_from_bytes-Yields ark law b l) r at

  pub g2-Keeps : (r : Reader) → IsAt r → Keeps Valid₂ (g2 ark r)
  unfolding g2 g2_flagged g2_uncompressed g2_infinity g2_compressed
  g2-Keeps r at =
      point-Keeps G2 (record { c0 = law.zero_fq; c1 = law.zero_fq }) law.g2 64 (fq2_bytes ark)
        (fq2_from_bytes ark) (g2_from_bytes ark) (omega arith)
        (λ (b : Bytes) l. fq2_from_bytes-Yields ark law b l)
        (λ (b : Bytes) l. g2_from_bytes-Yields ark law b l) r at

  -- A scalar.
  pub fr-Keeps : (r : Reader) → IsAt r → Keeps (λ (s : Fr.Element). Unit {0}) (fr ark r)
  unfolding fr
  fr-Keeps r at =
      then-Keeps (IsPiece 32) (After (λ (s : Fr.Element). Unit {0})) (take r 32) _
        (take-Keeps r 32 at)
        (λ s r' at' (l, _). rw (array_lem 32 s l) (
          bind-Yields (λ (s : Fr.Element). Unit {0}) (After (λ (s : Fr.Element). Unit {0}))
            (fr_from_bytes ark s) _ (fr_from_bytes-Yields ark law s) (λ x _. (at', tt))))

  -- The points of a table: as many as were asked for.
  abbrev Table : ℕ → List G1.Point → Type 0
  Table n ps = (length ps ≡ n) × All Valid₁ ps

  pub g1_points-Keeps : (n : ℕ) (r : Reader) → IsAt r → Keeps (Table n) (g1_points ark n r)
  unfolding g1_points
  g1_points-Keeps zero r at = (at, (refl, tt))
  g1_points-Keeps (suc n) r at =
      then-Keeps Valid₁ (After (Table (suc n))) (g1 ark r) _ (g1-Keeps r at) (λ p r₁ at₁ v.
        then-Keeps (Table n) (After (Table (suc n))) (g1_points ark n r₁) _
          (g1_points-Keeps n r₁ at₁) (λ ps r₂ at₂ (l, vs). (at₂, (ap suc l, (v, vs)))))

  pub scalars-Keeps :
      (n : ℕ) (r : Reader)
      → IsAt r
      → Keeps (λ (ss : List Fr.Element). length ss ≡ n) (scalars ark n r)
  unfolding scalars
  scalars-Keeps zero r at = (at, refl)
  scalars-Keeps (suc n) r at =
      then-Keeps (λ (s : Fr.Element). Unit {0})
        (After (λ (ss : List Fr.Element). length ss ≡ suc n)) (fr ark r) _ (fr-Keeps r at)
        (λ s r₁ at₁ _.
          then-Keeps (λ (ss : List Fr.Element). length ss ≡ n)
            (After (λ (ss : List Fr.Element). length ss ≡ suc n)) (scalars ark n r₁) _
            (scalars-Keeps n r₁ at₁) (λ ss r₂ at₂ l. (at₂, ap suc l)))

pub inner_slices-Keeps :
    (n : ℕ) (r : Reader) → IsAt r → Keeps (λ (u : Unit {0}). Unit {0}) (inner_slices n r)
unfolding inner_slices
inner_slices-Keeps zero r at = (at, tt)
inner_slices-Keeps (suc n) r at =
    then-Keeps (λ (m : ℕ). Unit {0}) (After (λ (u : Unit {0}). Unit {0})) (u32 r) _ (u32-Keeps r at)
      (λ inner r₁ at₁ _.
        ensure-Yields (After (λ (u : Unit {0}). Unit {0})) (inner == 0)
          (ConvertError.unsupported Reason.committed_inputs) (inner_slices n r₁)
          (λ _. inner_slices-Keeps n r₁ at₁))

pub new_reader-IsAt : (bytes : Bytes) → All IsByte bytes → IsAt (new_reader bytes)
new_reader-IsAt bytes h = record { within = omega arith; bytes_IsByte = h }
