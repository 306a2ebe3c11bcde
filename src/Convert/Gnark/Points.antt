-- ===== src/Convert/Gnark/Points.antt =====
-- `Reader::g1` and `Reader::g2` take every encoding of a point of the group for that point.
use groth16_verifier_program.Convert.Wire.{
  fq_from_bytes, fq2_from_bytes, g1_from_bytes, g2_from_bytes,
}
use groth16_verifier_program.Convert.Wire.Points.{
  point_bytes, g1_from_bytes_iff, g1_bytes, g2_from_bytes_iff, length-g1_bytes, g2_bytes,
  length-g2_bytes,
}
use groth16_verifier_program.Convert.Gnark.Remaining.{Left, advance, take-Left, past-Left}
use groth16_verifier_program.Convert.Wire.Coordinates.{
  fq2_bytes, array_lem, length-fq2_bytes, fr_from_bytes_iff, fq_from_bytes_iff, fq2_from_bytes_iff,
}
use groth16_verifier_program.Convert.Errors.{ConvertError}
use groth16_verifier_program.Convert.Gnark.Encoding.{
  IsClear, mark, IsEncoding, compressed_bytes, point, uncompressed-Left, infinity-Left, root_flag,
  compressed-Left,
}
use groth16_verifier_program.Convert.Gnark.{
  u32, u32_from_be, Reader, g2, g1, fr, g2_flagged, g1_flagged, g1_uncompressed, g2_uncompressed,
  g2_infinity, g1_infinity, g1_compressed, g2_compressed,
}
use groth16_verifier_program.Convert.Ark.{Affine, Ark, IsAffine, IsArk, IsValid, Fq2}
use groth16_verifier_program.Common.{
  ℕ, be_value, Bytes, replicate, ◌/◌, ◌<◌, length, ◌++◌, ◌≡◌, ◌∷◌, Result, arith, ap, ◌%◌, ◌^◌, [],
  suc, refl, subst, zero, ok, ◌*◌, ◌+◌, sym, Option-cases, inl, inr, ◌∙◌, length-replicate,
  length-append, ◌-◌, ◌≤◌,
}

zeros-IsClear : (n : ℕ) → 0 < n → IsClear (replicate n 0)
unfolding replicate
zeros-IsClear zero h = absurd (omega (arith, h))
zeros-IsClear (suc n) h = record {
  first = 0;
  rest = replicate n 0;
  bytes_eq = refl;
  first_lt = omega arith;
}

append-IsClear : (xs ys : Bytes) → IsClear xs → IsClear (xs ++ ys)
append-IsClear xs ys h = record {
  first = h.first;
  rest = h.rest ++ ys;
  bytes_eq = ap (λ (t : Bytes). t ++ ys) h.bytes_eq;
  first_lt = h.first_lt;
}

length-mark : (flag : ℕ) (bytes : Bytes) → length (mark flag bytes) ≡ length bytes
length-mark flag [] = refl
length-mark flag (b ∷ bs) = refl

module _ {F : Type 0} (c : Affine F) (origin : F) (law : IsAffine c origin) (k : ℕ)
    (enc : F → Bytes) (dec : Bytes → Result ConvertError F)
    (dec_point : Bytes → Result ConvertError c.Point) (pos : 0 < k)
    (length-enc : (x : F) → length (enc x) ≡ k) (enc-IsClear : (x : F) → IsClear (enc x))
    (dec-enc : (x : F) → dec (enc x) ≡ ok x)
    (dec_point-bytes : (p : c.Point) → IsValid c p → dec_point (point_bytes c k enc p) ≡ ok p) where
  point_bytes-IsClear : (p : c.Point) → IsClear (point_bytes c k enc p)
  point_bytes-IsClear p = elim (Option-cases (c.xy p)) [
    | inl none_left ↦ rw none_left (zeros-IsClear (2 * k) (omega (arith, pos)))
    | inr ((x, y), e) ↦ rw e (append-IsClear (enc x) (enc y) (enc-IsClear x))
  ]

  length-point_bytes : (p : c.Point) → length (point_bytes c k enc p) ≡ 2 * k
  length-point_bytes p = elim (Option-cases (c.xy p)) [
    | inl none_left ↦ rw none_left (length-replicate {A = ℕ} (2 * k) 0)
    | inr ((x, y), e) ↦
        rw e (omega (arith, length-append (enc x) (enc y), length-enc x, length-enc y))
  ]

  pub length-compressed_bytes :
      (p : c.Point) → length (compressed_bytes c k enc law.is_largest p) ≡ k
  length-compressed_bytes p = elim (Option-cases (c.xy p)) [
    | inl none_left ↦ rw none_left (omega (arith, pos, length-replicate {A = ℕ} (k - 1) 0))
    | inr ((x, y), e) ↦ rw e (length-mark (root_flag (law.is_largest p)) (enc x) ∙ length-enc x)
  ]

  pub point_reads :
      (r : Reader) (e tail : Bytes) (p : c.Point)
      → IsEncoding c k enc law.is_largest p e
      → Left r (e ++ tail)
      → point c k dec dec_point r ≡ ok (p, advance (length e) r)
  point_reads r e tail p (valid, form) left = elim form [
    | inl raw ↦
        let n : length e ≡ 2 * k = ap (λ (t : Bytes). length t) raw ∙ length-point_bytes p in
        rw n (
          uncompressed-Left c origin law k enc dec dec_point r e tail p
            (subst (λ (t : Bytes). IsClear t) (sym raw) (point_bytes-IsClear p)) n
            (ap dec_point raw ∙ dec_point-bytes p valid) left)
    | inr short ↦
        let n : length e ≡ k = ap (λ (t : Bytes). length t) short ∙ length-compressed_bytes p in
        let at_r : Left r (compressed_bytes c k enc law.is_largest p ++ tail) =
          subst (λ (t : Bytes). Left r (t ++ tail)) short left in
        rw n (elim (Option-cases (c.xy p)) [
          | inl none_left ↦
              rw (law.eq_identity p none_left)
                (infinity-Left c origin law k enc dec dec_point r tail pos (rw none_left at at_r))
          | inr ((x, y), xy) ↦
              compressed-Left c origin law k enc dec dec_point r (enc x) tail (law.is_largest p) x y
                p (enc-IsClear x) (length-enc x) (dec-enc x) valid xy (law.from_x p x y valid xy)
                (rw xy at at_r)
        ])
  ]

  pub reads-Left :
      (r : Reader) (e tail : Bytes) → Left r (e ++ tail) → Left (advance (length e) r) tail
  reads-Left r e tail left = past-Left r e tail (length e) left refl

-- The highest of 32 bytes of a number below `2^254` has its two upper bits clear.
bytes-IsClear : (bytes : Bytes) → length bytes ≡ 32 → be_value bytes < 2 ^ 254 → IsClear bytes
unfolding be_value
bytes-IsClear [] l h = absurd (omega (arith, l))
bytes-IsClear (b ∷ bs) l h =
    let n : length bs ≡ 31 = omega (arith, l) in
    record {
      first = b;
      rest = bs;
      bytes_eq = refl;
      first_lt = omega (arith, subst (λ (m : ℕ). b * 256 ^ m + be_value bs < 2 ^ 254) n h);
    }

module _ (ark : Ark) (law : IsArk ark) where
  open ark use {Fq, G1, G2}

  -- gnark's encodings of a point of G1 and of G2.
  abbrev pub IsG1Encoding : G1.Point → Bytes → Type 0
  IsG1Encoding p e = IsEncoding G1 32 Fq.to_bytes_be law.g1.is_largest p e

  abbrev pub IsG2Encoding : G2.Point → Bytes → Type 0
  IsG2Encoding p e = IsEncoding G2 64 (fq2_bytes ark) law.g2.is_largest p e

  fq_bytes-IsClear : (x : Fq.Element) → IsClear (Fq.to_bytes_be x)
  fq_bytes-IsClear x =
      bytes-IsClear (Fq.to_bytes_be x) (law.fq.length-to_bytes_be x) (law.fq.to_bytes_be-lt x)

  -- `Reader::g1` takes an encoding of a point of G1, uncompressed or compressed, for that point, and
  -- moves past it.
  pub g1-reads :
      (r : Reader) (e tail : Bytes) (p : G1.Point)
      → IsG1Encoding p e
      → Left r (e ++ tail)
      → g1 ark r ≡ ok (p, advance (length e) r)
  unfolding g1 g1_flagged g1_uncompressed g1_infinity g1_compressed
  g1-reads r e tail p h left =
      point_reads G1 law.zero_fq law.g1 32 Fq.to_bytes_be (fq_from_bytes ark) (g1_from_bytes ark)
        (omega arith) law.fq.length-to_bytes_be fq_bytes-IsClear
        (λ (x : Fq.Element). (fq_from_bytes_iff ark law (Fq.to_bytes_be x) x).1 refl)
        (λ (q : G1.Point) v.
          (g1_from_bytes_iff ark law (g1_bytes ark q) q (length-g1_bytes ark law q)).1 (refl, v))
        r e tail p h left

  -- The same for `Reader::g2` and G2.
  pub g2-reads :
      (r : Reader) (e tail : Bytes) (p : G2.Point)
      → IsG2Encoding p e
      → Left r (e ++ tail)
      → g2 ark r ≡ ok (p, advance (length e) r)
  unfolding g2 g2_flagged g2_uncompressed g2_infinity g2_compressed
  g2-reads r e tail p h left =
      point_reads G2 (record { c0 = law.zero_fq; c1 = law.zero_fq }) law.g2 64 (fq2_bytes ark)
        (fq2_from_bytes ark) (g2_from_bytes ark) (omega arith) (length-fq2_bytes ark law)
        (λ (x : Fq2 Fq.Element).
          append-IsClear (Fq.to_bytes_be x.c1) (Fq.to_bytes_be x.c0) (fq_bytes-IsClear x.c1))
        (λ (x : Fq2 Fq.Element).
          (fq2_from_bytes_iff ark law (fq2_bytes ark x) x (length-fq2_bytes ark law x)).1 refl)
        (λ (q : G2.Point) v.
          (g2_from_bytes_iff ark law (g2_bytes ark q) q (length-g2_bytes ark law q)).1 (refl, v))
        r e tail p h left

  -- `Reader::fr` takes a scalar's canonical bytes for that scalar.
  pub fr-reads :
      (r : Reader) (s : ark.Fr.Element) (tail : Bytes)
      → Left r (ark.Fr.to_bytes_be s ++ tail)
      → fr ark r ≡ ok (s, advance 32 r)
  unfolding fr
  fr-reads r s tail left =
      let e = ark.Fr.to_bytes_be s in
      let l = law.fr.length-to_bytes_be s in
      rw
        (
          take-Left r e tail 32 left (sym l),
          array_lem 32 e l,
          (fr_from_bytes_iff ark law e s).1 refl,
        )
        refl

-- A number's four bytes, the highest first.
abbrev pub u32_bytes : ℕ → Bytes
u32_bytes n = (n / 16777216) ∷ (n / 65536 % 256) ∷ (n / 256 % 256) ∷ (n % 256) ∷ []

pub u32-reads :
    (r : Reader) (n : ℕ) (tail : Bytes) → Left r (u32_bytes n ++ tail) → u32 r ≡ ok (n, advance 4 r)
unfolding u32 u32_from_be
u32-reads r n tail left =
    let v : 16777216 * (n / 16777216) + 65536 * (n / 65536 % 256) + 256 * (n / 256 % 256) + n % 256
        ≡ n =
      omega arith in
    rw (take-Left r (u32_bytes n) tail 4 left refl, v) refl

module _ (ark : Ark) (law : IsArk ark) where
  -- An encoding has at least the 32 bytes that the parser counts on.
  pub length-g1_encoding : (p : ark.G1.Point) (e : Bytes) → IsG1Encoding ark law p e → 32 ≤ length e
  length-g1_encoding p e (_, form) = elim form [
    | inl raw ↦ omega (arith, ap (λ (t : Bytes). length t) raw, length-g1_bytes ark law p)
    | inr short ↦ omega (
      arith,
      ap (λ (t : Bytes). length t) short,
      length-compressed_bytes ark.G1 law.zero_fq law.g1 32 ark.Fq.to_bytes_be (fq_from_bytes ark)
          (g1_from_bytes ark) (omega arith) law.fq.length-to_bytes_be (fq_bytes-IsClear ark law)
          (λ (x : ark.Fq.Element). (fq_from_bytes_iff ark law (ark.Fq.to_bytes_be x) x).1 refl)
          (λ (q : ark.G1.Point) v.
            (g1_from_bytes_iff ark law (g1_bytes ark q) q (length-g1_bytes ark law q)).1 (refl, v))
          p,
    )
  ]
