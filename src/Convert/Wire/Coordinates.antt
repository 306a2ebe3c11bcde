-- ===== src/Convert/Wire/Coordinates.antt =====
-- The bytes of the coordinates, and which bytes are read back.
use groth16_verifier_program.Common.{
  ℕ, ◌≡◌, Bytes, length, copy_at, ◌++◌, arith, ap, ok, ◌↔◌, replicate, length-append, Bool-cases,
  ◌*◌, ◌>>=◌, bytes_eq, inl, length-replicate, bytes_eq_iff, copy_at_next, inr, [], bytes_eq_refl,
  append-nil, refl, slice, take, slice_from, drop, slice_from_lem, >>=-eq-ok, subst, ap₂, ◌∙◌,
  take-append-drop, take-append, drop-append, sym, slice_front,
}
use groth16_verifier_program.Convert.Ark.{Ark, IsArk, PrimeField, IsPrimeField, Fq2}
use groth16_verifier_program.Convert.Wire.{
  array, fq_to_bytes, fq2_to_bytes, fr_to_bytes, fq_from_bytes, fq2_from_bytes, fr_from_bytes,
}
use groth16_verifier_program.Convert.Errors.{ConvertError}

-- Elements with the same bytes are the same.
pub to_bytes_be-injective :
    (f : PrimeField)
    → IsPrimeField f
    → (x y : f.Element) → f.to_bytes_be x ≡ f.to_bytes_be y
    → x ≡ y
to_bytes_be-injective f law x y e =
    cc (law.from-to x, law.from-to y, ap f.from_be_bytes_mod_order e)

pub array_lem : (n : ℕ) (b : Bytes) → length b ≡ n → array n b ≡ ok b
unfolding array
array_lem n b h = ground (arith, h)

module _ (ark : Ark) where
  open ark use {Fq}

  -- `c1 ‖ c0`.
  abbrev pub fq2_bytes : Fq2 Fq.Element → Bytes
  fq2_bytes x = Fq.to_bytes_be x.c1 ++ Fq.to_bytes_be x.c0

module _ (ark : Ark) (law : IsArk ark) where
  open ark use {Fq, Fr}

  pub fq_to_bytes_lem : (x : Fq.Element) → fq_to_bytes ark x ≡ ok (Fq.to_bytes_be x)
  unfolding fq_to_bytes
  fq_to_bytes_lem x = array_lem 32 (Fq.to_bytes_be x) (law.fq.length-to_bytes_be x)

  pub fr_to_bytes_lem : (s : Fr.Element) → fr_to_bytes ark s ≡ ok (Fr.to_bytes_be s)
  unfolding fr_to_bytes
  fr_to_bytes_lem s = array_lem 32 (Fr.to_bytes_be s) (law.fr.length-to_bytes_be s)

  -- The canonical bytes of an element, and no others, are read as that element.
  pub fq_from_bytes_iff :
      (bytes : Bytes) (x : Fq.Element)
      → (fq_from_bytes ark bytes ≡ ok x) ↔ (Fq.to_bytes_be x ≡ bytes)
  unfolding fq_from_bytes
  fq_from_bytes_iff bytes x =
      let m = Fq.from_be_bytes_mod_order bytes in
      (
        λ e.
            let f = rw (fq_to_bytes_lem m) at e in
            elim (Bool-cases (bytes_eq (Fq.to_bytes_be m) bytes)) [
              | inl same ↦
                  let q : m ≡ x = cc (rw same at f) in
                  rw q at ((bytes_eq_iff (Fq.to_bytes_be m) bytes).0 same)
              | inr other ↦ absurd (cc (rw other at f))
            ],
        λ e.
            rw (← e)
              (rw (law.fq.from-to x, fq_to_bytes_lem x, bytes_eq_refl (Fq.to_bytes_be x)) refl),
      )

  pub fr_from_bytes_iff :
      (bytes : Bytes) (s : Fr.Element)
      → (fr_from_bytes ark bytes ≡ ok s) ↔ (Fr.to_bytes_be s ≡ bytes)
  unfolding fr_from_bytes
  fr_from_bytes_iff bytes s =
      let m = Fr.from_be_bytes_mod_order bytes in
      (
        λ e.
            let f = rw (fr_to_bytes_lem m) at e in
            elim (Bool-cases (bytes_eq (Fr.to_bytes_be m) bytes)) [
              | inl same ↦
                  let q : m ≡ s = cc (rw same at f) in
                  rw q at ((bytes_eq_iff (Fr.to_bytes_be m) bytes).0 same)
              | inr other ↦ absurd (cc (rw other at f))
            ],
        λ e.
            rw (← e)
              (rw (law.fr.from-to s, fr_to_bytes_lem s, bytes_eq_refl (Fr.to_bytes_be s)) refl),
      )

  pub length-fq2_bytes : (x : Fq2 Fq.Element) → length (fq2_bytes ark x) ≡ 64
  length-fq2_bytes x = omega (
    arith,
    length-append (Fq.to_bytes_be x.c1) (Fq.to_bytes_be x.c0),
    law.fq.length-to_bytes_be x.c1,
    law.fq.length-to_bytes_be x.c0,
  )

  -- Two copies fill a buffer of twice the size.
  pub two_copies :
      (k : ℕ) (a b : Bytes)
      → length a ≡ k
      → length b ≡ k
      → (copy_at {E = ConvertError} (replicate (2 * k) 0) 0 k a >>= λ (out : Bytes).
          copy_at out k (length out) b)
        ≡ ok (a ++ b)
  two_copies k a b h l =
      let n : length (a ++ replicate k 0) ≡ 2 * k =
        omega (arith, length-append a (replicate k 0), length-replicate {A = ℕ} k 0) in
      rw
        (copy_at_next {E = ConvertError} [] a 0 k (2 * k) k refl (omega (arith, h))
          (omega (arith, h)))
        (rw
          (copy_at_next {E = ConvertError} a b k (length (a ++ replicate k 0)) k 0
            (omega (arith, h)) (omega (arith, n, l)) (omega (arith, l)))
          (unfold replicate in rw append-nil))

  pub fq2_to_bytes_lem : (x : Fq2 Fq.Element) → fq2_to_bytes ark x ≡ ok (fq2_bytes ark x)
  unfolding fq2_to_bytes
  fq2_to_bytes_lem x =
      rw (fq_to_bytes_lem x.c1, fq_to_bytes_lem x.c0)
        (two_copies 32 (Fq.to_bytes_be x.c1) (Fq.to_bytes_be x.c0) (law.fq.length-to_bytes_be x.c1)
          (law.fq.length-to_bytes_be x.c0))

  pub fq2_from_bytes_iff :
      (bytes : Bytes) (x : Fq2 Fq.Element)
      → length bytes ≡ 64
      → (fq2_from_bytes ark bytes ≡ ok x) ↔ (fq2_bytes ark x ≡ bytes)
  unfolding fq2_from_bytes
  fq2_from_bytes_iff bytes x l =
      let s : slice {E = ConvertError} bytes 0 32 ≡ ok (take 32 bytes) =
        slice_front bytes 32 (omega (arith, l)) in
      let t : slice_from {E = ConvertError} bytes 32 ≡ ok (drop 32 bytes) =
        slice_from_lem bytes 32 (omega (arith, l)) in
      (
        λ e.
            let (c1, e₁, f) = >>=-eq-ok (fq_from_bytes ark (take 32 bytes)) _ (rw (s, t) at e) in
            let (c0, e₀, g) = >>=-eq-ok (fq_from_bytes ark (drop 32 bytes)) _ f in
            let q₁ = (fq_from_bytes_iff (take 32 bytes) c1).0 e₁ in
            let q₀ = (fq_from_bytes_iff (drop 32 bytes) c0).0 e₀ in
            let same : record { c0 = c0; c1 = c1 } ≡ x = cc g in
            subst (λ (y : Fq2 Fq.Element). fq2_bytes ark y ≡ bytes) same
              (ap₂ (λ (a b : Bytes). a ++ b) q₁ q₀ ∙ take-append-drop 32 bytes),
        λ e.
            let h = Fq.to_bytes_be x.c1 in
            let k = Fq.to_bytes_be x.c0 in
            let a : take 32 bytes ≡ h =
              rw (← e) (take-append 32 h k (omega (arith, law.fq.length-to_bytes_be x.c1))) in
            let b : drop 32 bytes ≡ k =
              rw (← e) (drop-append 32 h k (omega (arith, law.fq.length-to_bytes_be x.c1))) in
            rw
              (
                s,
                t,
                (fq_from_bytes_iff (take 32 bytes) x.c1).1 (sym a),
                (fq_from_bytes_iff (drop 32 bytes) x.c0).1 (sym b),
              )
              refl,
      )
