-- ===== src/Tests/Toy.antt =====
-- Small fields and curves that have the laws of `IsArk`: fields of two elements in 32 bytes, and curves
-- with one or two points over an x.
-- `low` is the bit that a coordinate shows; the coordinates of points are those that it determines.
use groth16_verifier_program.Convert.Ark.{
  Affine, Fq2, Ark, PrimeField, IsPrimeField, IsArk, IsValid, IsAffine,
}
use groth16_verifier_program.Common.{
  be_value, ◌≡◌, Bool, bytes_eq, replicate, Option, refl, some, All, true, false, none, not, ◌<◌,
  Bytes, Bool-cases, ◌&&◌, ◌^◌, ◌∷◌, subst, ap, IsByte, if◌then◌else◌, inl, arith, [], ◌||◌, inr,
}

pub record Bits (F : Type 0) : Type 0 where
  pub low : F → Bool
  pub of : Bool → F
  pub is_base : F → Bool
  pub flip : F → F
  pub of-low : (y : F) → is_base y ≡ true → of (low y) ≡ y
  pub flip-flip : (y : F) → flip (flip y) ≡ y
  pub is_base-flip : (y : F) → is_base (flip y) ≡ is_base y

module _ {F : Type 0} (bits : Bits F) where
  abbrev pub zero_point : Option (F × F) → Bool
  zero_point none = true
  zero_point (some p) = false

  abbrev pub on_curve : Option (F × F) → Bool
  on_curve none = true
  on_curve (some (x, y)) = bits.is_base y && (bits.low x || bits.low y)

  abbrev pub negated : Option (F × F) → Option (F × F)
  negated none = none
  negated (some (x, y)) = some (x, if bits.low x then bits.flip y else y)

  abbrev pub larger : Option (F × F) → Bool
  larger none = false
  larger (some (x, y)) = bits.low y

  abbrev pub toy_curve : Affine F
  toy_curve = record {
    Point = Option (F × F);
    identity = none;
    new_unchecked = λ x y. some (x, y);
    xy = λ p. p;
    is_zero = zero_point;
    is_on_curve = on_curve;
    is_in_correct_subgroup = λ p. true;
    get_point_from_x_unchecked =
        λ x largest. some (some (x, bits.of (if bits.low x then largest else true)));
    neg = negated;
  }

  pub toy-from_x :
      (p : Option (F × F)) (x y : F)
      → IsValid toy_curve p
      → p ≡ some (x, y)
      → toy_curve.get_point_from_x_unchecked x (larger p) ≡ some p
  toy-from_x p x y v e =
      let w : IsValid toy_curve (some (x, y)) =
        subst (λ (q : Option (F × F)). IsValid toy_curve q) e v in
      rw e (elim (Bool-cases (bits.low x)) [
        | inl one ↦
            let base : bits.is_base y ≡ true = ground (arith, w) in
            rw (one, bits.of-low y base) refl
        | inr zero ↦
            let base : bits.is_base y ≡ true = ground (arith, w) in
            let up : bits.low y ≡ true = ground (arith, w, zero) in
            let q : bits.of true ≡ y = rw up at (bits.of-low y base) in rw (zero, q) refl
      ])

  pub toy-neg-neg : (p : Option (F × F)) → negated (negated p) ≡ p
  toy-neg-neg none = refl
  toy-neg-neg (some (x, y)) = elim (Bool-cases (bits.low x)) [
    | inl one ↦ rw (one, bits.flip-flip y) refl
    | inr zero ↦ rw zero refl
  ]

  pub toy-neg-IsValid : (p : Option (F × F)) → IsValid toy_curve p → IsValid toy_curve (negated p)
  toy-neg-IsValid none v = v
  toy-neg-IsValid (some (x, y)) v = elim (Bool-cases (bits.low x)) [
    | inl one ↦
        let base : bits.is_base y ≡ true = ground (arith, v) in
        rw (one, bits.is_base-flip y, base) refl
    | inr zero ↦ rw zero (rw zero at v)
  ]

  pub toy-origin : (origin : F) → bits.low origin ≡ false → on_curve (some (origin, origin)) ≡ false
  toy-origin origin h = ground (arith, h)

  abbrev pub toy_curve-IsAffine : (origin : F) → bits.low origin ≡ false → IsAffine toy_curve origin
  toy_curve-IsAffine origin h = record {
    xy-identity = refl;
    xy-new = λ x y. refl;
    eq_identity = λ p e. e;
    eq-new = λ p x y e. e;
    is_zero-identity = refl;
    is_zero-new = λ x y. refl;
    origin_off_curve = toy-origin origin h;
    is_largest = larger;
    from_x = toy-from_x;
    neg-neg = toy-neg-neg;
    neg-IsValid = toy-neg-IsValid;
  }

pub not-not : (b : Bool) → not (not b) ≡ b
not-not true = refl
not-not false = refl

abbrev pub bit_bits : Bits Bool
bit_bits = record {
  low = λ b. b;
  of = λ b. b;
  is_base = λ b. true;
  flip = not;
  of-low = λ y e. refl;
  flip-flip = not-not;
  is_base-flip = λ y. refl;
}

pub base_element :
    (c0 c1 : Bool)
    → not c1 ≡ true
    → Path (Fq2 Bool) (record { c0 = c0; c1 = false }) (record { c0 = c0; c1 = c1 })
base_element c0 false e = refl
base_element c0 true e = absurd (cc e)

abbrev pub pair_bits : Bits (Fq2 Bool)
pair_bits = record {
  low = λ y. y.c0;
  of = λ b. record { c0 = b; c1 = false };
  is_base = λ y. not y.c1;
  flip = λ y. record { c0 = not y.c0; c1 = y.c1 };
  of-low = λ y e. base_element y.c0 y.c1 e;
  flip-flip = λ y. ap (λ (b : Bool). record { c0 = b; c1 = y.c1 }) (not-not y.c0);
  is_base-flip = λ y. refl;
}

abbrev pub bit_bytes : Bool → Bytes
bit_bytes b =
    0
    ∷ 0
    ∷ 0
    ∷ 0
    ∷ 0
    ∷ 0
    ∷ 0
    ∷ 0
    ∷ 0
    ∷ 0
    ∷ 0
    ∷ 0
    ∷ 0
    ∷ 0
    ∷ 0
    ∷ 0
    ∷ 0
    ∷ 0
    ∷ 0
    ∷ 0
    ∷ 0
    ∷ 0
    ∷ 0
    ∷ 0
    ∷ 0
    ∷ 0
    ∷ 0
    ∷ 0
    ∷ 0
    ∷ 0
    ∷ 0
    ∷ (if b then 1 else 0)
    ∷ []

abbrev pub toy_field : PrimeField
toy_field = record {
  Element = Bool;
  to_bytes_be = bit_bytes;
  from_be_bytes_mod_order = λ bytes. bytes_eq bytes (bit_bytes true);
}

pub bit_bytes-IsByte : (b : Bool) → All IsByte (bit_bytes b)
bit_bytes-IsByte true = omega arith
bit_bytes-IsByte false = omega arith

pub bit_bytes-lt : (b : Bool) → be_value (bit_bytes b) < 2 ^ 254
unfolding be_value
bit_bytes-lt true = omega arith
bit_bytes-lt false = omega arith

pub bit-from-to : (b : Bool) → bytes_eq (bit_bytes b) (bit_bytes true) ≡ b
unfolding bytes_eq
bit-from-to true = refl
bit-from-to false = refl

pub toy_field-IsPrimeField : IsPrimeField toy_field
toy_field-IsPrimeField = record {
  length-to_bytes_be = λ b. refl;
  to_bytes_be-IsByte = bit_bytes-IsByte;
  to_bytes_be-lt = bit_bytes-lt;
  from-to = bit-from-to;
}

abbrev pub toy : Ark
toy = record { Fq = toy_field; Fr = toy_field; G1 = toy_curve bit_bits; G2 = toy_curve pair_bits }

pub toy-zero : bit_bytes false ≡ replicate 32 0
unfolding replicate
toy-zero = refl

abbrev pub toy-IsArk : IsArk toy
toy-IsArk = record {
  fq = toy_field-IsPrimeField;
  fr = toy_field-IsPrimeField;
  zero_fq = false;
  zero_fq-bytes = toy-zero;
  g1 = toy_curve-IsAffine bit_bits false refl;
  g2 = toy_curve-IsAffine pair_bits (record { c0 = false; c1 = false }) refl;
}
