-- ===== src/Convert/Ark.antt =====
-- The types and operations of arkworks that tools/convert/src calls: prime fields with their byte
-- encodings, and affine points of short Weierstrass curves.
use groth16_verifier_program.Common.{
  length, ◌||◌, ◌≡◌, Option, Bytes, replicate, none, Bool, ◌&&◌, All, IsByte, true, some, false,
  be_value, ◌<◌, ◌^◌,
}

-- `PrimeField`: `into_bigint().to_bytes_be()` and `from_be_bytes_mod_order`.
pub record PrimeField : Type 1 where
  pub Element : Type 0
  pub to_bytes_be : Element → Bytes
  pub from_be_bytes_mod_order : Bytes → Element

-- The elements are the numbers below a modulus of less than 254 bits, and their bytes are those of the
-- number.
pub record IsPrimeField (f : PrimeField) : Type 1 where
  pub length-to_bytes_be : (x : f.Element) → length (f.to_bytes_be x) ≡ 32
  pub to_bytes_be-IsByte : (x : f.Element) → All IsByte (f.to_bytes_be x)
  pub to_bytes_be-lt : (x : f.Element) → be_value (f.to_bytes_be x) < 2 ^ 254
  pub from-to : (x : f.Element) → f.from_be_bytes_mod_order (f.to_bytes_be x) ≡ x

-- `QuadExtField`: the two coordinates of `Fq2`.
pub record Fq2 (F : Type 0) : Type 0 where
  pub c0 : F
  pub c1 : F

-- `Affine<C>` over the coordinates `F`.
pub record Affine (F : Type 0) : Type 1 where
  pub Point : Type 0
  pub identity : Point
  pub new_unchecked : F → F → Point
  pub xy : Point → Option (F × F)
  pub is_zero : Point → Bool
  pub is_on_curve : Point → Bool
  pub is_in_correct_subgroup : Point → Bool
  pub get_point_from_x_unchecked : F → Bool → Option Point
  pub neg : Point → Point

-- A point that arkworks takes for one of the group.
abbrev pub IsValid : {F : Type 0} (c : Affine F) → c.Point → Type 0
IsValid c p = (c.is_zero p || (c.is_on_curve p && c.is_in_correct_subgroup p)) ≡ true

-- What the conversions rely on: a point is the identity or its two coordinates, the coordinates
-- `origin, origin` are not on the curve, a point of the curve is one of the two that its x has, and
-- negation is an involution on the group.
pub record IsAffine {F : Type 0} (c : Affine F) (origin : F) : Type 1 where
  pub xy-identity : c.xy c.identity ≡ none
  pub xy-new : (x y : F) → c.xy (c.new_unchecked x y) ≡ some (x, y)
  pub eq_identity : (p : c.Point) → c.xy p ≡ none → p ≡ c.identity
  pub eq-new : (p : c.Point) (x y : F) → c.xy p ≡ some (x, y) → p ≡ c.new_unchecked x y
  pub is_zero-identity : c.is_zero c.identity ≡ true
  pub is_zero-new : (x y : F) → c.is_zero (c.new_unchecked x y) ≡ false
  pub origin_off_curve : c.is_on_curve (c.new_unchecked origin origin) ≡ false
  pub is_largest : c.Point → Bool
  pub from_x :
      (p : c.Point) (x y : F)
      → IsValid c p
      → c.xy p ≡ some (x, y)
      → c.get_point_from_x_unchecked x (is_largest p) ≡ some p
  pub neg-neg : (p : c.Point) → c.neg (c.neg p) ≡ p
  pub neg-IsValid : (p : c.Point) → IsValid c p → IsValid c (c.neg p)

-- BN254 in arkworks: `Fq`, `Fr`, `G1Affine` and `G2Affine`.
pub record Ark : Type 1 where
  pub Fq : PrimeField
  pub Fr : PrimeField
  pub G1 : Affine Fq.Element
  pub G2 : Affine (Fq2 Fq.Element)

pub record IsArk (ark : Ark) : Type 1 where
  pub fq : IsPrimeField ark.Fq
  pub fr : IsPrimeField ark.Fr
  pub zero_fq : ark.Fq.Element
  pub zero_fq-bytes : ark.Fq.to_bytes_be zero_fq ≡ replicate 32 0
  pub g1 : IsAffine ark.G1 zero_fq
  pub g2 : IsAffine ark.G2 (record { c0 = zero_fq; c1 = zero_fq })
