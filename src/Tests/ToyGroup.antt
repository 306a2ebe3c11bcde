-- ===== src/Tests/ToyGroup.antt =====
-- A group that shares its points with the toy curve, and syscalls that compute in it.
use groth16_verifier_program.Groth16.Validation.{check_points}
use groth16_verifier_program.Groth16.State.KeyAccount.{key_of}
use groth16_verifier_program.Groth16.VerifyingKey.Layout.{IsLaidOut}
use groth16_verifier_program.Convert.Wire.Points.{g2_bytes, g1_bytes}
use groth16_verifier_program.Common.{
  replicate, bytes_eq, take, drop, Bytes, Bool, ◌≡◌, false, length, Option, some, true, ◌++◌, refl,
  ap₂, none, take-append, ℕ, if◌then◌else◌, arith, drop-append, ◌==◌, ◌/◌, ok, be_value, [], ap,
  List,
}
use groth16_verifier_program.Groth16.Curve.{
  Bn254, Implements, Slot, join_slots, decode_slots, verdict_bytes,
}
use groth16_verifier_program.Groth16.Syscall.{Syscalls}
use groth16_verifier_program.Tests.Parity.{
  encode, decode, xor, scale, xor_assoc, xor-false, scale_zero, scale_one, split_slots,
  length-join_slots, split-join_slots,
}
use groth16_verifier_program.Tests.Toy.{toy, toy-IsArk}
use groth16_verifier_program.Tests.Convert.{file₁, file₁-IsByte, key₁, elements₁, parsed₁, shown₁}
use groth16_verifier_program.Convert.Publishable.{
  SharesPoints, AreProper, parse_verifying_key-check_points,
}

abbrev Pair : Type 0
Pair = Bool × Bool

abbrev encode_pair : Pair → Bytes
encode_pair (x, y) = encode 31 x ++ encode 31 y

abbrev decode_pair : Bytes → Option Pair
decode_pair b = elim (decode 31 (take 32 b)) [
  | none ↦ none
  | some x ↦ elim (decode 31 (drop 32 b)) [ none ↦ none | some y ↦ some (x, y) ]
]

abbrev add_pair : Pair → Pair → Pair
add_pair (a, b) (c, d) = (xor a c, xor b d)

pair_assoc : (p q r : Pair) → add_pair (add_pair p q) r ≡ add_pair p (add_pair q r)
pair_assoc (a, b) (c, d) (e, f) = ap₂ (λ (x y : Bool). (x, y)) (xor_assoc a c e) (xor_assoc b d f)

pair_identity : (p : Pair) → add_pair p (false, false) ≡ p
pair_identity (a, b) = ap₂ (λ (x y : Bool). (x, y)) (xor-false a) (xor-false b)

abbrev scale_pair : ℕ → Pair → Pair
scale_pair s (a, b) = (scale s a, scale s b)

pair_zero : (p : Pair) → scale_pair 0 p ≡ (false, false)
pair_zero (a, b) = ap₂ (λ (x y : Bool). (x, y)) (scale_zero a) (scale_zero b)

pair_one : (p : Pair) → scale_pair 1 p ≡ p
pair_one (a, b) = ap₂ (λ (x y : Bool). (x, y)) (scale_one a) (scale_one b)

decode-encode_pair : (p : Pair) → decode_pair (encode_pair p) ≡ some p
unfolding replicate bytes_eq take drop
decode-encode_pair (true, true) = refl
decode-encode_pair (true, false) = refl
decode-encode_pair (false, true) = refl
decode-encode_pair (false, false) = refl

length-encode_pair : (p : Pair) → length (encode_pair p) ≡ 64
unfolding replicate
length-encode_pair (x, y) = refl

pair_zeros : decode_pair (replicate 64 0) ≡ some (false, false)
unfolding replicate bytes_eq take drop
pair_zeros = refl

-- The second group's elements are their bytes, and every product is one.
abbrev toy_group : Bn254
toy_group = record {
  G1 = Pair;
  G2 = Bytes;
  identity = (false, false);
  add = add_pair;
  mul = scale_pair;
  product_is_one = λ points. true;
  decode₁ = decode_pair;
  encode₁ = encode_pair;
  decode₂ = λ b. some b;
  add_assoc = pair_assoc;
  add_identity = pair_identity;
  mul_zero = pair_zero;
  mul_one = pair_one;
  mul_identity = λ s. refl;
  decode₁-encode₁ = decode-encode_pair;
  length-encode₁ = length-encode_pair;
  decode₁-zeros = pair_zeros;
}

abbrev add_op : Bytes → Bytes → Option Bytes
add_op a b = elim (decode_pair a) [
  | none ↦ none
  | some p ↦ elim (decode_pair b) [ none ↦ none | some q ↦ some (encode_pair (add_pair p q)) ]
]

abbrev mul_op : Bytes → Bytes → Option Bytes
mul_op a s = elim (decode_pair a) [
  | none ↦ none
  | some p ↦ some (encode_pair (scale_pair (be_value s) p))
]

abbrev pairing_op : List Slot → Option Bytes
pairing_op slots = elim (decode_slots toy_group slots) [
  | none ↦ none
  | some points ↦ some (verdict_bytes true)
]

abbrev toy_op : ℕ → Bytes → Option Bytes
toy_op op input =
    if op == 0
    then add_op (take 64 input) (drop 64 input)
    else if op == 2
    then mul_op (take 64 input) (drop 64 input)
    else if op == 3
    then pairing_op (split_slots (length input / 192) input)
    else none

abbrev toy_syscalls : Syscalls
toy_syscalls = record { sol_alt_bn128_group_op = toy_op }

toy_syscalls-Implements : Implements toy_syscalls toy_group
toy_syscalls-Implements = record {
  adds = λ a b h k.
      ap₂ add_op (take-append 64 a b (omega (arith, h))) (drop-append 64 a b (omega (arith, h)));
  multiplies = λ a s h k.
      ap₂ mul_op (take-append 64 a s (omega (arith, h))) (drop-append 64 a s (omega (arith, h)));
  pairs = λ slots h.
      let n : length (join_slots slots) / 192 ≡ length slots =
        omega (arith, length-join_slots slots h) in
      ap pairing_op (rw n (split-join_slots slots h));
}

toy_point : (p : Option (Bool × Bool)) → (q : Pair) × (decode_pair (g1_bytes toy p) ≡ some q)
unfolding replicate bytes_eq take drop
toy_point none = ((false, false), refl)
toy_point (some (true, true)) = ((true, true), refl)
toy_point (some (true, false)) = ((true, false), refl)
toy_point (some (false, true)) = ((false, true), refl)
toy_point (some (false, false)) = ((false, false), refl)

toy-SharesPoints : SharesPoints toy toy_group
toy-SharesPoints = record { g1 = λ p _. toy_point p; g2 = λ p _. (g2_bytes toy p, refl) }

elements₁-AreProper : AreProper toy elements₁
elements₁-AreProper = record {
  alpha = λ e. cc e;
  beta = λ e. cc e;
  gamma = λ e. cc e;
  delta = λ e. cc e;
}

parse_verifying_key-check_points_example :
    IsLaidOut (key_of key₁.body key₁.num_public_inputs)
    × (check_points toy_syscalls (key_of key₁.body key₁.num_public_inputs) ≡ ok tt)
parse_verifying_key-check_points_example =
    parse_verifying_key-check_points toy toy-IsArk toy_group toy-SharesPoints toy_syscalls
      toy_syscalls-Implements (file₁ 0 []) key₁ elements₁ file₁-IsByte parsed₁ shown₁
      elements₁-AreProper
