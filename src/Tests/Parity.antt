-- ===== src/Tests/Parity.antt =====
-- A small pairing to run the verifier on: both groups are the integers modulo two, with the point at
-- infinity and one generator, encoded as 0 and as 1 in the last byte, and the pairing is the product.
use groth16_verifier_program.Common.{
  Bool, List, ℕ, not, false, ◌≡◌, ◌&&◌, Bytes, replicate, ◌%◌, true, Option, some, ◌++◌, ◌==◌,
  if◌then◌else◌, ◌∷◌, bytes_eq, none, [], take-append, arith, suc, be_value, length, refl, All,
  take, append_assoc, drop, ◌*◌, drop-append, zero, ◌/◌, length-append,
}
use groth16_verifier_program.Groth16.Curve.{
  Bn254, Implements, Slot, IsSlot, join_slots, decode_slots, verdict_bytes,
}
use groth16_verifier_program.Groth16.Syscall.{Syscalls}

abbrev pub xor : Bool → Bool → Bool
xor true b = not b
xor false b = b

abbrev pub encode : ℕ → Bool → Bytes
encode k b = replicate k 0 ++ ((if b then 1 else 0) ∷ [])

abbrev pub decode : ℕ → Bytes → Option Bool
decode k b =
    if bytes_eq b (encode k false)
    then some false
    else if bytes_eq b (encode k true)
    then some true
    else none

abbrev pub scale : ℕ → Bool → Bool
scale s p = p && (s % 2 == 1)

abbrev pub product : List (Bool × Bool) → Bool
product [] = false
product ((p, q) ∷ rest) = xor (p && q) (product rest)

pub decode-encode₁ : (b : Bool) → decode 63 (encode 63 b) ≡ some b
unfolding replicate bytes_eq
decode-encode₁ true = refl
decode-encode₁ false = refl

pub xor_assoc : (p q r : Bool) → xor (xor p q) r ≡ xor p (xor q r)
xor_assoc p q r = ground arith

pub xor-false : (p : Bool) → xor p false ≡ p
xor-false p = ground arith

pub scale_zero : (p : Bool) → scale 0 p ≡ false
scale_zero p = ground arith

pub scale_one : (p : Bool) → scale 1 p ≡ p
scale_one p = ground arith

pub length-encode₁ : (p : Bool) → length (encode 63 p) ≡ 64
unfolding replicate
length-encode₁ true = refl
length-encode₁ false = refl

pub decode-zeros₁ : decode 63 (replicate 64 0) ≡ some false
unfolding replicate bytes_eq
decode-zeros₁ = refl

abbrev pub parity : Bn254
parity = record {
  G1 = Bool;
  G2 = Bool;
  identity = false;
  add = xor;
  mul = scale;
  product_is_one = λ points. not (product points);
  decode₁ = decode 63;
  encode₁ = encode 63;
  decode₂ = decode 127;
  add_assoc = xor_assoc;
  add_identity = xor-false;
  mul_zero = scale_zero;
  mul_one = scale_one;
  mul_identity = λ s. refl;
  decode₁-encode₁ = decode-encode₁;
  length-encode₁ = length-encode₁;
  decode₁-zeros = decode-zeros₁;
}

-- The pairs that an input holds.
abbrev pub split_slots : ℕ → Bytes → List Slot
split_slots zero input = []
split_slots (suc k) input =
    (take 64 input, take 128 (drop 64 input)) ∷ split_slots k (drop 192 input)

abbrev pub add_op : Bytes → Bytes → Option Bytes
add_op a b = elim (decode 63 a) [
  | none ↦ none
  | some p ↦ elim (decode 63 b) [ none ↦ none | some q ↦ some (encode 63 (xor p q)) ]
]

abbrev pub mul_op : Bytes → Bytes → Option Bytes
mul_op a s = elim (decode 63 a) [ none ↦ none | some p ↦ some (encode 63 (scale (be_value s) p)) ]

abbrev pub pairing_op : List Slot → Option Bytes
pairing_op slots = elim (decode_slots parity slots) [
  | none ↦ none
  | some points ↦ some (verdict_bytes (not (product points)))
]

abbrev pub parity_op : ℕ → Bytes → Option Bytes
parity_op op input =
    if op == 0
    then add_op (take 64 input) (drop 64 input)
    else if op == 2
    then mul_op (take 64 input) (drop 64 input)
    else if op == 3
    then pairing_op (split_slots (length input / 192) input)
    else none

abbrev pub parity_syscalls : Syscalls
parity_syscalls = record { sol_alt_bn128_group_op = parity_op }

pub length-join_slots :
    (slots : List Slot) → All IsSlot slots → length (join_slots slots) ≡ 192 * length slots
length-join_slots [] h = refl
length-join_slots ((p, q) ∷ rest) h = omega (
  arith,
  length-append (p ++ q) (join_slots rest),
  length-append p q,
  h.0.0,
  h.0.1,
  length-join_slots rest h.1,
)

pub split-join_slots :
    (slots : List Slot) → All IsSlot slots → split_slots (length slots) (join_slots slots) ≡ slots
split-join_slots [] h = refl
split-join_slots ((p, q) ∷ rest) h =
    let r = join_slots rest in
    let e : (p ++ q) ++ r ≡ p ++ (q ++ r) = append_assoc p q r in
    let a : take 64 ((p ++ q) ++ r) ≡ p = rw e (take-append 64 p (q ++ r) (omega (arith, h.0.0))) in
    let b : take 128 (drop 64 ((p ++ q) ++ r)) ≡ q =
      rw (e, drop-append 64 p (q ++ r) (omega (arith, h.0.0)))
        (take-append 128 q r (omega (arith, h.0.1))) in
    let c : drop 192 ((p ++ q) ++ r) ≡ r =
      drop-append 192 (p ++ q) r (omega (arith, length-append p q, h.0.0, h.0.1)) in
    rw (a, b, c, split-join_slots rest h.1)

pub parity_syscalls-Implements : Implements parity_syscalls parity
parity_syscalls-Implements = record {
  adds = λ a b h k.
      rw (take-append 64 a b (omega (arith, h)), drop-append 64 a b (omega (arith, h))) refl;
  multiplies = λ a s h k.
      rw (take-append 64 a s (omega (arith, h)), drop-append 64 a s (omega (arith, h))) refl;
  pairs = λ slots h.
      let n : length (join_slots slots) / 192 ≡ length slots =
        omega (arith, length-join_slots slots h) in
      rw (n, split-join_slots slots h) refl;
}
