-- ===== src/Groth16/Curve.antt =====
-- What the program relies on in the `alt_bn128` syscalls: two groups, their encodings, and what each
-- opcode computes. The curve arithmetic itself is the runtime's.
pub mod Calls
use groth16_verifier_program.Groth16.Constants.{
  g1_size, alt_bn128_g1_add_be, g2_size, fr_size, alt_bn128_g1_mul_be, alt_bn128_pairing_be,
}
use groth16_verifier_program.Groth16.Syscall.{Syscalls}
use groth16_verifier_program.Common.{
  List, Bool, length, Option, Bytes, ℕ, replicate, ◌≡◌, some, ◌++◌, ◌∷◌, if◌then◌else◌, [], none,
  be_value, All,
}

-- The groups G1 and G2 of BN254 with the decoders that check a point, and the pairing test.
pub record Bn254 : Type 1 where
  pub G1 : Type 0
  pub G2 : Type 0
  pub identity : G1
  pub add : G1 → G1 → G1
  pub mul : ℕ → G1 → G1
  pub product_is_one : List (G1 × G2) → Bool
  pub decode₁ : Bytes → Option G1
  pub encode₁ : G1 → Bytes
  pub decode₂ : Bytes → Option G2
  pub add_assoc : (p q r : G1) → add (add p q) r ≡ add p (add q r)
  pub add_identity : (p : G1) → add p identity ≡ p
  pub mul_zero : (p : G1) → mul 0 p ≡ identity
  pub mul_one : (p : G1) → mul 1 p ≡ p
  pub mul_identity : (s : ℕ) → mul s identity ≡ identity
  pub decode₁-encode₁ : (p : G1) → decode₁ (encode₁ p) ≡ some p
  pub length-encode₁ : (p : G1) → length (encode₁ p) ≡ g1_size
  pub decode₁-zeros : decode₁ (replicate g1_size 0) ≡ some identity

-- A pair of encoded points, one slot of the pairing input.
abbrev pub Slot : Type 0
Slot = Bytes × Bytes

abbrev pub IsSlot : Slot → Type 0
IsSlot (p, q) = (length p ≡ g1_size) × (length q ≡ g2_size)

abbrev pub join_slots : List Slot → Bytes
join_slots [] = []
join_slots ((p, q) ∷ rest) = (p ++ q) ++ join_slots rest

module _ (bn : Bn254) where
  open bn use {G1, G2, decode₁, decode₂}

  abbrev pub decode_slot : Slot → Option (G1 × G2)
  decode_slot (p, q) = elim (decode₁ p) [
    | none ↦ none
    | some a ↦ elim (decode₂ q) [ none ↦ none | some b ↦ some (a, b) ]
  ]

  abbrev pub decode_slots : List Slot → Option (List (G1 × G2))
  decode_slots [] = some []
  decode_slots (s ∷ rest) = elim (decode_slot s) [
    | none ↦ none
    | some pair ↦ elim (decode_slots rest) [ none ↦ none | some pairs ↦ some (pair ∷ pairs) ]
  ]

-- The 32 bytes of a big-endian 0 or 1.
unfoldable pub verdict_bytes : Bool → Bytes
verdict_bytes one = replicate 31 0 ++ ((if one then 1 else 0) ∷ [])

-- The opcodes, as the runtime documents them: a point that does not decode is an error.
pub record Implements (sys : Syscalls) (bn : Bn254) : Type 1 where
  pub adds :
      (a b : Bytes)
      → length a ≡ g1_size
      → length b ≡ g1_size
      → sys.sol_alt_bn128_group_op alt_bn128_g1_add_be (a ++ b) ≡ elim (bn.decode₁ a) [
        | none ↦ none
        | some p ↦ elim (bn.decode₁ b) [ none ↦ none | some q ↦ some (bn.encode₁ (bn.add p q)) ]
      ]
  pub multiplies :
      (a s : Bytes)
      → length a ≡ g1_size
      → length s ≡ fr_size
      → sys.sol_alt_bn128_group_op alt_bn128_g1_mul_be (a ++ s)
        ≡ elim (bn.decode₁ a) [ none ↦ none | some p ↦ some (bn.encode₁ (bn.mul (be_value s) p)) ]
  pub pairs :
      (slots : List Slot)
      → All IsSlot slots
      → sys.sol_alt_bn128_group_op alt_bn128_pairing_be (join_slots slots)
        ≡ elim (decode_slots bn slots) [
          | none ↦ none
          | some points ↦ some (verdict_bytes (bn.product_is_one points))
        ]
