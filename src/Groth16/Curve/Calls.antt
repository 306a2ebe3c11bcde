-- ===== src/Groth16/Curve/Calls.antt =====
-- The wrappers of syscall.rs, on inputs of the right sizes.
use groth16_verifier_program.Groth16.Errors.{invalid_point}
use groth16_verifier_program.Common.{
  Bytes, length, ◌≡◌, index, ok, ◌++◌, some, be_value, copy_at_next, replicate, List, [], arith,
  All, append-nil, refl, none, Option-cases, err, inl, inr, Bool, ℕ, true, false,
}
use groth16_verifier_program.Groth16.Curve.{
  Bn254, Implements, verdict_bytes, Slot, IsSlot, join_slots, decode_slots,
}
use groth16_verifier_program.Groth16.Syscall.{Syscalls, g1_add, g1_mul, pairing_is_one, group_op}

module _ (sys : Syscalls) where
  group_op-some :
      (op : ℕ) (input out : Bytes)
      → sys.sol_alt_bn128_group_op op input ≡ some out
      → group_op sys op input ≡ ok out
  unfolding group_op
  group_op-some op input out e = rw (e, group_op)

  group_op-none :
      (op : ℕ) (input : Bytes)
      → sys.sol_alt_bn128_group_op op input ≡ none
      → group_op sys op input ≡ err invalid_point
  unfolding group_op
  group_op-none op input e = rw (e, group_op)

  read_verdict :
      (input : Bytes) (one : Bool)
      → sys.sol_alt_bn128_group_op 3 input ≡ some (verdict_bytes one)
      → pairing_is_one sys input ≡ ok one
  unfolding pairing_is_one index verdict_bytes replicate
  read_verdict input true e = rw (group_op-some 3 input (verdict_bytes true) e)
  read_verdict input false e = rw (group_op-some 3 input (verdict_bytes false) e)

  -- Both operands reach the syscall, end to end.
  g1_add_input :
      (a b : Bytes) → length a ≡ 64 → length b ≡ 64 → g1_add sys a b ≡ group_op sys 0 (a ++ b)
  unfolding g1_add
  g1_add_input a b h k =
      rw
        (
          copy_at_next [] a 0 64 128 64 refl (omega arith) (omega arith),
          copy_at_next a b 64 128 64 0 (omega arith) (omega arith) (omega arith),
        )
        (unfold replicate in rw append-nil)

  g1_mul_input :
      (a s : Bytes) → length a ≡ 64 → length s ≡ 32 → g1_mul sys a s ≡ group_op sys 2 (a ++ s)
  unfolding g1_mul
  g1_mul_input a s h k =
      rw
        (
          copy_at_next [] a 0 64 96 32 refl (omega arith) (omega arith),
          copy_at_next a s 64 96 32 0 (omega arith) (omega arith) (omega arith),
        )
        (unfold replicate in rw append-nil)

  module _ (bn : Bn254) (imp : Implements sys bn) where
    open bn use {G1, add, mul, decode₁, encode₁, product_is_one}

    -- Adding two points that decode gives the encoding of their sum.
    pub g1_add_lem :
        (a b : Bytes) (p q : G1)
        → length a ≡ 64
        → length b ≡ 64
        → decode₁ a ≡ some p
        → decode₁ b ≡ some q
        → g1_add sys a b ≡ ok (encode₁ (add p q))
    unfolding group_op
    g1_add_lem a b p q h k ea eb = rw (g1_add_input a b h k, imp.adds a b h k, ea, eb, group_op)

    pub g1_mul_lem :
        (a s : Bytes) (p : G1)
        → length a ≡ 64
        → length s ≡ 32
        → decode₁ a ≡ some p
        → g1_mul sys a s ≡ ok (encode₁ (mul (be_value s) p))
    unfolding group_op
    g1_mul_lem a s p h k ea = rw (g1_mul_input a s h k, imp.multiplies a s h k, ea, group_op)

    -- The addition succeeds only on two points that decode.
    pub g1_add-eq-ok :
        (a b : Bytes) {c : Bytes}
        → length a ≡ 64
        → length b ≡ 64
        → g1_add sys a b ≡ ok c
        → (p : G1) × (q : G1) × (decode₁ a ≡ some p) × (decode₁ b ≡ some q)
    unfolding group_op
    g1_add-eq-ok a b h k e = elim (Option-cases (decode₁ a)) [
      | inl bad ↦ cc (rw (g1_add_input a b h k, imp.adds a b h k, bad, group_op) at e)
      | inr (p, ea) ↦ elim (Option-cases (decode₁ b)) [
        | inl bad ↦ cc (rw (g1_add_input a b h k, imp.adds a b h k, ea, bad, group_op) at e)
        | inr (q, eb) ↦ (p, q, ea, eb)
      ]
    ]

    -- The pairing call answers whether the product is one, if every point decodes.
    pub pairing_is_one_lem :
        (slots : List Slot) (points : List (bn.G1 × bn.G2))
        → All IsSlot slots
        → decode_slots bn slots ≡ some points
        → pairing_is_one sys (join_slots slots) ≡ ok (product_is_one points)
    pairing_is_one_lem slots points h e =
        read_verdict (join_slots slots) (product_is_one points) (rw e at (imp.pairs slots h))

    pub pairing_is_one_bad :
        (slots : List Slot)
        → All IsSlot slots
        → decode_slots bn slots ≡ none
        → pairing_is_one sys (join_slots slots) ≡ err invalid_point
    unfolding pairing_is_one
    pairing_is_one_bad slots h e =
        rw (group_op-none 3 (join_slots slots) (rw e at (imp.pairs slots h)))
