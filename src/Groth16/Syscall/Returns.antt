-- ===== src/Groth16/Syscall/Returns.antt =====
-- The wrappers of the syscall return, whatever the syscall does, as long as it writes as many bytes as
-- its operation has.
use groth16_verifier_program.Groth16.Errors.{Groth16Error}
use groth16_verifier_program.Groth16.Constants.{
  alt_bn128_g1_mul_be, alt_bn128_g1_add_be, alt_bn128_pairing_be, g1_size, pairing_output_size,
}
use groth16_verifier_program.Common.{
  ◌>>=◌, ℕ, index, Bytes, Yields, ◌<◌, length, ◌≡◌, ◌+◌, arith, ◌≤◌, Option-cases, copy_at, ◌⊎◌,
  inr, inl, ◌∷◌, suc, replicate, bind-Yields, copy_at_lem, some, length-append, [], take, zero,
  length-replicate, refl, ◌++◌, drop, length-take, length-drop,
}
use groth16_verifier_program.Groth16.Syscall.{Syscalls, group_op, g1_add, g1_mul, pairing_is_one}

-- The lengths of what the operations write, as documented.
pub record WritesOutputs (sys : Syscalls) : Type 0 where
  pub points :
      (op : ℕ) (input out : Bytes)
      → ((op ≡ alt_bn128_g1_add_be) ⊎ (op ≡ alt_bn128_g1_mul_be))
      → sys.sol_alt_bn128_group_op op input ≡ some out
      → length out ≡ g1_size
  pub pairings :
      (input out : Bytes)
      → sys.sol_alt_bn128_group_op alt_bn128_pairing_be input ≡ some out
      → length out ≡ pairing_output_size

abbrev pub HasLength : ℕ → Bytes → Type 0
HasLength n b = length b ≡ n

module _ (E : Type 0) where
  pub copy_at-Yields :
      (xs : Bytes) (lo hi : ℕ) (src : Bytes)
      → lo + length src ≡ hi
      → hi ≤ length xs
      → Yields (HasLength (length xs)) (copy_at {E = E} xs lo hi src)
  copy_at-Yields xs lo hi src h k = rw (copy_at_lem {E = E} xs lo hi src h k) (
      omega (
        arith,
        length-append (take lo xs) (src ++ drop hi xs),
        length-append src (drop hi xs),
        length-take lo xs,
        length-drop hi xs,
      ))

  pub index-Yields :
      (xs : Bytes) (i : ℕ) → i < length xs → Yields (λ _. Unit {0}) (index {E = E} xs i)
  unfolding index
  index-Yields [] i h = absurd (omega (arith, h))
  index-Yields (x ∷ xs) zero h = tt
  index-Yields (x ∷ xs) (suc i) h = index-Yields xs i (omega (arith, h))

module _ (sys : Syscalls) (out : WritesOutputs sys) where
  point-Yields :
      (op : ℕ) (input : Bytes)
      → ((op ≡ alt_bn128_g1_add_be) ⊎ (op ≡ alt_bn128_g1_mul_be))
      → Yields (HasLength 64) (group_op sys op input)
  unfolding group_op
  point-Yields op input which = elim (Option-cases (sys.sol_alt_bn128_group_op op input)) [
    | inl none_left ↦ rw (none_left, Yields) tt
    | inr (b, e) ↦ rw (e, Yields) (out.points op input b which e)
  ]

  -- An operation on two operands that fill its input.
  two_operands :
      (op size : ℕ) (a b : Bytes)
      → ((op ≡ alt_bn128_g1_add_be) ⊎ (op ≡ alt_bn128_g1_mul_be))
      → length a ≡ 64
      → 64 + length b ≡ size
      → Yields (HasLength 64) (
          copy_at (replicate size 0) 0 g1_size a >>= λ (input : Bytes).
          copy_at input g1_size size b >>= group_op sys op)
  two_operands op size a b which la lb =
      bind-Yields (HasLength (length (replicate {A = ℕ} size 0))) (HasLength 64) _ _
        (copy_at-Yields Groth16Error (replicate size 0) 0 64 a (omega (arith, la))
          (omega (arith, lb, length-replicate {A = ℕ} size 0)))
        (λ input l.
          bind-Yields (HasLength (length input)) (HasLength 64) _ _
            (copy_at-Yields Groth16Error input 64 size b lb
              (omega (arith, l, length-replicate {A = ℕ} size 0)))
            (λ full _. point-Yields op full which))

  pub g1_add-Yields :
      (a b : Bytes) → length a ≡ 64 → length b ≡ 64 → Yields (HasLength 64) (g1_add sys a b)
  unfolding g1_add
  g1_add-Yields a b la lb =
      two_operands alt_bn128_g1_add_be 128 a b (inl refl) la (omega (arith, lb))

  pub g1_mul-Yields :
      (p scalar : Bytes)
      → length p ≡ 64
      → length scalar ≡ 32
      → Yields (HasLength 64) (g1_mul sys p scalar)
  unfolding g1_mul
  g1_mul-Yields p scalar lp ls =
      two_operands alt_bn128_g1_mul_be 96 p scalar (inr refl) lp (omega (arith, ls))

  pub pairing_is_one-Yields : (input : Bytes) → Yields (λ _. Unit {0}) (pairing_is_one sys input)
  unfolding pairing_is_one group_op
  pairing_is_one-Yields input =
      elim (Option-cases (sys.sol_alt_bn128_group_op alt_bn128_pairing_be input)) [
        | inl none_left ↦ rw (none_left, Yields) tt
        | inr (b, e) ↦
            rw (e, Yields)
              (bind-Yields (λ _. Unit {0}) (λ _. Unit {0}) (index b 31) _
                (index-Yields Groth16Error b 31 (omega (arith, out.pairings input b e)))
                (λ _ _. tt))
      ]
