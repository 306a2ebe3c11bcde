-- ===== src/Groth16/Syscall.antt =====
-- groth16-verify/src/syscall.rs: wrappers of `sol_alt_bn128_group_op`, which the runtime
-- implements and which is a parameter here.
pub mod Returns
use groth16_verifier_program.Common.{
  ℕ, ◌-◌, Bool, Bytes, Option, none, some, Result, ok, err, ◌>>=◌, ◌==◌, replicate, copy_at, index,
}
use groth16_verifier_program.Groth16.Constants.{
  g1_size, g1_add_input_size, g1_mul_input_size, alt_bn128_g1_add_be, alt_bn128_g1_mul_be,
  alt_bn128_pairing_be, pairing_output_size,
}
use groth16_verifier_program.Groth16.Errors.{Groth16Error, invalid_point}

-- The bytes that the syscall writes, or none where its return code is not 0.
pub record Syscalls : Type 0 where
  pub sol_alt_bn128_group_op : ℕ → Bytes → Option Bytes

module _ (sys : Syscalls) where
  unfoldable pub group_op : ℕ → Bytes → Result Groth16Error Bytes
  group_op op input = elim (sys.sol_alt_bn128_group_op op input) [
    | none ↦ err invalid_point
    | some out ↦ ok out
  ]

  unfoldable pub g1_add : Bytes → Bytes → Result Groth16Error Bytes
  g1_add a b = do
    input ← copy_at (replicate g1_add_input_size 0) 0 g1_size a
    input ← copy_at input g1_size g1_add_input_size b
    group_op alt_bn128_g1_add_be input

  unfoldable pub g1_mul : Bytes → Bytes → Result Groth16Error Bytes
  g1_mul p scalar = do
    input ← copy_at (replicate g1_mul_input_size 0) 0 g1_size p
    input ← copy_at input g1_size g1_mul_input_size scalar
    group_op alt_bn128_g1_mul_be input

  unfoldable pub pairing_is_one : Bytes → Result Groth16Error Bool
  pairing_is_one input = do
    out ← group_op alt_bn128_pairing_be input
    last ← index out (pairing_output_size - 1)
    ok (last == 1)

  unfoldable pub pairing_validate_points : Bytes → Result Groth16Error (Unit {0})
  pairing_validate_points input = do _ ← pairing_is_one input; ok tt
