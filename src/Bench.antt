-- ===== src/Bench.antt =====
-- tools/bench/src/lib.rs: the program that runs single stages of the verifier.
pub mod Agreement
use groth16_verifier_program.Groth16.Constants.{
  vk_fixed_size, vk_body_len, proof_size, g1_size, fr_size,
}
use groth16_verifier_program.Groth16.VerifyingKey.{
  VerifyingKey, checked, from_body_with_len, assume_validated,
}
use groth16_verifier_program.Groth16.Errors.{Groth16Error}
use groth16_verifier_program.Groth16.Syscall.{Syscalls}
use groth16_verifier_program.Groth16.Verifier.{
  assemble_pairing_input, check_pairing, prepare_inputs,
}
use groth16_verifier_program.Groth16.Proof.{from_bytes, Proof}
use groth16_verifier_program.Program.Errors.{ProgramError, invalid_instruction_data}
use groth16_verifier_program.Common.{
  ◌>>=◌, ◌>>◌, set_index, ensure, slice, length, copy_at, index, replicate, leb, u16_from_le, take,
  [], ◌/◌, drop, ◌*◌, u16_to_le, ◌++◌,
}
use groth16_verifier_program.Common.{
  panic, Result, Bytes, checked_sub, ℕ, none, Option, map_err, err, some, ok, ◌∷◌, if◌then◌else◌,
  ◌==◌,
}

abbrev pub tag_null : ℕ
tag_null = 255

abbrev pub tag_baseline : ℕ
tag_baseline = 0

abbrev pub tag_assemble : ℕ
tag_assemble = 1

abbrev pub tag_msm : ℕ
tag_msm = 2

abbrev pub tag_pairing : ℕ
tag_pairing = 3

abbrev pub tag_verify : ℕ
tag_verify = 4

abbrev pub return_data_len : ℕ
return_data_len = 64

pub record Input : Type 0 where
  pub n : ℕ
  pub vk_body : Bytes
  pub proof : Bytes
  pub public_inputs : Bytes
  pub l : Bytes

-- `split_at_checked(at).ok_or(InvalidInstructionData)`.
unfoldable pub split_at : ℕ → Bytes → Result ProgramError (Bytes × Bytes)
split_at at xs = do
  ensure (leb at (length xs)) invalid_instruction_data
  ok (take at xs, drop at xs)

unfoldable pub parse : Bytes → Result ProgramError Input
parse input = do
  (two, rest) ← split_at 2 input
  lo ← index two 0
  hi ← index two 1
  let n = u16_from_le lo hi
  (vk_body, rest) ← split_at (vk_body_len n) rest
  (proof, rest) ← split_at proof_size rest
  (public_inputs, l) ← split_at (n * fr_size) rest
  ensure (length l == g1_size) invalid_instruction_data
  ok (record { n = n; vk_body = vk_body; proof = proof; public_inputs = public_inputs; l = l })

-- `.map_err(|_| InvalidInstructionData)`.
abbrev pub invalid : {A : Type 0} → Result Groth16Error A → Result ProgramError A
invalid m = map_err (λ _. invalid_instruction_data) m

-- `.is_ok()`, and the flag as a byte.
abbrev pub is_ok : {A : Type 0} → Result Groth16Error A → Result ProgramError ℕ
is_ok (ok a) = ok 1
is_ok (err e) = ok 0
is_ok panic = panic

-- `out.copy_from_slice(..)`, and `out[0] = flag`, on the zeroed `out`.
unfoldable pub filled : Bytes → Result ProgramError (Option Bytes)
filled bytes = do out ← copy_at (replicate return_data_len 0) 0 return_data_len bytes; ok (some out)

unfoldable pub flagged : ℕ → Result ProgramError (Option Bytes)
flagged flag = do out ← set_index (replicate return_data_len 0) 0 flag; ok (some out)

module _ (sys : Syscalls) (vk : VerifyingKey checked) (proof : Proof) where
  unfoldable pub run_baseline : Input → Result ProgramError (Option Bytes)
  run_baseline input = do front ← slice input.vk_body 0 return_data_len; filled front

  unfoldable pub run_assemble : Input → Result ProgramError (Option Bytes)
  run_assemble input = do
    buf ← invalid (assemble_pairing_input vk proof input.l)
    front ← slice buf 0 return_data_len
    filled front

  unfoldable pub run_msm : Input → Result ProgramError (Option Bytes)
  run_msm input = do l ← invalid (prepare_inputs sys vk input.public_inputs); filled l

  unfoldable pub run_pairing : Bytes → Result ProgramError (Option Bytes)
  run_pairing l = do
    buf ← invalid (assemble_pairing_input vk proof l)
    flag ← is_ok (check_pairing sys buf)
    flagged flag

  unfoldable pub run_verify : Input → Result ProgramError (Option Bytes)
  run_verify input = do l ← invalid (prepare_inputs sys vk input.public_inputs); run_pairing l

  -- What a tag's stage leaves in `out`; nothing for the tag that writes no return data.
  unfoldable pub run_stage : ℕ → Input → Result ProgramError (Option Bytes)
  run_stage tag input =
      if tag == tag_null
      then ok none
      else if tag == tag_baseline
      then run_baseline input
      else if tag == tag_assemble
      then run_assemble input
      else if tag == tag_msm
      then run_msm input
      else if tag == tag_pairing
      then run_pairing input.l
      else if tag == tag_verify
      then run_verify input
      else err invalid_instruction_data

module _ (sys : Syscalls) where
  -- The return data that is set.
  unfoldable pub process_instruction : Bytes → Result ProgramError (Option Bytes)
  process_instruction [] = err invalid_instruction_data
  process_instruction (tag ∷ rest) = do
    input ← parse rest
    vk ← invalid (from_body_with_len input.vk_body input.n)
    proof ← invalid (from_bytes input.proof)
    run_stage sys (assume_validated vk) proof tag input

-- The host's subtraction panics below 0.
abbrev pub minus : ℕ → ℕ → Result ProgramError ℕ
unfolding checked_sub
minus a b = elim (checked_sub a b) [ none ↦ panic | some d ↦ ok d ]

unfoldable pub instruction_data : ℕ → Bytes → Bytes → Bytes → Bytes → Result ProgramError Bytes
instruction_data tag vk_body proof public_inputs l = do
  table ← minus (length vk_body) vk_fixed_size
  n ← minus (table / g1_size) 1
  ok (tag ∷ (u16_to_le n ++ (vk_body ++ (proof ++ (public_inputs ++ l)))))
