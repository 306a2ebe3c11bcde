-- ===== src/Groth16/Validation.antt =====
-- groth16-verify/src/validation.rs: every point of a key, put through a syscall that checks it.
pub mod Points
pub mod Accepted
pub mod Returns
use groth16_verifier_program.Common.{
  ℕ, zero, suc, ◌+◌, ◌*◌, ◌/◌, ◌||◌, not, Bytes, Result, ok, ◌>>=◌, ◌>>◌, ensure, ltb,
  if◌then◌else◌, replicate, copy_at,
}
use groth16_verifier_program.Groth16.Constants.{g1_size, pairing_element_size}
use groth16_verifier_program.Groth16.Errors.{Groth16Error, identity_key_element}
use groth16_verifier_program.Groth16.Scalar.{is_zero}
use groth16_verifier_program.Groth16.VerifyingKey.{
  VerifyingKey, unchecked, checked, alpha, neg_beta, neg_gamma, neg_delta, alpha_neg_beta, ic,
  assume_validated,
}
use groth16_verifier_program.Groth16.Syscall.{Syscalls, g1_add, pairing_validate_points}

-- The three pairs `(α, −β) ‖ (IC₀, −γ) ‖ (IC₀, −δ)`.
unfoldable pub key_pairing_input : VerifyingKey unchecked → Bytes → Result Groth16Error Bytes
key_pairing_input vk ic0 = do
  ab ← alpha_neg_beta vk
  input ← copy_at (replicate (3 * pairing_element_size) 0) 0 pairing_element_size ab
  input ← copy_at input pairing_element_size (pairing_element_size + g1_size) ic0
  g ← neg_gamma vk
  input ← copy_at input (pairing_element_size + g1_size) (2 * pairing_element_size) g
  input ← copy_at input (2 * pairing_element_size) (2 * pairing_element_size + g1_size) ic0
  d ← neg_delta vk
  copy_at input (2 * pairing_element_size + g1_size) (3 * pairing_element_size) d

module _ (sys : Syscalls) where
  -- The loop over `(1..=n).step_by(2)`: `rounds` of them are left, and `i` is the next index.
  unfoldable pub add_pairs : VerifyingKey unchecked → ℕ → ℕ → Result Groth16Error (Unit {0})
  add_pairs vk zero i = ok tt
  add_pairs vk (suc rounds) i = do
    a ← ic vk i
    b ← if ltb i vk.num_public_inputs then ic vk (i + 1) else ok a
    _ ← g1_add sys a b
    add_pairs vk rounds (i + 2)

  unfoldable pub check_points : VerifyingKey unchecked → Result Groth16Error (Unit {0})
  check_points vk = do
    al ← alpha vk
    ic0 ← ic vk 0
    b ← neg_beta vk
    g ← neg_gamma vk
    d ← neg_delta vk
    ensure (not (is_zero al || (is_zero b || (is_zero g || is_zero d)))) identity_key_element
    input ← key_pairing_input vk ic0
    pairing_validate_points sys input
    add_pairs vk ((vk.num_public_inputs + 1) / 2) 1

  -- `VerifyingKey::validate_for_publish`.
  unfoldable pub validate_for_publish :
      VerifyingKey unchecked → Result Groth16Error (VerifyingKey checked)
  validate_for_publish vk = do check_points vk; ok (assume_validated vk)
