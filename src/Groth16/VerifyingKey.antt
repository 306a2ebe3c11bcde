-- ===== src/Groth16/VerifyingKey.antt =====
-- groth16-verify/src/verifying_key.rs: a view of the body `α ‖ −β ‖ −γ ‖ −δ ‖ IC₀..ICₙ`, marked
-- with whether its points have been checked.
pub mod Layout
use groth16_verifier_program.Common.{
  ℕ, ◌+◌, ◌*◌, ◌/◌, ◌%◌, Bytes, Result, ok, err, ◌>>=◌, ◌>>◌, ensure, ok_or, ◌==◌, leb, length,
  slice_from, checked_sub,
}
use groth16_verifier_program.Groth16.Constants.{
  g1_size, g2_size, pairing_element_size, vk_alpha_offset, vk_neg_beta_offset, vk_neg_gamma_offset,
  vk_neg_delta_offset, vk_ic_offset, vk_fixed_size, max_public_inputs, vk_body_len,
}
use groth16_verifier_program.Groth16.Errors.{
  Groth16Error, invalid_key_length, too_many_public_inputs,
}
use groth16_verifier_program.Groth16.Proof.{fixed}

pub data KeyState : Type 0 where
  unchecked checked : KeyState

pub record VerifyingKey (s : KeyState) : Type 0 where
  pub body : Bytes
  pub num_public_inputs : ℕ

unfoldable pub from_body : Bytes → Result Groth16Error (VerifyingKey unchecked)
from_body body = do
  ic_bytes ← ok_or (checked_sub (length body) vk_fixed_size) invalid_key_length
  ensure (ic_bytes % g1_size == 0) invalid_key_length
  num_public_inputs ← ok_or (checked_sub (ic_bytes / g1_size) 1) invalid_key_length
  ensure (leb num_public_inputs max_public_inputs) invalid_key_length
  ok (record { body = body; num_public_inputs = num_public_inputs })

unfoldable pub from_body_with_len : Bytes → ℕ → Result Groth16Error (VerifyingKey unchecked)
from_body_with_len body num_public_inputs = do
  ensure (leb num_public_inputs max_public_inputs) too_many_public_inputs
  ensure (length body == vk_body_len num_public_inputs) invalid_key_length
  ok (record { body = body; num_public_inputs = num_public_inputs })

unfoldable pub assume_validated : VerifyingKey unchecked → VerifyingKey checked
assume_validated vk = record { body = vk.body; num_public_inputs = vk.num_public_inputs }

module _ {s : KeyState} where
  unfoldable pub alpha : VerifyingKey s → Result Groth16Error Bytes
  alpha vk = fixed g1_size vk.body vk_alpha_offset

  unfoldable pub neg_beta : VerifyingKey s → Result Groth16Error Bytes
  neg_beta vk = fixed g2_size vk.body vk_neg_beta_offset

  unfoldable pub neg_gamma : VerifyingKey s → Result Groth16Error Bytes
  neg_gamma vk = fixed g2_size vk.body vk_neg_gamma_offset

  unfoldable pub neg_delta : VerifyingKey s → Result Groth16Error Bytes
  neg_delta vk = fixed g2_size vk.body vk_neg_delta_offset

  unfoldable pub alpha_neg_beta : VerifyingKey s → Result Groth16Error Bytes
  alpha_neg_beta vk = fixed pairing_element_size vk.body vk_alpha_offset

  unfoldable pub ic : VerifyingKey s → ℕ → Result Groth16Error Bytes
  ic vk i = fixed g1_size vk.body (vk_ic_offset + i * g1_size)

  unfoldable pub ic_table : VerifyingKey s → Result Groth16Error Bytes
  ic_table vk = slice_from vk.body vk_ic_offset
