-- ===== src/Groth16/Proof.antt =====
-- groth16-verify/src/proof.rs: a view of the 256 bytes `A ‖ B ‖ C`.
pub mod Views
use groth16_verifier_program.Common.{
  ℕ, ◌+◌, Bytes, Result, ok, err, ◌>>=◌, ◌>>◌, ensure, ◌==◌, leb, length, slice, take, drop,
}
use groth16_verifier_program.Groth16.Constants.{
  proof_size, g1_size, g2_size, pairing_element_size, proof_a_offset, proof_b_offset,
  proof_c_offset,
}
use groth16_verifier_program.Groth16.Errors.{Groth16Error, invalid_proof_length}

pub record Proof : Type 0 where
  pub bytes : Bytes

-- `bytes[offset..offset + N]`, which panics out of range.
unfoldable pub fixed : ℕ → Bytes → ℕ → Result Groth16Error Bytes
fixed n bytes offset = slice bytes offset (offset + n)

unfoldable pub from_bytes : Bytes → Result Groth16Error Proof
from_bytes bytes = do
  ensure (length bytes == proof_size) invalid_proof_length
  ok (record { bytes = bytes })

unfoldable pub split_from : Bytes → Result Groth16Error (Proof × Bytes)
split_from bytes = do
  ensure (leb proof_size (length bytes)) invalid_proof_length
  proof ← from_bytes (take proof_size bytes)
  ok (proof, drop proof_size bytes)

unfoldable pub a : Proof → Result Groth16Error Bytes
a p = fixed g1_size p.bytes proof_a_offset

unfoldable pub b : Proof → Result Groth16Error Bytes
b p = fixed g2_size p.bytes proof_b_offset

unfoldable pub c : Proof → Result Groth16Error Bytes
c p = fixed g1_size p.bytes proof_c_offset

unfoldable pub a_b : Proof → Result Groth16Error Bytes
a_b p = fixed pairing_element_size p.bytes proof_a_offset
