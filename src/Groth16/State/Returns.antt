-- ===== src/Groth16/State/Returns.antt =====
-- The readers and writers of account headers return on every string of bytes.
use groth16_verifier_program.Common.{
  Bytes, index, ℕ, slice_from, slice, Returns, arith, Returns-of, get_elem?_lt,
}
use groth16_verifier_program.Groth16.State.{read_key_account, read_staging_account, read_n}
use groth16_verifier_program.Groth16.VerifyingKey.{from_body_with_len}

pub from_body_with_len-Returns : (body : Bytes) (n : ℕ) → Returns (from_body_with_len body n)
unfolding from_body_with_len
from_body_with_len-Returns body n = Returns-of (from_body_with_len body n) (λ e. ground (arith, e))

pub read_key_account-Returns : (bytes : Bytes) → Returns (read_key_account bytes)
unfolding read_key_account read_n index slice_from from_body_with_len
read_key_account-Returns bytes = Returns-of (read_key_account bytes) (λ e. ground (
  arith,
  e,
  get_elem?_lt bytes 0,
  get_elem?_lt bytes 1,
  get_elem?_lt bytes 2,
  get_elem?_lt bytes 3,
))

pub read_staging_account-Returns : (bytes : Bytes) → Returns (read_staging_account bytes)
unfolding read_staging_account read_n index slice slice_from
read_staging_account-Returns bytes =
    Returns-of (read_staging_account bytes)
      (λ e. ground (arith, e, get_elem?_lt bytes 0, get_elem?_lt bytes 2, get_elem?_lt bytes 3))
