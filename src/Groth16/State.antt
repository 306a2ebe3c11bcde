-- ===== src/Groth16/State.antt =====
-- groth16-verify/src/state.rs: the headers of key accounts and staging accounts.
pub mod KeyAccount
pub mod StagingAccount
pub mod Returns
use groth16_verifier_program.Common.{
  ℕ, ◌+◌, ◌||◌, not, Bytes, Result, ok, ◌>>=◌, ◌>>◌, ensure, ◌==◌, ltb, leb, length, index,
  set_index, slice, slice_from, copy_at, replicate, u16_from_le, u16_to_le,
}
use groth16_verifier_program.Groth16.Constants.{
  max_public_inputs, key_header_len, staging_header_len, staging_account_len,
}
use groth16_verifier_program.Groth16.Errors.{
  Groth16Error, invalid_account_data, wrong_discriminator,
}
use groth16_verifier_program.Groth16.VerifyingKey.{VerifyingKey, unchecked, from_body_with_len}

abbrev pub discriminator_uninitialized : ℕ
discriminator_uninitialized = 0

abbrev pub discriminator_key : ℕ
discriminator_key = 1

abbrev pub discriminator_staging : ℕ
discriminator_staging = 2

abbrev pub discriminator_offset : ℕ
discriminator_offset = 0

abbrev pub num_public_inputs_offset : ℕ
num_public_inputs_offset = 2

abbrev pub key_bump_offset : ℕ
key_bump_offset = 1

abbrev pub staging_authority_offset : ℕ
staging_authority_offset = 8

module _ {E : Type 0} where
  unfoldable pub read_n : Bytes → Result E ℕ
  read_n bytes = do
    lo ← index bytes num_public_inputs_offset
    hi ← index bytes (num_public_inputs_offset + 1)
    ok (u16_from_le lo hi)

  unfoldable pub write_n : Bytes → ℕ → Result E Bytes
  write_n bytes n =
      copy_at bytes num_public_inputs_offset (num_public_inputs_offset + 2) (u16_to_le n)

pub record KeyHeader : Type 0 where
  pub bump : ℕ
  pub num_public_inputs : ℕ

unfoldable pub read_key_account : Bytes → Result Groth16Error (KeyHeader × VerifyingKey unchecked)
read_key_account bytes = do
  ensure (leb key_header_len (length bytes)) invalid_account_data
  disc ← index bytes discriminator_offset
  ensure (disc == discriminator_key) wrong_discriminator
  n ← read_n bytes
  body ← slice_from bytes key_header_len
  vk ← from_body_with_len body n
  bump ← index bytes key_bump_offset
  ok (record { bump = bump; num_public_inputs = n }, vk)

unfoldable pub write_key_header : {E : Type 0} → Bytes → KeyHeader → Result E Bytes
write_key_header bytes header = do
  bytes ← set_index bytes discriminator_offset discriminator_key
  bytes ← set_index bytes key_bump_offset header.bump
  bytes ← write_n bytes header.num_public_inputs
  copy_at bytes 4 key_header_len (replicate 4 0)

pub record StagingHeader : Type 0 where
  pub num_public_inputs : ℕ
  pub authority : Bytes

unfoldable pub read_staging_account : Bytes → Result Groth16Error (StagingHeader × Bytes)
read_staging_account bytes = do
  ensure (leb staging_header_len (length bytes)) invalid_account_data
  disc ← index bytes discriminator_offset
  ensure (disc == discriminator_staging) wrong_discriminator
  n ← read_n bytes
  ensure (not (ltb max_public_inputs n || not (length bytes == staging_account_len n)))
      invalid_account_data
  authority ← slice bytes staging_authority_offset staging_header_len
  body ← slice_from bytes staging_header_len
  ok (record { num_public_inputs = n; authority = authority }, body)

unfoldable pub write_staging_header : {E : Type 0} → Bytes → StagingHeader → Result E Bytes
write_staging_header bytes header = do
  bytes ← set_index bytes discriminator_offset discriminator_staging
  bytes ← set_index bytes 1 0
  bytes ← write_n bytes header.num_public_inputs
  bytes ← copy_at bytes 4 staging_authority_offset (replicate 4 0)
  copy_at bytes staging_authority_offset staging_header_len header.authority

-- The bytes that the mutable view shows.
unfoldable pub staging_body_mut : Bytes → Result Groth16Error Bytes
staging_body_mut bytes = do
  ensure (leb staging_header_len (length bytes)) invalid_account_data
  disc ← index bytes discriminator_offset
  ensure (disc == discriminator_staging) wrong_discriminator
  slice_from bytes staging_header_len
