-- ===== src/Groth16/State/StagingAccount.antt =====
-- The bytes of a staging account.
use groth16_verifier_program.Groth16.Errors.{Groth16Error}
use groth16_verifier_program.Groth16.State.KeyAccount.{u16_from_le-to_le}
use groth16_verifier_program.Groth16.Constants.{
  max_public_inputs, staging_header_len, staging_account_len, vk_body_len,
}
use groth16_verifier_program.Common.{
  index, set_index, Bytes, ◌∷◌, ◌%◌, copy_at, slice, u16_to_le, ◌/◌, slice_from, take, ◌≡◌, drop,
  ok, ◌≤◌, replicate, get_elem?, some, length, ◌++◌, arith, length-append, take-append, drop-append,
  ◌>>=◌, length-drop,
}
use groth16_verifier_program.Groth16.State.{
  read_staging_account, StagingHeader, write_staging_header, write_n, read_n,
  staging_authority_offset,
}

-- The forty bytes in front of a staged body.
abbrev pub staging_header : StagingHeader → Bytes
staging_header h =
    2
    ∷ 0
    ∷ (h.num_public_inputs % 256)
    ∷ (h.num_public_inputs / 256 % 256)
    ∷ 0
    ∷ 0
    ∷ 0
    ∷ 0
    ∷ h.authority

-- The header is written over the first forty bytes and nothing else.
pub write_staging_header_lem :
    {E : Type 0} (bytes : Bytes) (h : StagingHeader)
    → staging_header_len ≤ length bytes
    → length h.authority ≡ 32
    → write_staging_header {E = E} bytes h ≡ ok (staging_header h ++ drop staging_header_len bytes)
unfolding write_staging_header set_index write_n copy_at u16_to_le take drop replicate
write_staging_header_lem (a ∷ b ∷ c ∷ d ∷ e ∷ f ∷ g ∷ i ∷ rest) h l k = ground arith
write_staging_header_lem _ h l k = absurd (omega arith)

-- A header with a 32-byte authority and a body of its n are read back.
pub read_staging_account-header :
    (h : StagingHeader) (body : Bytes)
    → h.num_public_inputs ≤ max_public_inputs
    → length h.authority ≡ 32
    → length body ≡ vk_body_len h.num_public_inputs
    → read_staging_account (staging_header h ++ body) ≡ ok (h, body)
unfolding read_staging_account index read_n slice slice_from take drop
read_staging_account-header h body b a l = ground (
  arith,
  u16_from_le-to_le h.num_public_inputs,
  length-append h.authority body,
  take-append 32 h.authority body,
  drop-append 32 h.authority body,
)

-- The header that `write_staging_header` puts on an account of its length is read back, with the rest of
-- the account as the body, whatever the account held.
pub read_staging_account-write :
    (bytes : Bytes) (h : StagingHeader)
    → h.num_public_inputs ≤ max_public_inputs
    → length h.authority ≡ 32
    → length bytes ≡ staging_account_len h.num_public_inputs
    → (write_staging_header bytes h >>= read_staging_account)
      ≡ ok (h, drop staging_header_len bytes)
read_staging_account-write bytes h b a l =
    rw (write_staging_header_lem {E = Groth16Error} bytes h (omega (arith, l)) a)
      (read_staging_account-header h (drop 40 bytes) b a (omega (arith, l, length-drop 40 bytes)))

-- A successful read: the discriminator, the sizes, and where the header and the body stand.
pub read_staging_account-eq-ok :
    (bytes : Bytes) {h : StagingHeader} {body : Bytes}
    → read_staging_account bytes ≡ ok (h, body)
    → (get_elem? bytes 0 ≡ some 2)
      × (h.num_public_inputs ≤ max_public_inputs)
      × (length bytes ≡ staging_account_len h.num_public_inputs)
      × (body ≡ drop staging_header_len bytes)
      × (h.authority ≡ take 32 (drop staging_authority_offset bytes))
unfolding read_staging_account index read_n slice slice_from
read_staging_account-eq-ok bytes e = ground arith
