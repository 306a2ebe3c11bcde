-- ===== src/Groth16/State/KeyAccount.antt =====
-- The bytes of a key account.
use groth16_verifier_program.Groth16.VerifyingKey.Layout.{IsLaidOut}
use groth16_verifier_program.Groth16.Errors.{Groth16Error}
use groth16_verifier_program.Groth16.VerifyingKey.{VerifyingKey, unchecked, from_body_with_len}
use groth16_verifier_program.Groth16.Constants.{
  key_header_len, max_public_inputs, key_account_len, vk_body_len,
}
use groth16_verifier_program.Groth16.State.{
  KeyHeader, write_key_header, write_n, read_key_account, read_n,
}
use groth16_verifier_program.Common.{
  u16_from_le, set_index, ℕ, Bytes, ◌∷◌, ◌<◌, ◌%◌, copy_at, u16_to_le, ◌/◌, take, [], ◌≡◌, drop,
  arith, replicate, ◌≤◌, length, ok, ◌++◌, index, ◌>>=◌, slice_from, get_elem?, some, length-drop,
  ◌+◌, copy_at_lem, ◌∙◌, drop_all, append-nil, refl,
}

-- The eight bytes in front of a key's body.
abbrev pub key_header : KeyHeader → Bytes
key_header h =
    1
    ∷ h.bump
    ∷ (h.num_public_inputs % 256)
    ∷ (h.num_public_inputs / 256 % 256)
    ∷ 0
    ∷ 0
    ∷ 0
    ∷ 0
    ∷ []

pub u16_from_le-to_le : (n : ℕ) → n < 65536 → u16_from_le (n % 256) (n / 256 % 256) ≡ n
unfolding u16_from_le
u16_from_le-to_le n h = omega arith

-- Whatever the account held, the header is written over its first eight bytes and nothing else.
pub write_key_header_lem :
    {E : Type 0} (bytes : Bytes) (h : KeyHeader)
    → key_header_len ≤ length bytes
    → write_key_header {E = E} bytes h ≡ ok (key_header h ++ drop key_header_len bytes)
unfolding write_key_header set_index write_n copy_at u16_to_le take drop replicate
write_key_header_lem (a ∷ b ∷ c ∷ d ∷ e ∷ f ∷ g ∷ i ∷ rest) h l = ground arith
write_key_header_lem _ h l = absurd (omega arith)

-- The key of a body of the right length.
abbrev pub key_of : Bytes → ℕ → VerifyingKey unchecked
key_of body n = record { body = body; num_public_inputs = n }

-- A header followed by a body is read back exactly when the body has the header's n.
pub read_key_account-header :
    (h : KeyHeader) (body : Bytes)
    → h.num_public_inputs ≤ max_public_inputs
    → length body ≡ vk_body_len h.num_public_inputs
    → read_key_account (key_header h ++ body) ≡ ok (h, key_of body h.num_public_inputs)
unfolding read_key_account index read_n slice_from from_body_with_len drop
read_key_account-header h body b l = ground (arith, u16_from_le-to_le h.num_public_inputs)

-- `write_key_header` and a copy of the body behind it leave exactly the header and the body.
pub header_body :
    {E : Type 0} (bytes body : Bytes) (h : KeyHeader)
    → length bytes ≡ key_header_len + length body
    → (write_key_header bytes h >>= λ (b : Bytes). copy_at {E = E} b key_header_len (length b) body)
      ≡ ok (key_header h ++ body)
header_body {E = E} bytes body h l =
    let b : Bytes = key_header h ++ drop 8 bytes in
    let n : length b ≡ 8 + length body = omega (arith, length-drop 8 bytes) in
    rw (write_key_header_lem {E = E} bytes h (omega arith)) (
      copy_at_lem b 8 (length b) body (omega arith) (omega arith)
      ∙ rw (drop_all (length b) b (omega arith), append-nil) (unfold take in refl))

-- On an account of the length for the header's n, at most 151, whatever the account held, the header and
-- a body of that n are written without a panic and are read back.
pub read_key_account-write :
    (bytes body : Bytes) (h : KeyHeader)
    → h.num_public_inputs ≤ max_public_inputs
    → length bytes ≡ key_account_len h.num_public_inputs
    → length body ≡ vk_body_len h.num_public_inputs
    → ((write_key_header bytes h >>= λ (b : Bytes).
          copy_at {E = Groth16Error} b key_header_len (length b) body)
        >>= read_key_account)
      ≡ ok (h, key_of body h.num_public_inputs)
read_key_account-write bytes body h b l k =
    rw (header_body bytes body h (omega arith)) (read_key_account-header h body b k)

-- A successful read: what the account holds is a header and a body of the length that the header's n
-- asks for.
pub read_key_account-eq-ok :
    (bytes : Bytes) {h : KeyHeader} {vk : VerifyingKey unchecked}
    → read_key_account bytes ≡ ok (h, vk)
    → (vk.body ≡ drop key_header_len bytes)
      × (vk.num_public_inputs ≡ h.num_public_inputs)
      × IsLaidOut vk
      × (get_elem? bytes 0 ≡ some 1)
      × (get_elem? bytes 1 ≡ some h.bump)
      × (length bytes ≡ key_account_len h.num_public_inputs)
unfolding read_key_account index read_n slice_from from_body_with_len
read_key_account-eq-ok bytes e = ground (arith, length-drop 8 bytes)
