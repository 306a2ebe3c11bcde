-- ===== src/Groth16/Instruction.antt =====
-- groth16-verify/src/instruction.rs: the client's instruction builders.
use groth16_verifier_program.Common.{
  ℕ, ◌+◌, ◌*◌, ◌/◌, ◌%◌, ◌^◌, Bool, true, false, List, [], ◌∷◌, ◌++◌, Bytes, Result, ok, panic,
  ◌==◌, if◌then◌else◌, u16_to_le, u32_to_le, chunks, flatten,
}
use groth16_verifier_program.Groth16.Constants.{
  staging_account_len, vk_seed_prefix, system_program_id,
}
use groth16_verifier_program.Groth16.Tag.{Tag, as_u8}

pub record AccountMeta : Type 0 where
  pub pubkey : Bytes
  pub is_signer : Bool
  pub is_writable : Bool

-- `AccountMeta::new` and `AccountMeta::new_readonly`.
abbrev pub new : Bytes → Bool → AccountMeta
new pubkey is_signer = record { pubkey = pubkey; is_signer = is_signer; is_writable = true }

abbrev pub new_readonly : Bytes → Bool → AccountMeta
new_readonly pubkey is_signer = record {
  pubkey = pubkey;
  is_signer = is_signer;
  is_writable = false;
}

pub record Instruction : Type 0 where
  pub program_id : Bytes
  pub accounts : List AccountMeta
  pub payload : Bytes

-- `u64::to_le_bytes`.
unfoldable pub u64_to_le : ℕ → Bytes
unfolding u32_to_le
u64_to_le n = u32_to_le n ++ u32_to_le (n / 2 ^ 32)

unfoldable pub initialize_staging : Bytes → Bytes → Bytes → ℕ → Instruction
unfolding u16_to_le as_u8
initialize_staging program_id authority staging num_public_inputs = record {
  program_id = program_id;
  accounts = new_readonly authority true ∷ new staging false ∷ [];
  payload = as_u8 Tag.initialize_staging ∷ u16_to_le num_public_inputs;
}

unfoldable pub create_staging : Bytes → Bytes → Bytes → Bytes → ℕ → ℕ → Instruction × Instruction
unfolding u32_to_le u64_to_le initialize_staging system_program_id
create_staging program_id payer authority staging num_public_inputs lamports =
    let create : Instruction = record {
      program_id = system_program_id;
      accounts = new payer true ∷ new staging true ∷ [];
      payload =
          u32_to_le 0
          ++ (u64_to_le lamports
              ++ (u64_to_le (staging_account_len num_public_inputs) ++ program_id));
    } in
    (create, initialize_staging program_id authority staging num_public_inputs)

unfoldable pub write : Bytes → Bytes → Bytes → ℕ → Bytes → Instruction
unfolding u32_to_le as_u8
write program_id authority staging offset bytes = record {
  program_id = program_id;
  accounts = new_readonly authority true ∷ new staging false ∷ [];
  payload = as_u8 Tag.write ∷ (u32_to_le offset ++ bytes);
}

-- The pieces from the i-th on; `as u32` keeps the low 32 bits.
unfoldable pub write_pieces : Bytes → Bytes → Bytes → ℕ → ℕ → List Bytes → List Instruction
unfolding write
write_pieces program_id authority staging chunk i [] = []
write_pieces program_id authority staging chunk i (piece ∷ rest) =
    write program_id authority staging (i * chunk % 2 ^ 32) piece
    ∷ write_pieces program_id authority staging chunk (i + 1) rest

unfoldable pub write_body :
    {E : Type 0} → Bytes → Bytes → Bytes → Bytes → ℕ → Result E (List Instruction)
unfolding write_pieces chunks
write_body program_id authority staging body chunk =
    if chunk == 0
    then panic
    else ok (write_pieces program_id authority staging chunk 0 (chunks chunk body))

unfoldable pub publish : Bytes → Bytes → Bytes → Bytes → Bytes → Instruction
unfolding as_u8 system_program_id
publish program_id authority payer staging key = record {
  program_id = program_id;
  accounts =
      new authority true
      ∷ new payer true
      ∷ new staging false
      ∷ new key false
      ∷ new_readonly system_program_id false
      ∷ [];
  payload = as_u8 Tag.publish ∷ [];
}

unfoldable pub verify : Bytes → Bytes → Bytes → List Bytes → Instruction
unfolding as_u8
verify program_id key proof public_inputs = record {
  program_id = program_id;
  accounts = new_readonly key false ∷ [];
  payload = as_u8 Tag.verify ∷ (proof ++ flatten public_inputs);
}

unfoldable pub close_staging : Bytes → Bytes → Bytes → Instruction
unfolding as_u8
close_staging program_id authority staging = record {
  program_id = program_id;
  accounts = new authority true ∷ new staging false ∷ [];
  payload = as_u8 Tag.close_staging ∷ [];
}

-- `sha2::Sha256` and `Address::find_program_address` are given.
module _ (sha256 : Bytes → Bytes) (find_program_address : List Bytes → Bytes → Bytes × ℕ) where
  unfoldable pub vk_hash : Bytes → Bytes
  vk_hash body = sha256 body

  unfoldable pub find_key_address : Bytes → Bytes → Bytes × ℕ
  find_key_address program_id hash = find_program_address (vk_seed_prefix ∷ hash ∷ []) program_id
