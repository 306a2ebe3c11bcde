-- ===== src/Groth16/Constants.antt =====
-- groth16-verify/src/constants.rs: sizes, offsets and opcodes.
use groth16_verifier_program.Common.{ℕ, ◌+◌, ◌*◌, [], ◌∷◌, Bytes, replicate}

abbrev pub fq_size : ℕ
fq_size = 32

abbrev pub fr_size : ℕ
fr_size = 32

abbrev pub g1_size : ℕ
g1_size = 2 * fq_size

abbrev pub g2_size : ℕ
g2_size = 4 * fq_size

-- The scalar field's modulus r, big-endian.
abbrev pub fr_modulus : Bytes
fr_modulus =
    0x30 ∷ 0x64 ∷ 0x4e ∷ 0x72 ∷ 0xe1 ∷ 0x31 ∷ 0xa0 ∷ 0x29 ∷ 0xb8 ∷ 0x50 ∷ 0x45 ∷ 0xb6 ∷ 0x81 ∷ 0x81
    ∷ 0x58 ∷ 0x5d ∷ 0x28 ∷ 0x33 ∷ 0xe8 ∷ 0x48 ∷ 0x79 ∷ 0xb9 ∷ 0x70 ∷ 0x91 ∷ 0x43 ∷ 0xe1 ∷ 0xf5
    ∷ 0x93 ∷ 0xf0 ∷ 0x00 ∷ 0x00 ∷ 0x01 ∷ []

-- `b"vk"`.
abbrev pub vk_seed_prefix : Bytes
vk_seed_prefix = b'v' ∷ b'k' ∷ []

unfoldable pub system_program_id : Bytes
unfolding replicate
system_program_id = replicate 32 0

unfoldable pub g1_identity : Bytes
unfolding replicate
g1_identity = replicate g1_size 0

abbrev pub proof_a_offset : ℕ
proof_a_offset = 0

abbrev pub proof_b_offset : ℕ
proof_b_offset = proof_a_offset + g1_size

abbrev pub proof_c_offset : ℕ
proof_c_offset = proof_b_offset + g2_size

abbrev pub proof_size : ℕ
proof_size = proof_c_offset + g1_size

abbrev pub vk_alpha_offset : ℕ
vk_alpha_offset = 0

abbrev pub vk_neg_beta_offset : ℕ
vk_neg_beta_offset = vk_alpha_offset + g1_size

abbrev pub vk_neg_gamma_offset : ℕ
vk_neg_gamma_offset = vk_neg_beta_offset + g2_size

abbrev pub vk_neg_delta_offset : ℕ
vk_neg_delta_offset = vk_neg_gamma_offset + g2_size

abbrev pub vk_ic_offset : ℕ
vk_ic_offset = vk_neg_delta_offset + g2_size

abbrev pub vk_fixed_size : ℕ
vk_fixed_size = vk_ic_offset

abbrev pub max_public_inputs : ℕ
max_public_inputs = 151

abbrev pub vk_body_len : ℕ → ℕ
vk_body_len num_public_inputs = vk_fixed_size + g1_size * (num_public_inputs + 1)

abbrev pub key_header_len : ℕ
key_header_len = 8

abbrev pub staging_header_len : ℕ
staging_header_len = 40

abbrev pub key_account_len : ℕ → ℕ
key_account_len num_public_inputs = key_header_len + vk_body_len num_public_inputs

abbrev pub staging_account_len : ℕ → ℕ
staging_account_len num_public_inputs = staging_header_len + vk_body_len num_public_inputs

abbrev pub pairing_element_size : ℕ
pairing_element_size = g1_size + g2_size

abbrev pub pairing_num_pairs : ℕ
pairing_num_pairs = 4

abbrev pub pairing_input_size : ℕ
pairing_input_size = pairing_element_size * pairing_num_pairs

abbrev pub pairing_output_size : ℕ
pairing_output_size = 32

abbrev pub pairing_slot_ab_offset : ℕ
pairing_slot_ab_offset = 0

abbrev pub pairing_slot_alpha_beta_offset : ℕ
pairing_slot_alpha_beta_offset = pairing_element_size

abbrev pub pairing_slot_l_offset : ℕ
pairing_slot_l_offset = 2 * pairing_element_size

abbrev pub pairing_slot_gamma_offset : ℕ
pairing_slot_gamma_offset = pairing_slot_l_offset + g1_size

abbrev pub pairing_slot_c_offset : ℕ
pairing_slot_c_offset = 3 * pairing_element_size

abbrev pub pairing_slot_delta_offset : ℕ
pairing_slot_delta_offset = pairing_slot_c_offset + g1_size

abbrev pub alt_bn128_g1_add_be : ℕ
alt_bn128_g1_add_be = 0

abbrev pub alt_bn128_g1_mul_be : ℕ
alt_bn128_g1_mul_be = 2

abbrev pub alt_bn128_pairing_be : ℕ
alt_bn128_pairing_be = 3

abbrev pub g1_add_input_size : ℕ
g1_add_input_size = 2 * g1_size

abbrev pub g1_mul_input_size : ℕ
g1_mul_input_size = g1_size + fr_size
