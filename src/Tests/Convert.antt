-- ===== src/Tests/Convert.antt =====
-- The theorems on the conversion tool, at points of the small curves.
use groth16_verifier_program.Convert.Gnark.ParseKey.Files.{
  parse_verifying_key-reads, parse_verifying_key-counts, parse_verifying_key-commitments,
}
use groth16_verifier_program.Convert.Wire.Key.{decode_body_iff}
use groth16_verifier_program.Groth16.Constants.{vk_body_len}
use groth16_verifier_program.Convert.Wire.RoundTrip.{
  new_key_lem, key_elements-new_key, key_from_body_lem,
}
use groth16_verifier_program.Convert.Gnark.ParseProof.{parse_proof-reads}
use groth16_verifier_program.Convert.Gnark.Outcomes.{parsers_return, parse_verifying_key-AreValid}
use groth16_verifier_program.Convert.Gnark.ParseWitness.{scalars_bytes, parse_public_witness-reads}
use groth16_verifier_program.Convert.Wire.Coordinates.{fq2_bytes}
use groth16_verifier_program.Convert.Gnark.Points.{u32_bytes}
use groth16_verifier_program.Convert.Wire.Points.{g2_bytes, g1_bytes, g1_from_bytes_iff}
use groth16_verifier_program.Convert.Gnark.Encoding.{compressed_bytes}
use groth16_verifier_program.Tests.Toy.{toy, toy-IsArk, bit_bytes}
use groth16_verifier_program.Convert.Ark.{Fq2, IsValid}
use groth16_verifier_program.Convert.Wire.Body.{AreValid, key_body}
use groth16_verifier_program.Convert.Gnark.ParseKey.{
  AreG1Encodings, IsHead, gnark_key, gnark_prefix,
}
use groth16_verifier_program.Convert.Wire.Proof.{AreProofPoints, proof_bytes, proof_elements_iff}
use groth16_verifier_program.Convert.Gnark.{parse_public_witness, parse_proof, parse_verifying_key}
use groth16_verifier_program.Convert.Wire.{
  decode_body, new_key, ProofElements, OnChainKey, g1_from_bytes, key_elements, key_from_body,
  KeyElements, proof_elements,
}
use mathlib.Core.List.{flatten}
use groth16_verifier_program.Common.{
  ◌>>=◌, ℕ, some, Returns, Option, Bool, replicate, Bytes, List, true, ◌++◌, ◌∷◌, All, false, ◌≡◌,
  refl, none, [], IsByte, err, inr, ok, arith, ◌↔◌, inl, length, ◌+◌, ◌-◌, ◌≤◌, ◌∙◌,
}
use groth16_verifier_program.Convert.Errors.{ConvertError, Reason, unexpected_eof}
use groth16_verifier_program.Convert.Arkworks.{
  key, ArkVerifyingKey, key_from_on_chain, key_from_on_chain-key,
}

abbrev G₁ : Type 0
G₁ = Option (Bool × Bool)

abbrev G₂ : Type 0
G₂ = Option (Fq2 Bool × Fq2 Bool)

-- The larger and the smaller root over one x, and a point of the second curve.
abbrev larger₁ : G₁
larger₁ = some (true, true)

abbrev smaller₁ : G₁
smaller₁ = some (true, false)

abbrev fq2 : Bool → Fq2 Bool
fq2 b = record { c0 = b; c1 = false }

abbrev point₂ : G₂
point₂ = some (fq2 true, fq2 true)

abbrev other₂ : G₂
other₂ = some (fq2 false, fq2 true)

abbrev pub elements₁ : KeyElements toy
elements₁ = record {
  alpha = larger₁;
  beta = point₂;
  gamma = other₂;
  delta = point₂;
  ic = smaller₁ ∷ none ∷ [];
}

elements₁-AreValid : AreValid toy elements₁
elements₁-AreValid = record {
  alpha = refl;
  beta = refl;
  gamma = refl;
  delta = refl;
  ic = (refl, (refl, tt));
}

abbrev points₃ : ProofElements toy
points₃ = record { a = smaller₁; b = other₂; c = larger₁ }

points₃-AreProofPoints : AreProofPoints toy points₃
points₃-AreProofPoints = record { a = refl; b = refl; c = refl }

-- gnark's compressed and uncompressed bytes.
abbrev short₁ : G₁ → Bytes
short₁ p = compressed_bytes toy.G1 32 bit_bytes toy-IsArk.g1.is_largest p

abbrev short₂ : G₂ → Bytes
short₂ q = compressed_bytes toy.G2 64 (fq2_bytes toy) toy-IsArk.g2.is_largest q

head₁ :
    IsHead toy toy-IsArk elements₁
      (short₁ larger₁)
      (g1_bytes toy smaller₁)
      (g2_bytes toy point₂)
      (short₂ other₂)
      (short₁ none)
      (short₂ point₂)
head₁ = record {
  beta_g1 = smaller₁;
  delta_g1 = none;
  alpha = (refl, inr refl);
  beta₁ = (refl, inl refl);
  beta₂ = (refl, inl refl);
  gamma = (refl, inr refl);
  delta₁ = (refl, inr refl);
  delta₂ = (refl, inr refl);
}

abbrev table₁ : List Bytes
table₁ = short₁ smaller₁ ∷ g1_bytes toy none ∷ []

table₁-AreG1Encodings : AreG1Encodings toy toy-IsArk elements₁.ic table₁
table₁-AreG1Encodings = ((refl, inr refl), ((refl, inl refl), tt))

-- The file of the key, with one empty slice of committed inputs.
abbrev pub file₁ : ℕ → Bytes → Bytes
file₁ keys rest =
    gnark_key (short₁ larger₁) (g1_bytes toy smaller₁) (g2_bytes toy point₂) (short₂ other₂)
      (short₁ none) (short₂ point₂) 2 table₁ 1 keys rest

-- A key with its flags, an empty slice and all counts, read to its end.
parse_verifying_key-reads_example : parse_verifying_key toy (file₁ 0 []) ≡ new_key toy elements₁
unfolding replicate flatten
parse_verifying_key-reads_example =
    parse_verifying_key-reads toy toy-IsArk elements₁ (short₁ larger₁) (g1_bytes toy smaller₁)
      (g2_bytes toy point₂) (short₂ other₂) (short₁ none) (short₂ point₂) table₁ 1 [] head₁
      table₁-AreG1Encodings (omega arith) (omega arith)

-- Two slices, of which the second has five elements, and a file with commitment keys.
parse_verifying_key-commitments_example :
    parse_verifying_key toy (
      gnark_prefix
        (short₁ larger₁)
        (g1_bytes toy smaller₁)
        (g2_bytes toy point₂)
        (short₂ other₂)
        (short₁ none)
        (short₂ point₂)
        2
        table₁
        2
        1
        5
        (1 ∷ 2 ∷ []))
    ≡ err (ConvertError.unsupported Reason.committed_inputs)
unfolding replicate flatten
parse_verifying_key-commitments_example =
    parse_verifying_key-commitments toy toy-IsArk elements₁ (short₁ larger₁) (g1_bytes toy smaller₁)
      (g2_bytes toy point₂) (short₂ other₂) (short₁ none) (short₂ point₂) table₁ 2 1 5 (1 ∷ 2 ∷ [])
      head₁ table₁-AreG1Encodings (omega arith) (omega arith) (omega arith) (omega arith)

with_keys :
    parse_verifying_key toy (file₁ 3 (1 ∷ 2 ∷ []))
    ≡ err (ConvertError.unsupported Reason.commitment_keys)
unfolding replicate flatten
with_keys =
    parse_verifying_key-commitments toy toy-IsArk elements₁ (short₁ larger₁) (g1_bytes toy smaller₁)
      (g2_bytes toy point₂) (short₂ other₂) (short₁ none) (short₂ point₂) table₁ 1 1 3 (1 ∷ 2 ∷ [])
      head₁ table₁-AreG1Encodings (omega arith) (omega arith) (omega arith) (omega arith)

-- The key's six points, and a count without points.
abbrev cut_off : Bytes
cut_off =
    short₁ larger₁
    ++ (g1_bytes toy smaller₁
        ++ (g2_bytes toy point₂
            ++ (short₂ other₂
                ++ (short₁ none ++ (short₂ point₂ ++ (u32_bytes 4294967295 ++ (0 ∷ [])))))))

parse_verifying_key-counts_example : parse_verifying_key toy cut_off ≡ err unexpected_eof
unfolding replicate
parse_verifying_key-counts_example =
    parse_verifying_key-counts toy toy-IsArk elements₁ (short₁ larger₁) (g1_bytes toy smaller₁)
      (g2_bytes toy point₂) (short₂ other₂) (short₁ none) (short₂ point₂) 4294967295 (0 ∷ []) head₁
      (omega arith) (inl (omega arith))

pub file₁-IsByte : All IsByte (file₁ 0 [])
unfolding replicate flatten
file₁-IsByte = omega arith

parsers_return_example :
    Returns (parse_verifying_key toy (file₁ 0 []))
    × Returns (parse_proof toy (file₁ 0 []))
    × Returns (parse_public_witness toy (file₁ 0 []))
parsers_return_example = parsers_return toy toy-IsArk (file₁ 0 []) file₁-IsByte

abbrev pub key₁ : OnChainKey
key₁ = record { body = key_body toy elements₁; num_public_inputs = 1 }

pub new_key₁ : new_key toy elements₁ ≡ ok key₁
new_key₁ = new_key_lem toy toy-IsArk elements₁

pub parsed₁ : parse_verifying_key toy (file₁ 0 []) ≡ ok key₁
parsed₁ = parse_verifying_key-reads_example ∙ new_key₁

parse_verifying_key-AreValid_example :
    (e : KeyElements toy) × AreValid toy e
    × (key_elements toy key₁ ≡ ok e)
    × (length e.ic ≡ key₁.num_public_inputs + 1)
    × (length key₁.body ≡ vk_body_len key₁.num_public_inputs)
parse_verifying_key-AreValid_example =
    parse_verifying_key-AreValid toy toy-IsArk (file₁ 0 []) key₁ file₁-IsByte parsed₁

key_elements-new_key_example :
    (key_elements toy key₁ ≡ ok elements₁)
    × (length elements₁.ic ≡ key₁.num_public_inputs + 1)
    × (length key₁.body ≡ vk_body_len key₁.num_public_inputs)
key_elements-new_key_example =
    key_elements-new_key toy toy-IsArk elements₁ key₁ elements₁-AreValid new_key₁

decode_body_iff_example : (decode_body toy (key_body toy elements₁) ≡ ok elements₁) ↔ (
    (key_body toy elements₁ ≡ key_body toy elements₁)
    × AreValid toy elements₁
    × (1 ≤ length elements₁.ic)
    × (length elements₁.ic ≤ 152))
decode_body_iff_example = decode_body_iff toy toy-IsArk (key_body toy elements₁) elements₁

key_from_body_lem_example : key_from_body toy (key_body toy elements₁) ≡ (
    decode_body toy (key_body toy elements₁) >>= λ (e : KeyElements toy).
    ok (record { body = key_body toy elements₁; num_public_inputs = length e.ic - 1 }))
key_from_body_lem_example = key_from_body_lem toy toy-IsArk (key_body toy elements₁)

-- A proof, its points in both forms, with a byte too many.
parse_proof-reads_example :
    parse_proof toy (
      short₁ smaller₁
      ++ (g2_bytes toy other₂
          ++ (g1_bytes toy larger₁ ++ (u32_bytes 0 ++ (short₁ none ++ (9 ∷ []))))))
    ≡ err (ConvertError.trailing_bytes 1)
unfolding replicate
parse_proof-reads_example =
    parse_proof-reads toy toy-IsArk points₃ none (short₁ smaller₁) (g2_bytes toy other₂)
      (g1_bytes toy larger₁) (short₁ none) (9 ∷ []) (refl, inr refl) (refl, inl refl)
      (refl, inl refl) (refl, inr refl) (omega arith)

proof_elements_iff_example :
    (proof_elements toy (record { bytes = proof_bytes toy points₃ }) ≡ ok points₃)
    ↔ ((proof_bytes toy points₃ ≡ proof_bytes toy points₃) × AreProofPoints toy points₃)
proof_elements_iff_example =
    proof_elements_iff toy toy-IsArk (record { bytes = proof_bytes toy points₃ }) points₃ refl

g1_from_bytes_iff_example :
    (g1_from_bytes toy (g1_bytes toy larger₁) ≡ ok larger₁)
    ↔ ((g1_bytes toy larger₁ ≡ g1_bytes toy larger₁) × IsValid toy.G1 larger₁)
g1_from_bytes_iff_example = g1_from_bytes_iff toy toy-IsArk (g1_bytes toy larger₁) larger₁ refl

parse_public_witness-reads_example :
    parse_public_witness toy (
      u32_bytes 2
      ++ (u32_bytes 0 ++ (u32_bytes 2 ++ (scalars_bytes toy (true ∷ false ∷ []) ++ []))))
    ≡ ok (true ∷ false ∷ [])
parse_public_witness-reads_example =
    parse_public_witness-reads toy toy-IsArk (true ∷ false ∷ []) [] (omega arith)

abbrev ark_key : ArkVerifyingKey toy
ark_key = record {
  alpha_g1 = larger₁;
  beta_g2 = point₂;
  gamma_g2 = other₂;
  delta_g2 = point₂;
  gamma_abc_g1 = smaller₁ ∷ none ∷ [];
}

key_from_on_chain-key_example :
    (onchain : OnChainKey) × (key toy ark_key ≡ ok onchain)
    × (length onchain.body ≡ vk_body_len onchain.num_public_inputs)
    × (key_from_on_chain toy onchain ≡ ok ark_key)
key_from_on_chain-key_example =
    key_from_on_chain-key toy toy-IsArk ark_key elements₁-AreValid (omega arith) (omega arith)

pub shown₁ : key_elements toy key₁ ≡ ok elements₁
shown₁ = (key_elements-new_key toy toy-IsArk elements₁ key₁ elements₁-AreValid new_key₁).0
