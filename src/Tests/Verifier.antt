-- ===== src/Tests/Verifier.antt =====
-- The verifier, on a key with one public input over the small pairing.
use groth16_verifier_program.Groth16.Errors.{Groth16Error}
use groth16_verifier_program.Groth16.VerifyingKey.Layout.{IsLaidOut}
use groth16_verifier_program.Groth16.VerifyingKey.{
  alpha, VerifyingKey, ic, checked, neg_beta, neg_gamma, neg_delta,
}
use groth16_verifier_program.Common.{
  replicate, Bytes, ◌++◌, ℕ, chunks_exact, ◌≡◌, All, true, bytes_eq, pieces, Result, false, length,
  refl, some, IsByte, slice, arith, take, drop, Bool, ◌==◌, be_value, ok, ◌≤◌, ◌∙◌, subst, suc,
  zero,
}
use groth16_verifier_program.Groth16.Verifier.{verify}
use groth16_verifier_program.Groth16.Verifier.Verdict.{KeyPoints, verdict, verify_lem}
use groth16_verifier_program.Groth16.Proof.{Proof, fixed}
use groth16_verifier_program.Tests.Parity.{
  encode, decode, parity, parity_syscalls, parity_syscalls-Implements, decode-encode₁,
}

abbrev pub gen₁ : Bytes
gen₁ = encode 63 true

abbrev pub gen₂ : Bytes
gen₂ = encode 127 true

abbrev pub body₁ : Bytes
body₁ = (((gen₁ ++ gen₂) ++ gen₂) ++ gen₂) ++ (encode 63 false ++ gen₁)

abbrev pub key₁ : VerifyingKey checked
key₁ = record { body = body₁; num_public_inputs = 1 }

pub key₁-IsLaidOut : IsLaidOut key₁
unfolding replicate
key₁-IsLaidOut = record { bounded = omega arith; sized = refl }

pub shown :
    (k : ℕ) (r : Result Groth16Error Bytes) (c : Bytes) (p : Bool)
    → r ≡ ok c
    → decode k c ≡ some p
    → (b : Bytes) → r ≡ ok b
    → decode k b ≡ some p
shown k r c p e d b f =
    let same : c ≡ b = cc (e, f) in subst (λ (x : Bytes). decode k x ≡ some p) same d

pub decode-gen₂ : decode 127 gen₂ ≡ some true
unfolding replicate bytes_eq
decode-gen₂ = refl

pub ic_shown : (i : ℕ) → i ≤ 1 → (b : Bytes) → ic key₁ i ≡ ok b → decode 63 b ≡ some (i == 1)
unfolding ic fixed slice take drop replicate
ic_shown zero h = shown 63 _ (encode 63 false) false refl (decode-encode₁ false)
ic_shown (suc zero) h = shown 63 _ gen₁ true refl (decode-encode₁ true)
ic_shown (suc (suc i)) h = absurd (omega (arith, h))

unfoldable pub points₁ : KeyPoints parity key₁
unfolding alpha neg_beta neg_gamma neg_delta fixed slice take drop replicate
points₁ = record {
  α = true;
  neg_β = true;
  neg_γ = true;
  neg_δ = true;
  ics = λ i. i == 1;
  has_α = shown 63 (alpha key₁) gen₁ true refl (decode-encode₁ true);
  has_β = shown 127 (neg_beta key₁) gen₂ true refl decode-gen₂;
  has_γ = shown 127 (neg_gamma key₁) gen₂ true refl decode-gen₂;
  has_δ = shown 127 (neg_delta key₁) gen₂ true refl decode-gen₂;
  has_ic = ic_shown;
}

abbrev pub proof₁ : Proof
proof₁ = record { bytes = (gen₁ ++ gen₂) ++ gen₁ }

-- The scalar 1.
abbrev pub inputs₁ : Bytes
inputs₁ = encode 31 true

pub proof₁-size : length proof₁.bytes ≡ 256
unfolding replicate
proof₁-size = refl

pub inputs₁-IsByte : All IsByte inputs₁
unfolding replicate
inputs₁-IsByte = ground arith

verify_lem_example :
    verify parity_syscalls key₁ proof₁ inputs₁ ≡ verdict parity key₁ points₁ proof₁.bytes inputs₁
verify_lem_example =
    verify_lem parity_syscalls parity parity_syscalls-Implements key₁ points₁ key₁-IsLaidOut proof₁
      inputs₁ proof₁-size inputs₁-IsByte

-- The proof is accepted.
pub accepted : verify parity_syscalls key₁ proof₁ inputs₁ ≡ ok tt
unfolding points₁ chunks_exact pieces take drop replicate be_value bytes_eq
accepted = verify_lem_example ∙ refl
