-- ===== src/Tests/Layouts.antt =====
-- The theorems on scalars, layouts and accounts, at concrete bytes.
use groth16_verifier_program.Program.Processor.Verify.Effect.{process_lem, Verifies, process-eq-ok}
use groth16_verifier_program.Groth16.Verifier.Verdict.{has_table, verdict, KeyPoints}
use groth16_verifier_program.Groth16.Verifier.Combination.{
  Encodes, terms, scalars, prepare_inputs_lem,
}
use groth16_verifier_program.Tests.Parity.{parity_syscalls, parity, parity_syscalls-Implements}
use groth16_verifier_program.Groth16.Scalar.Order.{is_canonical_iff}
use groth16_verifier_program.Groth16.Verifier.{prepare_inputs, all_canonical}
use groth16_verifier_program.Groth16.State.StagingAccount.{read_staging_account-header}
use groth16_verifier_program.Groth16.Scalar.Zero.{is_zero_iff}
use groth16_verifier_program.Program.Errors.Codes.{from_program, map_groth16-injective}
use groth16_verifier_program.Program.Processor.Write.Effect.{Writes, write_iff}
use groth16_verifier_program.Groth16.VerifyingKey.Layout.{IsLaidOut, from_body_iff, key_views_cover}
use groth16_verifier_program.Groth16.Constants.{key_header_len, g1_size, g2_size}
use groth16_verifier_program.Groth16.Proof.Views.{split_from_iff}
use groth16_verifier_program.Tests.Cluster.{address, cluster}
use groth16_verifier_program.Groth16.State.KeyAccount.{key_of, read_key_account-write}
use groth16_verifier_program.Program.Errors.{map_groth16, Groth16ProgramError, into}
use groth16_verifier_program.Groth16.Scalar.{is_canonical, is_zero, slice_lt}
use groth16_verifier_program.Groth16.Errors.{Groth16Error}
use groth16_verifier_program.Groth16.State.{KeyHeader, write_key_header, read_key_account}
use groth16_verifier_program.Groth16.Proof.{split_from}
use groth16_verifier_program.Program.Runtime.{update, Store}
use groth16_verifier_program.Common.{
  ◌∷◌, replicate, Bytes, [], ◌++◌, ◌≡◌, chunks_exact, bytes_eq, some, true, pieces, ok, ◌>>=◌, take,
  drop, ◌↔◌, copy_at, length, be_value, ◌<◌, refl, arith, u32_from_le, bytes_eq_ne, map_err, ◌∙◌,
}
use groth16_verifier_program.Groth16.VerifyingKey.{
  from_body, alpha, neg_beta, neg_gamma, neg_delta, alpha_neg_beta, ic_table, assume_validated,
}
use groth16_verifier_program.Program.Processor.Write
use groth16_verifier_program.Program.Processor.Publish
use groth16_verifier_program.Program.Processor.Write.Effect.{written}
use groth16_verifier_program.Program.Processor.Verify
use groth16_verifier_program.Tests.Verifier.{
  body₁, proof₁, inputs₁, key₁, points₁, key₁-IsLaidOut, proof₁-size, inputs₁-IsByte,
}
use groth16_verifier_program.Tests.Registry.{
  before, published_store, pair₃, program, key_address, signer, writable, header₁,
}

-- The scalar 1.
is_canonical_iff_example : (is_canonical inputs₁ ≡ true) ↔ (
    be_value inputs₁
    < 21888242871839275222246405745257275088548364400416034343698204186575808495617)
unfolding replicate
is_canonical_iff_example = is_canonical_iff inputs₁ inputs₁-IsByte refl

is_zero_iff_example : (is_zero inputs₁ ≡ true) ↔ (inputs₁ ≡ replicate 32 0)
unfolding replicate
is_zero_iff_example = is_zero_iff 4 inputs₁ refl

split_from_iff_example :
    (split_from (proof₁.bytes ++ inputs₁) ≡ ok (proof₁, inputs₁))
    ↔ ((length proof₁.bytes ≡ 256) × (proof₁.bytes ++ inputs₁ ≡ proof₁.bytes ++ inputs₁))
split_from_iff_example = split_from_iff (proof₁.bytes ++ inputs₁) proof₁ inputs₁

from_body_iff_example :
    (from_body body₁ ≡ ok (key_of body₁ 1)) ↔ ((body₁ ≡ body₁) × IsLaidOut (key_of body₁ 1))
from_body_iff_example = from_body_iff body₁ (key_of body₁ 1)

key_views_cover_example :
    (al : Bytes) × (nb : Bytes) × (ng : Bytes) × (nd : Bytes) × (ics : Bytes) × (alpha key₁ ≡ ok al)
    × (neg_beta key₁ ≡ ok nb)
    × (neg_gamma key₁ ≡ ok ng)
    × (neg_delta key₁ ≡ ok nd)
    × (alpha_neg_beta key₁ ≡ ok (al ++ nb))
    × (ic_table key₁ ≡ ok ics)
    × (key₁.body ≡ (((al ++ nb) ++ ng) ++ nd) ++ ics)
    × (length al ≡ g1_size)
    × (length nb ≡ g2_size)
    × (length ng ≡ g2_size)
    × (length nd ≡ g2_size)
key_views_cover_example = key_views_cover key₁ key₁-IsLaidOut

abbrev key_header₁ : KeyHeader
key_header₁ = record { bump = 254; num_public_inputs = 1 }

read_key_account-write_example :
    ((write_key_header (replicate 584 7) key_header₁ >>= λ (b : Bytes).
    copy_at {E = Groth16Error} b key_header_len (length b) body₁)
      >>= read_key_account)
    ≡ ok (key_header₁, key_of body₁ 1)
unfolding replicate
read_key_account-write_example =
    read_key_account-write (replicate 584 7) body₁ key_header₁ (omega arith) refl refl

map_groth16-injective_example :
    ((e' : Groth16Error)
      → map_groth16 Groth16Error.proof_invalid ≡ map_groth16 e'
      → Groth16Error.proof_invalid ≡ e')
    × ((p : Groth16ProgramError)
        → map_groth16 Groth16Error.proof_invalid ≡ into p
        → from_program p ≡ some Groth16Error.proof_invalid)
map_groth16-injective_example = map_groth16-injective Groth16Error.proof_invalid

-- One byte, at the body's beginning.
abbrev wrote : Store
wrote =
    update before (address 3)
      (record (before (address 3)) { contents = written (before (address 3)).contents 0 (7 ∷ []) })

write_iff_example :
    (Write.process program pair₃ (0 ∷ 0 ∷ 0 ∷ 0 ∷ 7 ∷ []) before ≡ ok wrote)
    ↔ Writes program pair₃ (0 ∷ 0 ∷ 0 ∷ 0 ∷ 7 ∷ []) before wrote
write_iff_example = write_iff program pair₃ (0 ∷ 0 ∷ 0 ∷ 0 ∷ 7 ∷ []) before wrote

-- The write goes through.
wrote_lem : Write.process program pair₃ (0 ∷ 0 ∷ 0 ∷ 0 ∷ 7 ∷ []) before ≡ ok wrote
unfolding update bytes_eq replicate take drop u32_from_le
wrote_lem = write_iff_example.1 (record {
  authority = signer 1;
  staging = writable (address 3);
  header = header₁;
  offset = 0;
  given = refl;
  pair = record {
    signed = refl;
    writable = refl;
    owned = refl;
    distinct = bytes_eq_ne (address 1) (address 3) refl;
  };
  long = omega arith;
  sent = refl;
  staged = read_staging_account-header header₁ body₁ (omega arith) refl refl;
  authorized = refl;
  within = omega arith;
  result = refl;
})

prepare_inputs_lem_example :
    (l : Bytes) × (prepare_inputs parity_syscalls key₁ inputs₁ ≡ ok l)
    × Encodes parity l (parity.add (points₁.ics 0) (terms parity points₁.ics 0 (scalars inputs₁)))
unfolding replicate chunks_exact pieces take drop is_canonical slice_lt all_canonical
prepare_inputs_lem_example =
    prepare_inputs_lem parity_syscalls parity parity_syscalls-Implements key₁ points₁.ics inputs₁
      (has_table parity_syscalls parity parity_syscalls-Implements key₁ points₁ key₁-IsLaidOut) refl
      refl

stored_points : KeyPoints parity (assume_validated (key_of body₁ 1))
unfolding assume_validated
stored_points = points₁

process_lem_example :
    Verify.process cluster program
      (writable key_address ∷ [])
      (proof₁.bytes ++ inputs₁)
      published_store
    ≡ map_err map_groth16
        (verdict parity (assume_validated (key_of body₁ 1)) stored_points proof₁.bytes inputs₁)
unfolding update bytes_eq replicate take Publish.create_key_account Publish.top_up assume_validated
process_lem_example =
    process_lem cluster parity parity_syscalls-Implements program (writable key_address)
      published_store key_header₁ body₁ proof₁ inputs₁ stored_points refl refl (omega arith) refl
      proof₁-size inputs₁-IsByte

runs :
    Verify.process cluster program
      (writable key_address ∷ [])
      (proof₁.bytes ++ inputs₁)
      published_store
    ≡ ok tt
unfolding assume_validated stored_points points₁ chunks_exact pieces take drop replicate be_value
    bytes_eq
runs = process_lem_example ∙ refl

process-eq-ok_example :
    Verifies cluster program (writable key_address ∷ []) (proof₁.bytes ++ inputs₁) published_store
process-eq-ok_example =
    process-eq-ok cluster program (writable key_address ∷ []) (proof₁.bytes ++ inputs₁)
      published_store runs
