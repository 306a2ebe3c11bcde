-- ===== src/Convert/Gnark/ParseProof.antt =====
-- `parse_proof` on gnark's layout `Ar ‖ Bs ‖ Krs ‖ nCommitments ‖ CommitmentPok`.
use groth16_verifier_program.Convert.Wire.Proof.{proof_bytes, new_proof_lem}
use groth16_verifier_program.Convert.Gnark.Remaining.{
  Left, new_reader-Left, advance, past-Left, finish_lem, finished,
}
use groth16_verifier_program.Convert.Errors.{ConvertError, Reason}
use groth16_verifier_program.Convert.Gnark.Points.{
  IsG1Encoding, IsG2Encoding, u32_bytes, u32-reads, g1-reads, g2-reads,
}
use groth16_verifier_program.Convert.Wire.{ProofElements, OnChainProof, new_proof}
use groth16_verifier_program.Convert.Gnark.{parse_proof, Reader, u32, new_reader, g1, finish}
use groth16_verifier_program.Convert.Ark.{Ark, IsArk}
use groth16_verifier_program.Common.{
  ◌>>=◌, ◌>>◌, Bytes, Result, ℕ, length, ◌++◌, ◌<◌, ◌≡◌, ensure, if◌then◌else◌, ◌==◌, ◌^◌, err, ok,
  ◌∙◌, refl, false, arith,
}

module _ (ark : Ark) (law : IsArk ark) where
  open ark use {G1, G2}

  -- The parser after the three points of the proof.
  abbrev after_points : ProofElements ark → Reader → Result ConvertError OnChainProof
  after_points e r = do
    (n_commitments, r) ← u32 r
    ensure (n_commitments == 0) (ConvertError.unsupported Reason.commitments)
    (_, r) ← g1 ark r
    finish r
    new_proof ark e

  parse_points :
      (e : ProofElements ark) (ea eb ec tail : Bytes)
      → IsG1Encoding ark law e.a ea
      → IsG2Encoding ark law e.b eb
      → IsG1Encoding ark law e.c ec
      → length (ea ++ (eb ++ (ec ++ tail))) < 2 ^ 64
      → (r : Reader) × Left r tail
        × (parse_proof ark (ea ++ (eb ++ (ec ++ tail))) ≡ after_points e r)
  unfolding parse_proof
  parse_points e ea eb ec tail ha hb hc small =
      let bytes = ea ++ (eb ++ (ec ++ tail)) in
      let r₀ : Reader = new_reader bytes in
      let l₀ : Left r₀ bytes = new_reader-Left bytes small in
      let r₁ : Reader = advance (length ea) r₀ in
      let l₁ : Left r₁ (eb ++ (ec ++ tail)) =
        past-Left r₀ ea (eb ++ (ec ++ tail)) (length ea) l₀ refl in
      let r₂ : Reader = advance (length eb) r₁ in
      let l₂ : Left r₂ (ec ++ tail) = past-Left r₁ eb (ec ++ tail) (length eb) l₁ refl in
      let r₃ : Reader = advance (length ec) r₂ in
      let l₃ : Left r₃ tail = past-Left r₂ ec tail (length ec) l₂ refl in
      (
        r₃,
        l₃,
        rw
            (
              g1-reads ark law r₀ ea (eb ++ (ec ++ tail)) e.a ha l₀,
              g2-reads ark law r₁ eb (ec ++ tail) e.b hb l₁,
              g1-reads ark law r₂ ec tail e.c hc l₂,
            )
            refl,
      )

  without_commitments :
      (e : ProofElements ark) (r : Reader) (pok : G1.Point) (ep extra : Bytes)
      → IsG1Encoding ark law pok ep
      → Left r (u32_bytes 0 ++ (ep ++ extra))
      → after_points e r ≡ (
          if length extra == 0
          then ok (record { bytes = proof_bytes ark e })
          else err (ConvertError.trailing_bytes (length extra)))
  without_commitments e r pok ep extra h left =
      let r₁ : Reader = advance 4 r in
      let l₁ : Left r₁ (ep ++ extra) = past-Left r (u32_bytes 0) (ep ++ extra) 4 left refl in
      let r₂ : Reader = advance (length ep) r₁ in
      let l₂ : Left r₂ extra = past-Left r₁ ep extra (length ep) l₁ refl in
      rw
        (
          u32-reads r 0 (ep ++ extra) left,
          g1-reads ark law r₁ ep extra pok h l₁,
          finish_lem r₂ extra l₂,
          new_proof_lem ark law e,
        )
        (finished (length extra) (record { bytes = proof_bytes ark e }))

  -- A gnark proof without commitments, each point uncompressed or compressed, is parsed to `A ‖ B ‖ C`,
  -- whatever point of the group the unused `CommitmentPok` is. Any bytes beyond it are refused, by their
  -- number.
  pub parse_proof-reads :
      (e : ProofElements ark) (pok : G1.Point) (ea eb ec ep extra : Bytes)
      → IsG1Encoding ark law e.a ea
      → IsG2Encoding ark law e.b eb
      → IsG1Encoding ark law e.c ec
      → IsG1Encoding ark law pok ep
      → length (ea ++ (eb ++ (ec ++ (u32_bytes 0 ++ (ep ++ extra))))) < 2 ^ 64
      → parse_proof ark (ea ++ (eb ++ (ec ++ (u32_bytes 0 ++ (ep ++ extra))))) ≡ (
          if length extra == 0
          then ok (record { bytes = proof_bytes ark e })
          else err (ConvertError.trailing_bytes (length extra)))
  parse_proof-reads e pok ea eb ec ep extra ha hb hc hp small =
      let (r, left, q) = parse_points e ea eb ec (u32_bytes 0 ++ (ep ++ extra)) ha hb hc small in
      q ∙ without_commitments e r pok ep extra hp left

  -- A gnark proof that announces commitments is refused, whatever follows the number.
  pub parse_proof-commitments :
      (e : ProofElements ark) (ea eb ec rest : Bytes) (n : ℕ)
      → IsG1Encoding ark law e.a ea
      → IsG2Encoding ark law e.b eb
      → IsG1Encoding ark law e.c ec
      → length (ea ++ (eb ++ (ec ++ (u32_bytes n ++ rest)))) < 2 ^ 64
      → 0 < n
      → parse_proof ark (ea ++ (eb ++ (ec ++ (u32_bytes n ++ rest))))
        ≡ err (ConvertError.unsupported Reason.commitments)
  parse_proof-commitments e ea eb ec rest n ha hb hc small pos =
      let (r, left, q) = parse_points e ea eb ec (u32_bytes n ++ rest) ha hb hc small in
      let some_left : (n == 0) ≡ false = ground (arith, pos) in
      q ∙ rw (u32-reads r n rest left, some_left) refl
