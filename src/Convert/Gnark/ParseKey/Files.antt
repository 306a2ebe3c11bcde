-- ===== src/Convert/Gnark/ParseKey/Files.antt =====
-- `parse_verifying_key` on whole files: what it gives for a key, and how it fails.
use groth16_verifier_program.Convert.Gnark.Points.{u32_bytes, g1-reads, g2-reads, u32-reads}
use groth16_verifier_program.Convert.Gnark.Remaining.{
  Left, new_reader-Left, advance, past-Left, ensure_remaining_lem,
}
use groth16_verifier_program.Convert.Gnark.ParseKey.{
  IsHead, AreG1Encodings, gnark_key, after_head, after_ic, skipped, after_table, encodings_size,
  g1_points-reads, gnark_prefix, refused,
}
use groth16_verifier_program.Convert.Gnark.{parse_verifying_key, Reader, new_reader}
use groth16_verifier_program.Convert.Wire.{KeyElements, new_key}
use groth16_verifier_program.Convert.Ark.{Ark, IsArk}
use mathlib.Core.List.{flatten}
use groth16_verifier_program.Common.{
  List, Bytes, ℕ, length, ◌≤◌, ◌++◌, ◌<◌, ◌^◌, ◌≡◌, ◌*◌, ◌⊎◌, err, if◌then◌else◌, leb, ◌==◌,
  replicate, ◌-◌, true, ◌∙◌, false, le→leb, Bool-cases, arith, length-append, refl, inr, inl, ltb,
  ◌+◌, subst, ap, Bool,
}
use groth16_verifier_program.Convert.Errors.{ConvertError, Reason, unexpected_eof}

module _ (ark : Ark) (law : IsArk ark) where
  open ark use {G1, G2}

  head-reads :
      (e : KeyElements ark) (ea eb₁ eb₂ eg ed₁ ed₂ tail : Bytes)
      → IsHead ark law e ea eb₁ eb₂ eg ed₁ ed₂
      → length (ea ++ (eb₁ ++ (eb₂ ++ (eg ++ (ed₁ ++ (ed₂ ++ tail)))))) < 2 ^ 64
      → (r : Reader) × Left r tail
        × (parse_verifying_key ark (ea ++ (eb₁ ++ (eb₂ ++ (eg ++ (ed₁ ++ (ed₂ ++ tail))))))
            ≡ after_head ark law e.alpha e.beta e.gamma e.delta r)
  unfolding parse_verifying_key
  head-reads e ea eb₁ eb₂ eg ed₁ ed₂ tail h small =
      let t₅ = ed₂ ++ tail in
      let t₄ = ed₁ ++ t₅ in
      let t₃ = eg ++ t₄ in
      let t₂ = eb₂ ++ t₃ in
      let t₁ = eb₁ ++ t₂ in
      let r₀ : Reader = new_reader (ea ++ t₁) in
      let l₀ : Left r₀ (ea ++ t₁) = new_reader-Left (ea ++ t₁) small in
      let r₁ : Reader = advance (length ea) r₀ in
      let l₁ : Left r₁ t₁ = past-Left r₀ ea t₁ (length ea) l₀ refl in
      let r₂ : Reader = advance (length eb₁) r₁ in
      let l₂ : Left r₂ t₂ = past-Left r₁ eb₁ t₂ (length eb₁) l₁ refl in
      let r₃ : Reader = advance (length eb₂) r₂ in
      let l₃ : Left r₃ t₃ = past-Left r₂ eb₂ t₃ (length eb₂) l₂ refl in
      let r₄ : Reader = advance (length eg) r₃ in
      let l₄ : Left r₄ t₄ = past-Left r₃ eg t₄ (length eg) l₃ refl in
      let r₅ : Reader = advance (length ed₁) r₄ in
      let l₅ : Left r₅ t₅ = past-Left r₄ ed₁ t₅ (length ed₁) l₄ refl in
      let r₆ : Reader = advance (length ed₂) r₅ in
      let l₆ : Left r₆ tail = past-Left r₅ ed₂ tail (length ed₂) l₅ refl in
      (
        r₆,
        l₆,
        rw
            (
              g1-reads ark law r₀ ea t₁ e.alpha h.alpha l₀,
              g1-reads ark law r₁ eb₁ t₂ h.beta_g1 h.beta₁ l₁,
              g2-reads ark law r₂ eb₂ t₃ e.beta h.beta₂ l₂,
              g2-reads ark law r₃ eg t₄ e.gamma h.gamma l₃,
              g1-reads ark law r₄ ed₁ t₅ h.delta_g1 h.delta₁ l₄,
              g2-reads ark law r₅ ed₂ tail e.delta h.delta₂ l₅,
            )
            refl,
      )

  table-reads :
      (e : KeyElements ark) (ics : List Bytes) (tail : Bytes) (r : Reader)
      → AreG1Encodings ark law e.ic ics
      → length e.ic ≤ 152
      → Left r (u32_bytes (length e.ic) ++ (flatten ics ++ tail))
      → (r' : Reader) × Left r' tail
        × (after_head ark law e.alpha e.beta e.gamma e.delta r ≡ after_ic ark law e r')
  table-reads e ics tail r h bound left =
      let n = length e.ic in
      let t₀ = flatten ics ++ tail in
      let r₁ : Reader = advance 4 r in
      let l₁ : Left r₁ t₀ = past-Left r (u32_bytes n) t₀ 4 left refl in
      let fits : leb (n * 32) (length t₀) ≡ true =
        le→leb (n * 32) (length t₀)
          (omega (arith, length-append (flatten ics) tail, encodings_size ark law e.ic ics h)) in
      let few : leb n 152 ≡ true = le→leb n 152 bound in
      let (r₂, l₂, q₂) = g1_points-reads ark law r₁ e.ic ics tail h l₁ in
      (r₂, l₂, rw (u32-reads r n t₀ left, ensure_remaining_lem r₁ t₀ l₁ n 32, fits, few, q₂) refl)

  -- A gnark key without commitments, each point uncompressed or compressed, and with at most 152 points
  -- in its table, is parsed to what `OnChainKey::new` makes of its elements, whatever `[β]₁` and `[δ]₁`
  -- are and however many empty slices it lists. Any bytes beyond it are refused, by their number.
  pub parse_verifying_key-reads :
      (e : KeyElements ark) (ea eb₁ eb₂ eg ed₁ ed₂ : Bytes) (ics : List Bytes) (outer : ℕ)
      (extra : Bytes)
      → IsHead ark law e ea eb₁ eb₂ eg ed₁ ed₂
      → AreG1Encodings ark law e.ic ics
      → length e.ic ≤ 152
      → length (gnark_key ea eb₁ eb₂ eg ed₁ ed₂ (length e.ic) ics outer 0 extra) < 2 ^ 64
      → parse_verifying_key ark (gnark_key ea eb₁ eb₂ eg ed₁ ed₂ (length e.ic) ics outer 0 extra)
        ≡ (if length extra == 0
            then new_key ark e
            else err (ConvertError.trailing_bytes (length extra)))
  parse_verifying_key-reads e ea eb₁ eb₂ eg ed₁ ed₂ ics outer extra head h bound small =
      let t₁ = u32_bytes outer ++ (replicate (outer * 4) 0 ++ (u32_bytes 0 ++ extra)) in
      let (r, left, q) =
        head-reads e ea eb₁ eb₂ eg ed₁ ed₂ (u32_bytes (length e.ic) ++ (flatten ics ++ t₁)) head
          small in
      let (r', left', q') = table-reads e ics t₁ r h bound left in
      q ∙ q' ∙ after_table ark law e outer extra r' left'

  -- A key that announces more points than the bytes left can hold is refused before a point of the table
  -- is read, and so is one with more than 152 points: by the number of public inputs that it would have.
  pub parse_verifying_key-counts :
      (e : KeyElements ark) (ea eb₁ eb₂ eg ed₁ ed₂ : Bytes) (n : ℕ) (rest : Bytes)
      → IsHead ark law e ea eb₁ eb₂ eg ed₁ ed₂
      → length (ea ++ (eb₁ ++ (eb₂ ++ (eg ++ (ed₁ ++ (ed₂ ++ (u32_bytes n ++ rest))))))) < 2 ^ 64
      → (length rest < n * 32) ⊎ (152 < n)
      → parse_verifying_key ark
          (ea ++ (eb₁ ++ (eb₂ ++ (eg ++ (ed₁ ++ (ed₂ ++ (u32_bytes n ++ rest)))))))
        ≡ (if leb (n * 32) (length rest)
            then err (ConvertError.too_many_public_inputs (n - 1))
            else err unexpected_eof)
  parse_verifying_key-counts e ea eb₁ eb₂ eg ed₁ ed₂ n rest head small wrong =
      let (r, left, q) = head-reads e ea eb₁ eb₂ eg ed₁ ed₂ (u32_bytes n ++ rest) head small in
      let r₁ : Reader = advance 4 r in
      let l₁ : Left r₁ rest = past-Left r (u32_bytes n) rest 4 left refl in
      q ∙ elim (Bool-cases (leb (n * 32) (length rest))) [
        | inr f ↦ rw (u32-reads r n rest left, ensure_remaining_lem r₁ rest l₁ n 32, f) refl
        | inl f ↦
            let many : leb n 152 ≡ false = ground (arith, f, wrong) in
            rw (u32-reads r n rest left, ensure_remaining_lem r₁ rest l₁ n 32, f, many) refl
      ]

  -- A gnark key with at most 152 points in its table that uses commitments is refused as unsupported,
  -- whatever follows the number that shows it: with the reason for committed inputs at the first of its
  -- slices that is not empty, and, if all are empty, with the reason for commitment keys if it announces
  -- any. Each point is uncompressed or compressed.
  pub parse_verifying_key-commitments :
      (e : KeyElements ark) (ea eb₁ eb₂ eg ed₁ ed₂ : Bytes) (ics : List Bytes)
      (outer empty number : ℕ) (rest : Bytes)
      → IsHead ark law e ea eb₁ eb₂ eg ed₁ ed₂
      → AreG1Encodings ark law e.ic ics
      → length e.ic ≤ 152
      → empty ≤ outer
      → 0 < number
      → length (gnark_prefix ea eb₁ eb₂ eg ed₁ ed₂ (length e.ic) ics outer empty number rest)
        < 2 ^ 64
      → parse_verifying_key ark
          (gnark_prefix ea eb₁ eb₂ eg ed₁ ed₂ (length e.ic) ics outer empty number rest)
        ≡ err (
            ConvertError.unsupported
              (if ltb empty outer then Reason.committed_inputs else Reason.commitment_keys))
  parse_verifying_key-commitments e ea eb₁ eb₂ eg ed₁ ed₂ ics outer empty number rest head h bound
        within pos small =
      let more = outer - empty in
      let t₂ = u32_bytes number ++ rest in
      let t₁ = replicate (empty * 4) 0 ++ t₂ in
      let t₀ = u32_bytes outer ++ t₁ in
      let (r, left, q) =
        head-reads e ea eb₁ eb₂ eg ed₁ ed₂ (u32_bytes (length e.ic) ++ (flatten ics ++ t₀)) head
          small in
      let (r', left', q') = table-reads e ics t₀ r h bound left in
      let n : outer ≡ empty + more = omega (arith, within) in
      let (r₂, left₂, q₂) =
        skipped ark law e empty more t₂ r'
          (subst (λ (m : ℕ). Left r' (u32_bytes m ++ t₁)) n left') in
      let same : ltb 0 more ≡ ltb empty outer = ground (arith, within) in
      q
      ∙ q'
      ∙ q₂
      ∙ refused ark law e more number rest r₂ pos left₂
      ∙ ap
          (λ (b : Bool). err (
            ConvertError.unsupported
              (if b then Reason.committed_inputs else Reason.commitment_keys)))
          same
