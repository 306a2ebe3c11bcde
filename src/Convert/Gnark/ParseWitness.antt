-- ===== src/Convert/Gnark/ParseWitness.antt =====
-- `parse_public_witness` on gnark's layout `nbPublic ‖ nbSecret ‖ len ‖ Fr…`.
use groth16_verifier_program.Convert.Gnark.Remaining.{
  Left, advance, new_reader-Left, past-Left, ensure_remaining_lem, finish_lem, finished,
}
use groth16_verifier_program.Convert.Gnark.Points.{u32_bytes, u32-reads, fr-reads}
use groth16_verifier_program.Convert.Gnark.{
  parse_public_witness, scalars, Reader, ensure_remaining, finish, new_reader,
}
use groth16_verifier_program.Convert.Ark.{Ark, IsArk}
use groth16_verifier_program.Common.{
  ◌>>=◌, ◌>>◌, List, ℕ, Bytes, length, ◌≡◌, ◌∷◌, ◌*◌, ◌++◌, Result, ok, ◌<◌, arith, [],
  if◌then◌else◌, ◌==◌, ◌^◌, subst, length-append, ensure, append_assoc, err, refl, true, false, leb,
  ◌∙◌, eq→==, le→leb, sym, ◌⊎◌, Bool-cases, inr, inl,
}
use groth16_verifier_program.Convert.Errors.{ConvertError, Reason, unexpected_eof}

module _ (ark : Ark) where
  -- The scalars one after the other.
  abbrev pub scalars_bytes : List ark.Fr.Element → Bytes
  scalars_bytes [] = []
  scalars_bytes (s ∷ rest) = ark.Fr.to_bytes_be s ++ scalars_bytes rest

module _ (ark : Ark) (law : IsArk ark) where
  open ark use {Fr}

  pub length-scalars_bytes : (ss : List Fr.Element) → length (scalars_bytes ark ss) ≡ length ss * 32
  length-scalars_bytes [] = refl
  length-scalars_bytes (s ∷ rest) = omega (
    arith,
    length-append (Fr.to_bytes_be s) (scalars_bytes ark rest),
    law.fr.length-to_bytes_be s,
    length-scalars_bytes rest,
  )

  scalars-reads :
      (r : Reader) (ss : List Fr.Element) (tail : Bytes)
      → Left r (scalars_bytes ark ss ++ tail)
      → (r' : Reader) × Left r' tail × (scalars ark (length ss) r ≡ ok (ss, r'))
  unfolding scalars
  scalars-reads r [] tail left = (r, left, refl)
  scalars-reads r (s ∷ rest) tail left =
      let e = Fr.to_bytes_be s in
      let t = scalars_bytes ark rest ++ tail in
      let at_r : Left r (e ++ t) =
        subst (λ (b : Bytes). Left r b) (append_assoc e (scalars_bytes ark rest) tail) left in
      let r₁ : Reader = advance 32 r in
      let l₁ : Left r₁ t = past-Left r e t 32 at_r (sym (law.fr.length-to_bytes_be s)) in
      let (r₂, l₂, q) = scalars-reads r₁ rest tail l₁ in
      (r₂, l₂, rw (fr-reads ark law r s t at_r, q) refl)

  -- `parse_public_witness` after the three numbers.
  abbrev after_counts : ℕ → Reader → Result ConvertError (List Fr.Element)
  after_counts len r = do ensure_remaining r len 32; (out, r) ← scalars ark len r; finish r; ok out

  after_counts-reads :
      (ss : List Fr.Element) (extra : Bytes) (r : Reader)
      → Left r (scalars_bytes ark ss ++ extra)
      → after_counts (length ss) r
        ≡ (if length extra == 0 then ok ss else err (ConvertError.trailing_bytes (length extra)))
  after_counts-reads ss extra r left =
      let (r', left', q) = scalars-reads r ss extra left in
      let fits : leb (length ss * 32) (length (scalars_bytes ark ss ++ extra)) ≡ true =
        le→leb (length ss * 32) (length (scalars_bytes ark ss ++ extra))
          (omega (arith, length-append (scalars_bytes ark ss) extra, length-scalars_bytes ss)) in
      rw
        (
          ensure_remaining_lem r (scalars_bytes ark ss ++ extra) left (length ss) 32,
          fits,
          q,
          finish_lem r' extra left',
        )
        (finished (length extra) ss)

  counts :
      (public secret len : ℕ) (tail : Bytes)
      → length (u32_bytes public ++ (u32_bytes secret ++ (u32_bytes len ++ tail))) < 2 ^ 64
      → (r : Reader) × Left r tail
        × (parse_public_witness ark
              (u32_bytes public ++ (u32_bytes secret ++ (u32_bytes len ++ tail)))
            ≡ (ensure (secret == 0) (ConvertError.unsupported Reason.secret_inputs)
                >> (ensure (len == public) (ConvertError.unsupported Reason.length_disagrees)
                    >> after_counts len r)))
  unfolding parse_public_witness
  counts public secret len tail small =
      let b₂ : Bytes = u32_bytes len ++ tail in
      let b₁ : Bytes = u32_bytes secret ++ b₂ in
      let b₀ : Bytes = u32_bytes public ++ b₁ in
      let r₀ : Reader = new_reader b₀ in
      let l₀ : Left r₀ b₀ = new_reader-Left b₀ small in
      let r₁ : Reader = advance 4 r₀ in
      let l₁ : Left r₁ b₁ = past-Left r₀ (u32_bytes public) b₁ 4 l₀ refl in
      let r₂ : Reader = advance 4 r₁ in
      let l₂ : Left r₂ b₂ = past-Left r₁ (u32_bytes secret) b₂ 4 l₁ refl in
      let r₃ : Reader = advance 4 r₂ in
      let l₃ : Left r₃ tail = past-Left r₂ (u32_bytes len) tail 4 l₂ refl in
      (
        r₃,
        l₃,
        rw (u32-reads r₀ public b₁ l₀, u32-reads r₁ secret b₂ l₁, u32-reads r₂ len tail l₂) refl,
      )

  -- A public witness is parsed to its scalars: with no secret inputs, and with the two counts that both
  -- are the number of scalars. Bytes beyond them are refused, by their number.
  pub parse_public_witness-reads :
      (ss : List Fr.Element) (extra : Bytes)
      → length (
          u32_bytes (length ss)
          ++ (u32_bytes 0 ++ (u32_bytes (length ss) ++ (scalars_bytes ark ss ++ extra))))
        < 2 ^ 64
      → parse_public_witness ark (
          u32_bytes (length ss)
          ++ (u32_bytes 0 ++ (u32_bytes (length ss) ++ (scalars_bytes ark ss ++ extra))))
        ≡ (if length extra == 0 then ok ss else err (ConvertError.trailing_bytes (length extra)))
  parse_public_witness-reads ss extra small =
      let n = length ss in
      let (r, left, q) = counts n 0 n (scalars_bytes ark ss ++ extra) small in
      let same : (n == n) ≡ true = eq→== n n refl in
      q ∙ rw same (after_counts-reads ss extra r left)

  -- A witness with secret inputs is refused as such; else one whose two counts differ, as such; else one
  -- that announces more scalars than the bytes left can hold, before any scalar is read.
  pub parse_public_witness-errors :
      (public secret len : ℕ) (rest : Bytes)
      → length (u32_bytes public ++ (u32_bytes secret ++ (u32_bytes len ++ rest))) < 2 ^ 64
      → (0 < secret) ⊎ (¬ (len ≡ public) ⊎ (length rest < len * 32))
      → parse_public_witness ark (u32_bytes public ++ (u32_bytes secret ++ (u32_bytes len ++ rest)))
        ≡ (if secret == 0
            then if len == public
              then err unexpected_eof
              else err (ConvertError.unsupported Reason.length_disagrees)
            else err (ConvertError.unsupported Reason.secret_inputs))
  parse_public_witness-errors public secret len rest small wrong =
      let (r, left, q) = counts public secret len rest small in
      q ∙ elim (Bool-cases (secret == 0)) [
        | inr z ↦ rw z refl
        | inl z ↦ elim (Bool-cases (len == public)) [
          | inr n ↦ rw (z, n) refl
          | inl n ↦
              let f : leb (len * 32) (length rest) ≡ false = ground (arith, z, n, wrong) in
              rw (z, n, ensure_remaining_lem r rest left len 32, f) refl
        ]
      ]
