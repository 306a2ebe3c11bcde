-- ===== src/Convert/Gnark/ParseKey.antt =====
-- `parse_verifying_key` on gnark's layout
-- `[α]₁ [β]₁ [β]₂ [γ]₂ [δ]₁ [δ]₂ len ‖ [K]₁… ‖ outer ‖ inner… ‖ nCommitmentKeys`.
pub mod Files
use mathlib.Core.List.{flatten}
use groth16_verifier_program.Convert.Gnark.Remaining.{
  Left, new_reader-Left, advance, past-Left, finish_lem, finished_then, ensure_remaining_lem,
}
use groth16_verifier_program.Convert.Gnark.Points.{
  IsG1Encoding, IsG2Encoding, u32_bytes, u32-reads, g1-reads, g2-reads, length-g1_encoding,
}
use groth16_verifier_program.Convert.Gnark.{
  Reader, parse_verifying_key, inner_slices, g1_points, u32, ensure_remaining, new_reader, finish,
}
use groth16_verifier_program.Convert.Wire.{KeyElements, OnChainKey, new_key}
use groth16_verifier_program.Convert.Ark.{Ark, IsArk}
use groth16_verifier_program.Common.{
  [], ◌∷◌, ◌>>=◌, ◌>>◌, List, Result, Bytes, replicate, length, ℕ, ◌++◌, ◌*◌, ◌≤◌, ◌≡◌, ◌<◌, ok,
  ensure, ◌^◌, suc, leb, ◌-◌, ◌==◌, subst, arith, zero, refl, append_assoc, if◌then◌else◌,
  length-append, err, true, le→leb, ◌∙◌, false, ◌⊎◌, Bool-cases, inr, inl, ltb, ◌+◌, ap,
}
use groth16_verifier_program.Convert.Errors.{ConvertError, Reason, unexpected_eof}

-- A key's file up to a number that decides: the six points, `len` and the table's points, the number
-- `outer` of slices of which `empty` have no elements, the number, and what follows.
abbrev pub gnark_prefix :
    Bytes → Bytes → Bytes → Bytes → Bytes → Bytes → ℕ → List Bytes → ℕ → ℕ → ℕ → Bytes → Bytes
gnark_prefix ea eb₁ eb₂ eg ed₁ ed₂ n ics outer empty number rest =
    ea
    ++ (eb₁
        ++ (eb₂
            ++ (eg
                ++ (ed₁
                    ++ (ed₂
                        ++ (u32_bytes n
                            ++ (flatten ics
                                ++ (u32_bytes outer
                                    ++ (replicate (empty * 4) 0
                                        ++ (u32_bytes number ++ rest))))))))))

-- All `outer` slices are empty, and the number is that of the commitment keys.
abbrev pub gnark_key :
    Bytes → Bytes → Bytes → Bytes → Bytes → Bytes → ℕ → List Bytes → ℕ → ℕ → Bytes → Bytes
gnark_key ea eb₁ eb₂ eg ed₁ ed₂ n ics outer keys rest =
    gnark_prefix ea eb₁ eb₂ eg ed₁ ed₂ n ics outer outer keys rest

module _ (ark : Ark) (law : IsArk ark) where
  open ark use {G1, G2}

  -- The encodings of the points of a list, one after the other.
  abbrev pub AreG1Encodings : List G1.Point → List Bytes → Type 0
  AreG1Encodings [] [] = Unit {0}
  AreG1Encodings (p ∷ ps) (e ∷ es) = IsG1Encoding ark law p e × AreG1Encodings ps es
  AreG1Encodings [] (e ∷ es) = ⊥
  AreG1Encodings (p ∷ ps) [] = ⊥

  pub g1_points-reads :
      (r : Reader) (ps : List G1.Point) (es : List Bytes) (tail : Bytes)
      → AreG1Encodings ps es
      → Left r (flatten es ++ tail)
      → (r' : Reader) × Left r' tail × (g1_points ark (length ps) r ≡ ok (ps, r'))
  unfolding g1_points flatten
  g1_points-reads r [] [] tail h left = (r, left, refl)
  g1_points-reads r [] (e ∷ es) tail h left = absurd h
  g1_points-reads r (p ∷ ps) [] tail h left = absurd h
  g1_points-reads r (p ∷ ps) (e ∷ es) tail h left =
      let t = flatten es ++ tail in
      let at_r : Left r (e ++ t) =
        subst (λ (b : Bytes). Left r b) (append_assoc e (flatten es) tail) left in
      let r₁ : Reader = advance (length e) r in
      let l₁ : Left r₁ t = past-Left r e t (length e) at_r refl in
      let (r₂, l₂, q) = g1_points-reads r₁ ps es tail h.1 l₁ in
      (r₂, l₂, rw (g1-reads ark law r e t p h.0 at_r, q) refl)

  pub encodings_size :
      (ps : List G1.Point) (es : List Bytes)
      → AreG1Encodings ps es
      → length ps * 32 ≤ length (flatten es)
  unfolding flatten
  encodings_size [] [] h = omega arith
  encodings_size [] (e ∷ es) h = absurd h
  encodings_size (p ∷ ps) [] h = absurd h
  encodings_size (p ∷ ps) (e ∷ es) h = omega (
    arith,
    length-append e (flatten es),
    length-g1_encoding ark law p e h.0,
    encodings_size ps es h.1,
  )

  -- Empty slices are passed, and the loop goes on with the others.
  empty_slices-reads :
      (r : Reader) (empty more : ℕ) (tail : Bytes)
      → Left r (replicate (empty * 4) 0 ++ tail)
      → (r' : Reader) × Left r' tail × (inner_slices (empty + more) r ≡ inner_slices more r')
  unfolding inner_slices replicate
  empty_slices-reads r zero more tail left =
      (r, left, ap (λ (m : ℕ). inner_slices m r) (omega arith))
  empty_slices-reads r (suc empty) more tail left =
      let t = replicate (empty * 4) 0 ++ tail in
      let n : suc empty * 4 ≡ suc (suc (suc (suc (empty * 4)))) = omega arith in
      let at_r : Left r (u32_bytes 0 ++ t) =
        subst (λ (m : ℕ). Left r (replicate m 0 ++ tail)) n left in
      let r₁ : Reader = advance 4 r in
      let l₁ : Left r₁ t = past-Left r (u32_bytes 0) t 4 at_r refl in
      let (r₂, l₂, q) = empty_slices-reads r₁ empty more tail l₁ in
      let m : suc empty + more ≡ suc (empty + more) = omega arith in
      (r₂, l₂, rw (m, u32-reads r 0 t at_r) q)

  -- The parser after the inner slices, after the table and after the six points of the key.
  abbrev pub after_inner : KeyElements ark → Reader → Result ConvertError OnChainKey
  after_inner e r = do
    (n_commitment_keys, r) ← u32 r
    ensure (n_commitment_keys == 0) (ConvertError.unsupported Reason.commitment_keys)
    finish r
    new_key ark e

  abbrev pub after_ic : KeyElements ark → Reader → Result ConvertError OnChainKey
  after_ic e r = do (outer, r) ← u32 r; (_, r) ← inner_slices outer r; after_inner e r

  pub after_slices :
      (e : KeyElements ark) (extra : Bytes) (r : Reader)
      → Left r (u32_bytes 0 ++ extra)
      → after_inner e r ≡ (
          if length extra == 0
          then new_key ark e
          else err (ConvertError.trailing_bytes (length extra)))
  after_slices e extra r left =
      let r₁ : Reader = advance 4 r in
      let l₁ : Left r₁ extra = past-Left r (u32_bytes 0) extra 4 left refl in
      rw (u32-reads r 0 extra left, finish_lem r₁ extra l₁)
        (finished_then (length extra) (new_key ark e))

  abbrev pub after_head :
      G1.Point → G2.Point → G2.Point → G2.Point → Reader → Result ConvertError OnChainKey
  after_head alpha beta gamma delta r = do
    (k_len, r) ← u32 r
    ensure_remaining r k_len 32
    ensure (leb k_len 152) (ConvertError.too_many_public_inputs (k_len - 1))
    (ic, r) ← g1_points ark k_len r
    after_ic (record { alpha = alpha; beta = beta; gamma = gamma; delta = delta; ic = ic }) r

  pub skipped :
      (e : KeyElements ark) (empty more : ℕ) (tail : Bytes) (r : Reader)
      → Left r (u32_bytes (empty + more) ++ (replicate (empty * 4) 0 ++ tail))
      → (r' : Reader) × Left r' tail
        × (after_ic e r ≡ (inner_slices more r' >>= λ (_, r). after_inner e r))
  skipped e empty more tail r left =
      let outer = empty + more in
      let t₀ = replicate (empty * 4) 0 ++ tail in
      let r₁ : Reader = advance 4 r in
      let l₁ : Left r₁ t₀ = past-Left r (u32_bytes outer) t₀ 4 left refl in
      let (r₂, l₂, q) = empty_slices-reads r₁ empty more tail l₁ in
      (r₂, l₂, rw (u32-reads r outer t₀ left, q) refl)

  -- All slices are empty.
  all_skipped :
      (e : KeyElements ark) (outer : ℕ) (tail : Bytes) (r : Reader)
      → Left r (u32_bytes outer ++ (replicate (outer * 4) 0 ++ tail))
      → (r' : Reader) × Left r' tail × (after_ic e r ≡ after_inner e r')
  unfolding inner_slices
  all_skipped e outer tail r left =
      let n : outer ≡ outer + 0 = omega arith in
      skipped e outer 0 tail r
        (subst (λ (m : ℕ). Left r (u32_bytes m ++ (replicate (outer * 4) 0 ++ tail))) n left)

  pub after_table :
      (e : KeyElements ark) (outer : ℕ) (extra : Bytes) (r : Reader)
      → Left r (u32_bytes outer ++ (replicate (outer * 4) 0 ++ (u32_bytes 0 ++ extra)))
      → after_ic e r ≡ (
          if length extra == 0
          then new_key ark e
          else err (ConvertError.trailing_bytes (length extra)))
  after_table e outer extra r left =
      let (r', left', q) = all_skipped e outer (u32_bytes 0 ++ extra) r left in
      q ∙ after_slices e extra r' left'

  -- A number that is not 0 is refused where an empty slice, or no commitment key, was expected.
  pub refused :
      (e : KeyElements ark) (more number : ℕ) (rest : Bytes) (r : Reader)
      → 0 < number
      → Left r (u32_bytes number ++ rest)
      → (inner_slices more r >>= λ (_, r). after_inner e r)
        ≡ err (
            ConvertError.unsupported
              (if ltb 0 more then Reason.committed_inputs else Reason.commitment_keys))
  unfolding inner_slices
  refused e zero number rest r pos left =
      let some_left : (number == 0) ≡ false = ground (arith, pos) in
      rw (u32-reads r number rest left, some_left) refl
  refused e (suc more) number rest r pos left =
      let some_left : (number == 0) ≡ false = ground (arith, pos) in
      rw (u32-reads r number rest left, some_left) (ground arith)

  -- The encodings of the six points: `β` and `δ` are given in both groups.
  pub record IsHead (e : KeyElements ark) (ea eb₁ eb₂ eg ed₁ ed₂ : Bytes) : Type 0 where
    pub beta_g1 : G1.Point
    pub delta_g1 : G1.Point
    pub alpha : IsG1Encoding ark law e.alpha ea
    pub beta₁ : IsG1Encoding ark law beta_g1 eb₁
    pub beta₂ : IsG2Encoding ark law e.beta eb₂
    pub gamma : IsG2Encoding ark law e.gamma eg
    pub delta₁ : IsG1Encoding ark law delta_g1 ed₁
    pub delta₂ : IsG2Encoding ark law e.delta ed₂
