-- ===== src/Convert/Gnark/Safety.antt =====
-- The parsers never panic, whatever their input, and the points they give are valid.
-- The position is within the input, which is a string of bytes.
use groth16_verifier_program.Groth16.Scalar.{all_zero}
use groth16_verifier_program.Common.{
  ◌>>=◌, ℕ, checked_add, checked_mul, index, Yields, Bytes, get_range, checked_sub, ◌≤◌, Result,
  length, ◌≡◌, ◌<◌, IsByte, set_index, Bool-cases, bind-Yields, ◌+◌, ◌*◌, ltb, All, ok, arith, ◌-◌,
  ◌^◌, false, ◌==◌, ok_or, ◌∷◌, [], inr, suc, get_elem?, inl, slice_from, refl, true, leb, drop,
  zero, slice_from_lem, ◌&&◌, lt→ltb, length-take, length-drop, take-All, drop-All,
}
use groth16_verifier_program.Convert.Errors.{ConvertError, unexpected_eof}
use groth16_verifier_program.Convert.Gnark.{
  take, remaining, Reader, ensure_remaining, u32, clear_flag, finish, expect_zero_after_flag, peek,
  Read, u32_from_be, without_flag,
}

pub record IsAt (r : Reader) : Type 0 where
  pub within : r.pos ≤ length r.bytes
  pub bytes_IsByte : All IsByte r.bytes

-- A read that does not panic, leaves the reader within its input, and gives a value with the property.
abbrev pub After : {A : Type 0} → (A → Type 0) → A × Reader → Type 0
After P (a, r) = IsAt r × P a

abbrev pub Keeps : {A : Type 0} → (A → Type 0) → Read A → Type 0
Keeps P m = Yields (After P) m

module _ {A B : Type 0} (P : A → Type 0) (Q : B → Type 0) where
  pub then-Keeps :
      (m : Read A) (rest : A × Reader → Result ConvertError B)
      → Keeps P m
      → ((a : A) (r : Reader) → IsAt r → P a → Yields Q (rest (a, r)))
      → Yields Q (m >>= rest)
  then-Keeps m rest h k = bind-Yields (After P) Q m rest h (λ (a, r) (i, p). k a r i p)

-- The bytes that `take` gives.
abbrev pub IsPiece : ℕ → Bytes → Type 0
IsPiece n s = (length s ≡ n) × All IsByte s

pub take-Keeps : (r : Reader) (n : ℕ) → IsAt r → Keeps (IsPiece n) (take r n)
unfolding take checked_add get_range
take-Keeps r n at = elim (Bool-cases (ltb (r.pos + n) (2 ^ 64))) [
  | inr over ↦ rw over tt
  | inl fits ↦ elim (Bool-cases (leb r.pos (r.pos + n) && leb (r.pos + n) (length r.bytes))) [
    | inr beyond ↦ rw (fits, beyond) tt
    | inl inside ↦
        let le : r.pos + n ≤ length r.bytes = ground (arith, inside) in
        let d : r.pos + n - r.pos ≡ n = omega arith in
        let s = drop r.pos r.bytes in
        rw (fits, inside, d)
          (
            record { within = le; bytes_IsByte = at.bytes_IsByte },
            (
              omega (arith, le, length-take n s, length-drop r.pos r.bytes),
              take-All IsByte n s (drop-All IsByte r.pos r.bytes at.bytes_IsByte),
            ),
          )
  ]
]

pub u32-Keeps : (r : Reader) → IsAt r → Keeps (λ (n : ℕ). Unit {0}) (u32 r)
unfolding u32 u32_from_be
u32-Keeps r at =
    then-Keeps (IsPiece 4) (After (λ (n : ℕ). Unit {0})) (take r 4) _ (take-Keeps r 4 at)
      (λ s r' at' p. four s r' at' p.0)
  where
    four :
        (s : Bytes) (r' : Reader)
        → IsAt r'
        → length s ≡ 4
        → Keeps (λ (n : ℕ). Unit {0}) (u32_from_be s >>= λ (n : ℕ). ok (n, r'))
    four (a ∷ b ∷ c ∷ d ∷ []) r' at' l = (at', tt)
    four [] r' at' l = absurd (omega (arith, l))
    four (a ∷ []) r' at' l = absurd (omega (arith, l))
    four (a ∷ b ∷ []) r' at' l = absurd (omega (arith, l))
    four (a ∷ b ∷ c ∷ []) r' at' l = absurd (omega (arith, l))
    four (a ∷ b ∷ c ∷ d ∷ e ∷ t) r' at' l = absurd (omega (arith, l))

pub peek-Yields : (r : Reader) → IsAt r → Yields IsByte (peek r)
unfolding peek
peek-Yields r at = byte_at r.bytes r.pos at.bytes_IsByte
  where
    byte_at :
        (bytes : Bytes) (i : ℕ)
        → All IsByte bytes
        → Yields IsByte (ok_or (get_elem? bytes i) unexpected_eof)
    byte_at [] i h = tt
    byte_at (b ∷ bs) zero h = h.0
    byte_at (b ∷ bs) (suc i) h = byte_at bs i h.1

-- The reader is within its input, so that nothing is subtracted from less.
pub remaining-at : (r : Reader) → IsAt r → remaining r ≡ ok (length r.bytes - r.pos)
unfolding remaining checked_sub
remaining-at r at =
    let a : ltb (length r.bytes) r.pos ≡ false = ground (arith, at.within) in rw (a, remaining) refl

pub finish-Yields : (r : Reader) → IsAt r → Yields (λ (u : Unit {0}). Unit {0}) (finish r)
unfolding finish
finish-Yields r at = elim (Bool-cases (length r.bytes - r.pos == 0)) [
  | inl z ↦ rw (remaining-at r at, z) tt
  | inr z ↦ rw (remaining-at r at, z) tt
]

-- Where the check passes, so much is left.
pub ensure_remaining-Yields :
    (r : Reader) (count k : ℕ)
    → IsAt r
    → Yields (λ (u : Unit {0}). r.pos + count * k ≤ length r.bytes) (ensure_remaining r count k)
unfolding ensure_remaining checked_mul
ensure_remaining-Yields r count k at = elim (Bool-cases (ltb (count * k) (2 ^ 64))) [
  | inr over ↦ rw over tt
  | inl fits ↦ elim (Bool-cases (ltb (length r.bytes - r.pos) (count * k))) [
    | inl short ↦ rw (fits, remaining-at r at, short) tt
    | inr enough ↦ rw (fits, remaining-at r at, enough) (ground (arith, enough, at.within))
  ]
]

pub clear_flag-Yields :
    (n : ℕ) (raw : Bytes)
    → 0 < n
    → length raw ≡ n
    → Yields (λ (s : Bytes). length s ≡ n) (clear_flag raw)
unfolding clear_flag index set_index
clear_flag-Yields n [] h l = absurd (omega (arith, h, l))
clear_flag-Yields n (b ∷ bs) h l =
    let p : ltb 0 (suc (length bs)) ≡ true = lt→ltb 0 (suc (length bs)) (omega arith) in rw p l

pub zero-Yields :
    (raw : Bytes)
    → 0 < length raw
    → Yields (λ (u : Unit {0}). Unit {0}) (expect_zero_after_flag raw)
unfolding expect_zero_after_flag index
zero-Yields [] h = absurd (omega (arith, h))
zero-Yields (b ∷ bs) h =
    let s : slice_from {E = ConvertError} (b ∷ bs) 1 ≡ ok (drop 1 (b ∷ bs)) =
      slice_from_lem (b ∷ bs) 1 (omega arith) in
    elim (Bool-cases ((without_flag b == 0) && all_zero (drop 1 (b ∷ bs)))) [
      | inl z ↦ rw (s, z) tt
      | inr z ↦ rw (s, z) tt
    ]
