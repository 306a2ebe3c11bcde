-- ===== src/Program/Upload/Pieces.antt =====
-- Where the pieces of a body begin.
-- The pieces, from the i-th on, begin at the multiples of `chunk`; all but the last are full.
use groth16_verifier_program.Program.Errors.{ProgramError}
use groth16_verifier_program.Common.{
  ℕ, u32_to_le, pieces, u32_from_le, Bytes, ◌*◌, ◌≡◌, ◌<◌, List, length, ◌∷◌, ◌+◌, ◌^◌, [], ◌≤◌,
  refl, ◌-◌, ◌%◌, arith, suc, ok, ◌/◌, take, length-take, ap, drop, length-drop, subst, sym, zero,
}

abbrev pub Starts : ℕ → ℕ → ℕ → List Bytes → Type 0
Starts chunk i at [] = Unit {0}
Starts chunk i at (p ∷ rest) = (at ≡ i * chunk) × Starts chunk (i + 1) (at + length p) rest

pub pieces-Starts :
    (count chunk i : ℕ) (xs : Bytes)
    → count * chunk < length xs + chunk
    → Starts chunk i (i * chunk) (pieces count chunk xs)
unfolding pieces
pieces-Starts zero chunk i xs h = tt
pieces-Starts (suc zero) chunk i xs h = (refl, tt)
pieces-Starts (suc (suc count)) chunk i xs h =
    let l : length (take chunk xs) ≡ chunk = grind (arith, length-take chunk xs, h) in
    let n : i * chunk + length (take chunk xs) ≡ (i + 1) * chunk = grind (arith, l) in
    let r : suc count * chunk < length (drop chunk xs) + chunk =
      grind (arith, length-drop chunk xs, h) in
    (
      refl,
      subst (λ (at : ℕ). Starts chunk (i + 1) at (pieces (suc count) chunk (drop chunk xs))) (sym n)
          (pieces-Starts (suc count) chunk (i + 1) (drop chunk xs) r),
    )

pub chunks_count : (n k : ℕ) → 0 < k → (n ≤ (n + (k - 1)) / k * k) × ((n + (k - 1)) / k * k < n + k)
chunks_count n k h = omega (arith, h)

pub u32_from_le-to_le : (n : ℕ) → n < 2 ^ 32 → u32_from_le {E = ProgramError} (u32_to_le n) ≡ ok n
unfolding u32_from_le u32_to_le
u32_from_le-to_le n h = ap ok (omega (arith, h))

pub length_four : (n : ℕ) → 4 ≡ length (u32_to_le n)
unfolding u32_to_le
length_four n = refl

pub empty : (tail : Bytes) → length tail ≡ 0 → tail ≡ []
empty [] h = refl
empty (x ∷ xs) h = absurd (omega (arith, h))

pub offset_at : (m n : ℕ) → n ≡ m → n < 2 ^ 32 → m % 2 ^ 32 ≡ n
offset_at m n e h = omega (arith, e, h)
