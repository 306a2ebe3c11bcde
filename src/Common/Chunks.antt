-- ===== src/Common/Chunks.antt =====
-- `chunks_exact` and `chunks` on byte strings, and the checked arithmetic of `usize`.
use Prim.Native.Nat.{ℕ, zero, suc, ◌+◌, ◌-◌, ◌*◌, ◌/◌, ◌^◌, ◌≤◌}
use mathlib.Core.Path.{◌≡◌, refl, sym, ap, ◌∙◌}
use mathlib.Core.List.{List, [], ◌∷◌, ◌++◌, flatten}
use mathlib.Core.Option.{Option, none, some}
use native.Mathlib.Omega.{arith}
use groth16_verifier_program.Common.Tests.{ltb, if◌then◌else◌}
use groth16_verifier_program.Common.Lists.{
  length, take, drop, take-append-drop, length-take, length-drop, take-append, drop-append, All,
  length-append, take-All, drop-All,
}
use groth16_verifier_program.Common.ByteStrings.{Bytes}

-- `a.checked_sub(b)`.
unfoldable pub checked_sub : ℕ → ℕ → Option ℕ
checked_sub a b = if ltb a b then none else some (a - b)

-- `checked_add` and `checked_mul` on a 64-bit word, which `usize` is on SBF and on the hosts.
unfoldable pub checked_add : ℕ → ℕ → Option ℕ
checked_add a b = if ltb (a + b) (2 ^ 64) then some (a + b) else none

unfoldable pub checked_mul : ℕ → ℕ → Option ℕ
checked_mul a b = if ltb (a * b) (2 ^ 64) then some (a * b) else none

-- The first `count` pieces of `k` bytes.
unfoldable pub pieces : ℕ → ℕ → Bytes → List Bytes
pieces zero k xs = []
pieces (suc count) k xs = take k xs ∷ pieces count k (drop k xs)

-- `xs.chunks_exact(k)`: what is left over at the end is dropped.
unfoldable pub chunks_exact : ℕ → Bytes → List Bytes
unfolding pieces
chunks_exact k xs = pieces (length xs / k) k xs

-- `xs.chunks(k)`: the last piece may be short.
unfoldable pub chunks : ℕ → Bytes → List Bytes
unfolding pieces
chunks k xs = pieces ((length xs + (k - 1)) / k) k xs

pub length-pieces : (count k : ℕ) (xs : Bytes) → length (pieces count k xs) ≡ count
unfolding pieces
length-pieces zero k xs = refl
length-pieces (suc count) k xs = ap suc (length-pieces count k (drop k xs))

-- Enough pieces make up the whole string.
pub flatten-pieces :
    (count k : ℕ) (xs : Bytes) → length xs ≤ count * k → flatten (pieces count k xs) ≡ xs
unfolding pieces flatten
flatten-pieces zero k [] h = refl
flatten-pieces zero k (x ∷ xs) h = absurd (omega arith)
flatten-pieces (suc count) k xs h =
    ap (λ (t : Bytes). take k xs ++ t)
      (flatten-pieces count k (drop k xs) (rw length-drop (omega arith)))
    ∙ take-append-drop k xs

-- Pieces that lie wholly within the string have full length.
pub pieces_exact :
    (count k : ℕ) (xs : Bytes) → count * k ≤ length xs → All (λ p. length p ≡ k) (pieces count k xs)
unfolding pieces
pieces_exact zero k xs h = tt
pieces_exact (suc count) k xs h = (
  omega (arith, length-take k xs),
  pieces_exact count k (drop k xs) (rw length-drop (omega arith)),
)

-- Cutting up pieces of equal length that were put end to end gives them back.
pub pieces-flatten :
    (k : ℕ) (ps : List Bytes) → All (λ p. length p ≡ k) ps → pieces (length ps) k (flatten ps) ≡ ps
unfolding pieces take drop flatten
pieces-flatten k [] h = refl
pieces-flatten k (p ∷ ps) h =
    rw (take-append k p (flatten ps) (sym h.0), drop-append k p (flatten ps) (sym h.0))
      (ap (λ (t : List Bytes). p ∷ t) (pieces-flatten k ps h.1))

pub length-flatten :
    (k : ℕ) (ps : List Bytes) → All (λ p. length p ≡ k) ps → length (flatten ps) ≡ length ps * k
unfolding flatten
length-flatten k [] h = omega arith
length-flatten k (p ∷ ps) h = omega (arith, length-append p (flatten ps), length-flatten k ps h.1)

pub pieces-All {κ} :
    (P : ℕ → Type κ) (count k : ℕ) (xs : Bytes) → All P xs → All (λ p. All P p) (pieces count k xs)
unfolding pieces
pieces-All P zero k xs h = tt
pieces-All P (suc count) k xs h =
    (take-All P k xs h, pieces-All P count k (drop k xs) (drop-All P k xs h))
