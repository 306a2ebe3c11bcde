-- ===== src/Common/Slices.antt =====
-- What the slice operations give where the range is within bounds, and equality of byte strings.
use Prim.Native.Nat.{ℕ, ◌+◌, ◌-◌, ◌≤◌}
use mathlib.Core.Path.{◌≡◌, refl, sym, ap, ◌∙◌}
use mathlib.Core.Logic.{◌↔◌}
use mathlib.Core.Bool.{true, false}
use mathlib.Core.List.{[], ◌∷◌, ◌++◌, append_assoc}
use native.Mathlib.Omega.{arith}
use groth16_verifier_program.Common.Tests.{leb, ◌==◌, le→leb, eq→==}
use groth16_verifier_program.Common.Lists.{
  length, take, drop, replicate, length-append, length-replicate, take-append, drop-append,
  drop-replicate, drop-drop,
}
use groth16_verifier_program.Common.Outcome.{ok}
use groth16_verifier_program.Common.ByteStrings.{Bytes, bytes_eq, slice, slice_from, copy_at}

module _ {E : Type 0} where
  pub slice_lem :
      (xs : Bytes) (lo hi : ℕ)
      → lo ≤ hi
      → hi ≤ length xs
      → slice {E = E} xs lo hi ≡ ok (take (hi - lo) (drop lo xs))
  unfolding slice
  slice_lem xs lo hi h k = rw (le→leb lo hi h, le→leb hi (length xs) k)

  pub slice_front : (xs : Bytes) (k : ℕ) → k ≤ length xs → slice {E = E} xs 0 k ≡ ok (take k xs)
  unfolding drop
  slice_front xs k h =
      let e : k - 0 ≡ k = omega arith in
      slice_lem xs 0 k (omega arith) h ∙ ap (λ (n : ℕ). ok (take n xs)) e

  pub slice_from_lem :
      (xs : Bytes) (lo : ℕ) → lo ≤ length xs → slice_from {E = E} xs lo ≡ ok (drop lo xs)
  unfolding slice_from
  slice_from_lem xs lo h = rw (le→leb lo (length xs) h)

  pub copy_at_lem :
      (xs : Bytes) (lo hi : ℕ) (src : Bytes)
      → lo + length src ≡ hi
      → hi ≤ length xs
      → copy_at {E = E} xs lo hi src ≡ ok (take lo xs ++ (src ++ drop hi xs))
  unfolding copy_at
  copy_at_lem xs lo hi src h k =
      let a : leb lo hi ≡ true = le→leb lo hi (omega arith) in
      let b : leb hi (length xs) ≡ true = le→leb hi (length xs) k in
      let c : (length src == hi - lo) ≡ true = eq→== (length src) (hi - lo) (omega arith) in
      rw (a, b, c)

  -- Filling a zeroed buffer front to back.
  pub copy_at_next :
      (done src : Bytes) (lo hi room left : ℕ)
      → lo ≡ length done
      → hi ≡ lo + length src
      → room ≡ length src + left
      → copy_at {E = E} (done ++ replicate room 0) lo hi src
        ≡ ok ((done ++ src) ++ replicate left 0)
  copy_at_next done src lo hi room left h k r =
      copy_at_lem (done ++ replicate room 0) lo hi src (omega arith)
        (rw (length-append done (replicate room 0), length-replicate {A = ℕ} room 0) (omega arith))
      ∙ ap ok (rw (take-append lo done (replicate room 0) h, dropped, append_assoc))
    where
      dropped : drop hi (done ++ replicate room 0) ≡ replicate left 0
      dropped =
          sym (drop-drop lo (length src) hi (done ++ replicate room 0) k)
          ∙ rw (drop-append lo done (replicate room 0) h)
              (drop-replicate (length src) room left 0 (omega arith))

pub bytes_eq_iff : (xs ys : Bytes) → (bytes_eq xs ys ≡ true) ↔ (xs ≡ ys)
unfolding bytes_eq
bytes_eq_iff [] [] = ground arith
bytes_eq_iff [] (y ∷ ys) = ground arith
bytes_eq_iff (x ∷ xs) [] = ground arith
bytes_eq_iff (x ∷ xs) (y ∷ ys) = ground (arith, bytes_eq_iff xs ys)

pub bytes_eq_refl : (xs : Bytes) → bytes_eq xs xs ≡ true
bytes_eq_refl xs = (bytes_eq_iff xs xs).1 refl

pub bytes_eq_ne : (xs ys : Bytes) → bytes_eq xs ys ≡ false → ¬ (xs ≡ ys)
bytes_eq_ne xs ys h e = cc (h, (bytes_eq_iff xs ys).1 e)
