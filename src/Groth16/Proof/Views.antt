-- ===== src/Groth16/Proof/Views.antt =====
-- What the views of a proof show.
use groth16_verifier_program.Common.{
  ℕ, ◌+◌, ◌-◌, ◌≤◌, ◌≡◌, refl, sym, ap, ◌∙◌, ◌++◌, Bytes, ok, length, take, drop, slice_lem,
  length-take, length-drop, take-append-drop, drop-drop, arith, take-add, take_all, ◌↔◌,
  take-append, drop-append, length-append,
}
use groth16_verifier_program.Groth16.Constants.{proof_size}
use groth16_verifier_program.Groth16.Proof.{Proof, fixed, from_bytes, split_from, a, b, c, a_b}

-- The field of `n` bytes at `offset`.
abbrev pub field : ℕ → ℕ → Bytes → Bytes
field n offset bytes = take n (drop offset bytes)

pub fixed_lem :
    (n offset : ℕ) (bytes : Bytes)
    → offset + n ≤ length bytes
    → fixed n bytes offset ≡ ok (field n offset bytes)
unfolding fixed
fixed_lem n offset bytes h =
    let e : offset + n - offset ≡ n = omega arith in
    slice_lem bytes offset (offset + n) (omega arith) h ∙ rw e

pub length-field :
    (n offset : ℕ) (bytes : Bytes) → offset + n ≤ length bytes → length (field n offset bytes) ≡ n
length-field n offset bytes h =
    omega (arith, length-take n (drop offset bytes), length-drop offset bytes)

-- Adjacent fields make up one.
pub field-append :
    (m n offset end : ℕ) (bytes : Bytes)
    → end ≡ offset + m
    → field (m + n) offset bytes ≡ field m offset bytes ++ field n end bytes
field-append m n offset end bytes h =
    take-add m n (m + n) (drop offset bytes) refl ∙ rw (drop-drop offset m end bytes h)

-- A proof of 256 bytes shows, without a panic, `A`, `B` and `C`, which make up its bytes; `A ‖ B` is one view.
pub views_cover :
    (p : Proof)
    → length p.bytes ≡ proof_size
    → (a p ≡ ok (field 64 0 p.bytes))
      × (b p ≡ ok (field 128 64 p.bytes))
      × (c p ≡ ok (field 64 192 p.bytes))
      × (a_b p ≡ ok (field 64 0 p.bytes ++ field 128 64 p.bytes))
      × (p.bytes ≡ (field 64 0 p.bytes ++ field 128 64 p.bytes) ++ field 64 192 p.bytes)
unfolding a b c a_b take drop
views_cover p h = (
  fixed_lem 64 0 p.bytes (omega arith),
  fixed_lem 128 64 p.bytes (omega arith),
  fixed_lem 64 192 p.bytes (omega arith),
  fixed_lem 192 0 p.bytes (omega arith) ∙ ap ok (field-append 64 128 0 64 p.bytes refl),
  whole,
)
  where
    whole : p.bytes ≡ (field 64 0 p.bytes ++ field 128 64 p.bytes) ++ field 64 192 p.bytes
    whole =
        sym (take_all 256 p.bytes (omega arith))
        ∙ field-append 192 64 0 192 p.bytes refl
        ∙ ap (λ (t : Bytes). t ++ field 64 192 p.bytes) (field-append 64 128 0 64 p.bytes refl)

-- `split_from` succeeds exactly on an input that begins with 256 bytes, and gives those and the rest.
pub split_from_iff :
    (bytes : Bytes) (p : Proof) (rest : Bytes)
    → (split_from bytes ≡ ok (p, rest))
      ↔ ((length p.bytes ≡ proof_size) × (bytes ≡ p.bytes ++ rest))
unfolding split_from from_bytes
split_from_iff bytes p rest = (
  (λ h. ground (arith, length-take 256 bytes, take-append-drop 256 bytes)),
  (λ h. rw h.1 (
      ground (
        arith,
        take-append 256 p.bytes rest,
        drop-append 256 p.bytes rest,
        length-append p.bytes rest,
      ))),
)
