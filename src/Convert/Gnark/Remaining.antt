-- ===== src/Convert/Gnark/Remaining.antt =====
-- The reader as the bytes that are left: what each operation gives by what is left.
use groth16_verifier_program.Common.{◌>>=◌, ◌>>◌, Result}
use groth16_verifier_program.Common.{
  ℕ, drop, Bytes, ◌+◌, ◌++◌, checked_add, length, ◌≤◌, checked_sub, ◌<◌, arith, ◌≡◌, get_range,
  checked_mul, ok_or, ◌^◌, ok, ◌-◌, sym, subst, if◌then◌else◌, get_elem?, drop-drop, ◌==◌, leb, ltb,
  drop-append, length-drop, ap, ◌*◌, false, err, length-append, true, Bool-cases, Option, le→leb,
  get_elem?-drop, inl, take-append, leb→le, ◌∙◌, lt→ltb, inr, refl,
}
use groth16_verifier_program.Common
use groth16_verifier_program.Convert.Gnark.{
  take, Reader, finish, ensure_remaining, peek, remaining, new_reader,
}
use groth16_verifier_program.Convert.Errors.{ConvertError, unexpected_eof}

pub record Left (r : Reader) (tail : Bytes) : Type 0 where
  pub within : r.pos ≤ length r.bytes
  pub small : length r.bytes < 2 ^ 64
  pub tail_eq : drop r.pos r.bytes ≡ tail

abbrev pub advance : ℕ → Reader → Reader
advance n r = record { bytes = r.bytes; pos = r.pos + n }

pub new_reader-Left : (bytes : Bytes) → length bytes < 2 ^ 64 → Left (new_reader bytes) bytes
unfolding drop
new_reader-Left bytes h = record { within = omega arith; small = h; tail_eq = refl }

module _ (r : Reader) (tail : Bytes) (left : Left r tail) where
  pub left_length : length tail ≡ length r.bytes - r.pos
  left_length = rw (← left.tail_eq) (length-drop r.pos r.bytes)

  -- `take` gives the next n bytes and moves past them, or finds too few.
  pub take_lem :
      (n : ℕ)
      → take r n
        ≡ (if leb n (length tail) then ok (Common.take n tail, advance n r) else err unexpected_eof)
  unfolding take checked_add get_range
  take_lem n = elim (Bool-cases (leb n (length tail))) [
    | inl fits ↦
        let f : n ≤ length tail = leb→le n (length tail) fits in
        let a : ltb (r.pos + n) (2 ^ 64) ≡ true =
          lt→ltb (r.pos + n) (2 ^ 64) (omega (arith, f, left_length, left.within, left.small)) in
        let b : leb r.pos (r.pos + n) ≡ true = le→leb r.pos (r.pos + n) (omega arith) in
        let c : leb (r.pos + n) (length r.bytes) ≡ true =
          le→leb (r.pos + n) (length r.bytes) (omega (arith, f, left_length, left.within)) in
        let d : r.pos + n - r.pos ≡ n = omega arith in rw (fits, a, b, c, d, left.tail_eq) refl
    | inr short ↦
        let c : leb (r.pos + n) (length r.bytes) ≡ false =
          ground (arith, short, left_length, left.within) in
        elim (Bool-cases (ltb (r.pos + n) (2 ^ 64))) [
          | inl a ↦
              let b : leb r.pos (r.pos + n) ≡ true = le→leb r.pos (r.pos + n) (omega arith) in
              rw (short, a, b, c) refl
          | inr a ↦ rw (short, a) refl
        ]
  ]

  pub advance-Left : (n : ℕ) → n ≤ length tail → Left (advance n r) (drop n tail)
  advance-Left n h = record {
    within = omega (arith, h, left_length, left.within);
    small = left.small;
    tail_eq = rw (← left.tail_eq) (sym (drop-drop r.pos n (r.pos + n) r.bytes refl));
  }

  pub remaining_lem : remaining r ≡ ok (length tail)
  unfolding remaining checked_sub
  remaining_lem =
      let a : ltb (length r.bytes) r.pos ≡ false = ground (arith, left.within) in
      rw (a, remaining) (ap ok (sym left_length))

  -- `finish` fails by the number of bytes that are left.
  pub finish_lem :
      finish r
      ≡ (if length tail == 0 then ok tt else err (ConvertError.trailing_bytes (length tail)))
  unfolding finish
  finish_lem = rw remaining_lem refl

  -- `ensure_remaining` compares without overflow.
  pub ensure_remaining_lem :
      (count k : ℕ)
      → ensure_remaining r count k
        ≡ (if leb (count * k) (length tail) then ok tt else err unexpected_eof)
  unfolding ensure_remaining checked_mul
  ensure_remaining_lem count k = elim (Bool-cases (leb (count * k) (length tail))) [
    | inl fits ↦
        let f : count * k ≤ length tail = leb→le (count * k) (length tail) fits in
        let a : ltb (count * k) (2 ^ 64) ≡ true =
          lt→ltb (count * k) (2 ^ 64) (omega (arith, f, left_length, left.small)) in
        let b : ltb (length tail) (count * k) ≡ false = ground (arith, f) in
        rw (fits, a, remaining_lem, b) refl
    | inr short ↦ elim (Bool-cases (ltb (count * k) (2 ^ 64))) [
      | inl a ↦
          let b : ltb (length tail) (count * k) ≡ true = ground (arith, short) in
          rw (short, a, remaining_lem, b) refl
      | inr a ↦ rw (short, a) refl
    ]
  ]

  pub peek_lem : peek r ≡ ok_or (get_elem? tail 0) unexpected_eof
  unfolding peek
  peek_lem =
      ap (λ (o : Option ℕ). ok_or o unexpected_eof)
        (sym (get_elem?-drop r.pos r.bytes) ∙ ap (λ (t : Bytes). get_elem? t 0) left.tail_eq)

-- The next bytes are taken whole.
pub take-Left :
    (r : Reader) (s tail : Bytes) (n : ℕ)
    → Left r (s ++ tail)
    → n ≡ length s
    → take r n ≡ ok (s, advance n r)
take-Left r s tail n left h =
    let fits : leb n (length (s ++ tail)) ≡ true =
      le→leb n (length (s ++ tail)) (omega (arith, h, length-append s tail)) in
    rw (take_lem r (s ++ tail) left n, fits, take-append n s tail h) refl

pub past-Left :
    (r : Reader) (s tail : Bytes) (n : ℕ)
    → Left r (s ++ tail)
    → n ≡ length s
    → Left (advance n r) tail
past-Left r s tail n left h =
    subst (λ (t : Bytes). Left (advance n r) t) (drop-append n s tail h)
      (advance-Left r (s ++ tail) left n (omega (arith, h, length-append s tail)))

-- What follows `finish` is done where nothing is left.
pub finished_then :
    {A : Type 0} (n : ℕ) (m : Result ConvertError A)
    → ((if n == 0 then ok tt else err (ConvertError.trailing_bytes n)) >> m)
      ≡ (if n == 0 then m else err (ConvertError.trailing_bytes n))
finished_then n m = elim (Bool-cases (n == 0)) [ inl z ↦ rw z refl | inr z ↦ rw z refl ]

pub finished :
    {A : Type 0} (n : ℕ) (a : A)
    → ((if n == 0 then ok tt else err (ConvertError.trailing_bytes n)) >> ok a)
      ≡ (if n == 0 then ok a else err (ConvertError.trailing_bytes n))
finished n a = finished_then n (ok a)
