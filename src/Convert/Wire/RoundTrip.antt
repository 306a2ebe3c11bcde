-- ===== src/Convert/Wire/RoundTrip.antt =====
-- `OnChainKey` and `OnChainProof`: what is written is read back.
use groth16_verifier_program.Convert.Errors.{ConvertError, Reason}
use groth16_verifier_program.Groth16.Constants.{vk_body_len}
use groth16_verifier_program.Convert.Wire.Key.{decode_body_iff}
use groth16_verifier_program.Convert.Wire.Body.{AreValid, key_body, write_key_lem, length-key_body}
use groth16_verifier_program.Common.{
  checked_sub, Bytes, ◌≡◌, if◌then◌else◌, ◌>>=◌, ok, length, ◌==◌, ◌-◌, ◌+◌, Result-cases, err,
  Bool-cases, false, inl, arith, leb, sym, true, ◌∙◌, bytes_eq, ltb, inr, ◌*◌, refl, bytes_eq_iff,
  ◌≤◌, ap,
}
use groth16_verifier_program.Convert.Wire.{
  new_key, key_elements, key_from_body, KeyElements, OnChainKey, decode_body,
}
use groth16_verifier_program.Convert.Ark.{Ark, IsArk}

module _ (ark : Ark) (law : IsArk ark) where
  open ark use {G1, G2}

  -- `OnChainKey::new` writes `α ‖ −β ‖ −γ ‖ −δ ‖ IC₀..ICₙ` for one to 152 points of the table, and
  -- refuses an empty table and a larger one. It does not panic.
  pub new_key_lem :
      (e : KeyElements ark)
      → new_key ark e ≡ (
          if length e.ic == 0
          then err (ConvertError.unsupported Reason.no_ic0)
          else if leb (length e.ic) 152
          then ok (record { body = key_body ark e; num_public_inputs = length e.ic - 1 })
          else err (ConvertError.too_many_public_inputs (length e.ic - 1)))
  unfolding new_key checked_sub
  new_key_lem e =
      let m = length e.ic in
      elim (Bool-cases (m == 0)) [
        | inl none_left ↦
            let z : ltb m 1 ≡ true = ground (arith, none_left) in rw (none_left, z) refl
        | inr some_left ↦
            let o : ltb m 1 ≡ false = ground (arith, some_left) in
            elim (Bool-cases (leb m 152)) [
              | inl fits ↦
                  let k : leb (m - 1) 151 ≡ true = ground (arith, fits) in
                  let r : 64 * (m - 1 + 1) ≡ 64 * m = ground (arith, some_left) in
                  rw (some_left, fits, o, k, r, write_key_lem ark law e) refl
              | inr big ↦
                  let k : leb (m - 1) 151 ≡ false = ground (arith, big) in
                  rw (some_left, big, o, k) refl
            ]
      ]

  -- The elements of a written key, if they are valid, are those it was made from, and so is their number.
  pub key_elements-new_key :
      (e : KeyElements ark) (key : OnChainKey)
      → AreValid ark e
      → new_key ark e ≡ ok key
      → (key_elements ark key ≡ ok e)
        × (length e.ic ≡ key.num_public_inputs + 1)
        × (length key.body ≡ vk_body_len key.num_public_inputs)
  unfolding key_elements
  key_elements-new_key e key v h = elim (Bool-cases (length e.ic == 0)) [
    | inl z ↦ absurd (cc (rw z at (sym (new_key_lem e) ∙ h)))
    | inr pos ↦ elim (Bool-cases (leb (length e.ic) 152)) [
      | inr big ↦ absurd (cc (rw (pos, big) at (sym (new_key_lem e) ∙ h)))
      | inl fits ↦
          let q : record { body = key_body ark e; num_public_inputs = length e.ic - 1 } ≡ key =
            cc (rw (pos, fits) at (sym (new_key_lem e) ∙ h)) in
          let l : 1 ≤ length e.ic = ground (arith, pos) in
          let u : length e.ic ≤ 152 = ground (arith, fits) in
          rw (← q) (
            (decode_body_iff ark law (key_body ark e) e).1 (refl, v, l, u),
            omega (arith, l),
            omega (arith, l, length-key_body ark law e),
          )
    ]
  ]

  rebuilt :
      (body : Bytes) (e : KeyElements ark)
      → decode_body ark body ≡ ok e
      → key_from_body ark body ≡ ok (record { body = body; num_public_inputs = length e.ic - 1 })
  unfolding key_from_body
  rebuilt body e good =
      let (q, v, l, u) = (decode_body_iff ark law body e).0 good in
      let a : (length e.ic == 0) ≡ false = ground (arith, l) in
      let b : leb (length e.ic) 152 ≡ true = ground (arith, u) in
      let n : new_key ark e
          ≡ ok (record { body = key_body ark e; num_public_inputs = length e.ic - 1 }) =
        new_key_lem e ∙ rw (a, b) refl in
      let same : bytes_eq (key_body ark e) body ≡ true = (bytes_eq_iff (key_body ark e) body).1 q in
      rw (good, n, same)
        (ap (λ (t : Bytes). ok (record { body = t; num_public_inputs = length e.ic - 1 })) q)

  -- `OnChainKey::from_body` is decoding alone: the key that is rebuilt has the given body, so the
  -- assertion never fails, and an error is the decoder's.
  pub key_from_body_lem :
      (body : Bytes)
      → key_from_body ark body ≡ (
          decode_body ark body >>= λ (e : KeyElements ark).
          ok (record { body = body; num_public_inputs = length e.ic - 1 }))
  unfolding key_from_body
  key_from_body_lem body = elim (Result-cases (decode_body ark body)) [
    | inr (inr bad) ↦ rw bad refl
    | inr (inl (x, bad)) ↦ rw bad refl
    | inl (e, good) ↦ rw (rebuilt body e good, good) refl
  ]
