-- ===== src/Groth16/Verifier/Combination.antt =====
-- `prepare_inputs` computes `L = IC₀ + Σᵢ aᵢ·ICᵢ`.
use groth16_verifier_program.Groth16.Scalar.One.{is_one_iff}
use groth16_verifier_program.Groth16.Curve.Calls.{g1_add_lem, g1_mul_lem}
use groth16_verifier_program.Groth16.Scalar.Zero.{is_zero_iff}
use groth16_verifier_program.Groth16.Constants.{g1_size, fr_size}
use groth16_verifier_program.Groth16.Scalar.{is_zero, is_one}
use groth16_verifier_program.Common.{
  ℕ, be_value, Bytes, replicate, length, List, ◌≤◌, ◌≡◌, ◌∷◌, ◌+◌, some, [], true, ok, ap,
  Bool-cases, arith, inl, inr, map, ◌∙◌, All, chunks_exact, sym, ◌*◌, pieces_exact, ◌/◌,
  length-pieces, eq→==, refl,
}
use groth16_verifier_program.Groth16.VerifyingKey.{VerifyingKey, checked, ic}
use groth16_verifier_program.Groth16.Verifier.{add_term, add_terms, prepare_inputs, all_canonical}
use groth16_verifier_program.Groth16.Curve.{Bn254, Implements}
use groth16_verifier_program.Groth16.Syscall.{Syscalls}

-- The scalars that the input bytes encode.
abbrev pub scalars : Bytes → List ℕ
scalars public_inputs = map be_value (chunks_exact fr_size public_inputs)

module _ (bn : Bn254) where
  open bn use {G1, identity, add, mul, decode₁}

  -- The sum over the scalars from the i-th on.
  abbrev pub terms : (ℕ → G1) → ℕ → List ℕ → G1
  terms points i [] = identity
  terms points i (s ∷ rest) = add (mul s (points (i + 1))) (terms points (i + 1) rest)

  -- The points of a key's table.
  abbrev pub HasTable : VerifyingKey checked → (ℕ → G1) → Type 0
  HasTable vk points =
      (i : ℕ)
      → i ≤ vk.num_public_inputs
      → (b : Bytes) × (ic vk i ≡ ok b) × (length b ≡ g1_size) × (decode₁ b ≡ some (points i))

  -- An encoded point, as a result.
  abbrev pub Encodes : Bytes → G1 → Type 0
  Encodes b p = (length b ≡ g1_size) × (decode₁ b ≡ some p)

module _ (sys : Syscalls) (bn : Bn254) (imp : Implements sys bn) where
  open bn use {G1, identity, add, mul, decode₁, encode₁}

  -- A zero scalar has value 0.
  is_zero-value : (s : Bytes) → length s ≡ 32 → is_zero s ≡ true → be_value s ≡ 0
  unfolding be_value replicate
  is_zero-value s l z = rw ((is_zero_iff 4 s (omega arith)).0 z)

  -- All-zero bytes are the identity.
  is_zero-identity :
      (b : Bytes) (p : G1) → length b ≡ 64 → is_zero b ≡ true → decode₁ b ≡ some p → p ≡ identity
  is_zero-identity b p l z e =
      cc (e, bn.decode₁-zeros, ap decode₁ ((is_zero_iff 8 b (omega arith)).0 z))

  -- One round adds `a·ICᵢ₊₁`, by whichever of its four ways.
  add_term_lem :
      (vk : VerifyingKey checked) (i : ℕ) (acc s b : Bytes) (p q : G1)
      → Encodes bn acc q
      → length s ≡ 32
      → ic vk (i + 1) ≡ ok b
      → Encodes bn b p
      → (r : Bytes) × (add_term sys vk i acc s ≡ ok r) × Encodes bn r (add q (mul (be_value s) p))
  unfolding add_term
  add_term_lem vk i acc s b p q ea ls eb (lb, dp) = elim (Bool-cases (is_zero s)) [
    | inl z ↦ (
      acc,
      rw z,
      (ea.0, ea.1 ∙ ap some (sym (rw (is_zero-value s ls z, bn.mul_zero, bn.add_identity)))),
    )
    | inr nz ↦ elim (Bool-cases (is_zero b)) [
      | inl z ↦ (
        acc,
        rw (nz, eb, z),
        (
          ea.0,
          ea.1
              ∙ ap some (sym (rw (is_zero-identity b p lb z dp, bn.mul_identity, bn.add_identity))),
        ),
      )
      | inr nb ↦ elim (Bool-cases (is_one s)) [
        | inl one ↦ (
          encode₁ (add q p),
          rw (nz, eb, nb, one) (g1_add_lem sys bn imp acc b q p ea.0 lb ea.1 dp),
          (
            bn.length-encode₁ _,
            bn.decode₁-encode₁ _ ∙ ap some (rw ((is_one_iff s ls).0 one, bn.mul_one)),
          ),
        )
        | inr no_one ↦ (
          encode₁ (add q (mul (be_value s) p)),
          rw (nz, eb, nb, no_one, g1_mul_lem sys bn imp b s p lb ls dp)
              (g1_add_lem sys bn imp acc (encode₁ (mul (be_value s) p)) q (mul (be_value s) p) ea.0
                (bn.length-encode₁ _) ea.1 (bn.decode₁-encode₁ _)),
          (bn.length-encode₁ _, bn.decode₁-encode₁ _),
        )
      ]
    ]
  ]

  -- The second loop adds the remaining terms.
  add_terms_lem :
      (vk : VerifyingKey checked) (points : ℕ → G1) (i : ℕ) (acc : Bytes) (q : G1) (ss : List Bytes)
      → HasTable bn vk points
      → Encodes bn acc q
      → All (λ s. length s ≡ 32) ss
      → i + length ss ≤ vk.num_public_inputs
      → (r : Bytes) × (add_terms sys vk i acc ss ≡ ok r)
        × Encodes bn r (add q (terms bn points i (map be_value ss)))
  unfolding add_terms
  add_terms_lem vk points i acc q [] tab ea ls h =
      (acc, refl, (ea.0, ea.1 ∙ ap some (sym (bn.add_identity q))))
  add_terms_lem vk points i acc q (s ∷ ss) tab ea ls h =
      let (b, eb, lb, db) = tab (i + 1) (omega arith) in
      let (r, er, enc) = add_term_lem vk i acc s b (points (i + 1)) q ea ls.0 eb (lb, db) in
      let (r', er', enc') =
        add_terms_lem vk points (i + 1) r (add q (mul (be_value s) (points (i + 1)))) ss tab enc
          ls.1 (omega arith) in
      (r', rw er er', (enc'.0, enc'.1 ∙ ap some (bn.add_assoc _ _ _)))

  -- For a key whose IC entries decode, on the right number of canonical scalars, `prepare_inputs` succeeds
  -- and the result encodes `IC₀ + Σᵢ aᵢ·ICᵢ`, whichever terms
  -- the loop skips or adds without multiplying.
  pub prepare_inputs_lem :
      (vk : VerifyingKey checked) (points : ℕ → G1) (public_inputs : Bytes)
      → HasTable bn vk points
      → length public_inputs ≡ vk.num_public_inputs * fr_size
      → all_canonical (chunks_exact fr_size public_inputs) ≡ true
      → (l : Bytes) × (prepare_inputs sys vk public_inputs ≡ ok l)
        × Encodes bn l (add (points 0) (terms bn points 0 (scalars public_inputs)))
  unfolding prepare_inputs chunks_exact
  prepare_inputs_lem vk points public_inputs tab h canon =
      let (b, eb, lb, db) = tab 0 (omega arith) in
      let (r, er, enc) =
        add_terms_lem vk points 0 b (points 0) (chunks_exact fr_size public_inputs) tab (lb, db)
          (pieces_exact (length public_inputs / 32) 32 public_inputs (omega arith))
          (omega (arith, length-pieces (length public_inputs / 32) 32 public_inputs)) in
      (r, rw (eq→== _ _ h, canon, eb) er, enc)
