-- ===== src/Groth16/Verifier/Verdict.antt =====
-- What `verify` answers, for every input.
use groth16_verifier_program.Groth16.Verifier.Assembly.{assemble_pairing_input_lem}
use groth16_verifier_program.Groth16.Proof.Views as Views
use groth16_verifier_program.Groth16.VerifyingKey.Layout as VK
use groth16_verifier_program.Groth16.Proof.{Proof}
use groth16_verifier_program.Groth16.Curve.Calls.{pairing_is_one_bad, pairing_is_one_lem}
use groth16_verifier_program.Groth16.VerifyingKey.Layout.{IsLaidOut, ic_lem, length-ic}
use groth16_verifier_program.Groth16.Constants.{fr_size, g1_size, proof_size}
use groth16_verifier_program.Groth16.Scalar.Order.{is_canonical_iff}
use groth16_verifier_program.Groth16.Scalar.{is_canonical}
use groth16_verifier_program.Groth16.Errors.{
  Groth16Error, invalid_point, proof_invalid, non_canonical_scalar, public_input_count_mismatch,
}
use groth16_verifier_program.Groth16.Verifier.Combination.{
  terms, scalars, HasTable, Encodes, prepare_inputs_lem,
}
use groth16_verifier_program.Groth16.Proof.Views.{field, length-field}
use groth16_verifier_program.Groth16.VerifyingKey.{
  VerifyingKey, checked, alpha, neg_beta, neg_gamma, neg_delta, ic,
}
use groth16_verifier_program.Groth16.Syscall.{Syscalls}
use groth16_verifier_program.Groth16.Curve.{Bn254, Implements, Slot, IsSlot, join_slots}
use groth16_verifier_program.Groth16.Verifier.{
  all_canonical, check_pairing, verify, assemble_pairing_input, prepare_inputs,
}
use groth16_verifier_program.Common.{
  Bytes, List, All, ℕ, Option, IsByte, Bool, true, length, none, Result, ◌≡◌, ◌∷◌, some, map,
  if◌then◌else◌, ltb, [], ok, ◌&&◌, be_value, ◌==◌, arith, ◌*◌, ◌≤◌, err, ap₂, refl, ◌+◌,
  Option-cases, inl, inr, ensure, Bool-cases, chunks_exact, pieces-All, ==_iff, ◌∙◌, ◌>>=◌, ◌/◌,
  pieces_exact, ◌++◌, append_assoc, append-nil, length-append,
}

-- Every value is below the scalar field's modulus.
abbrev pub all_below_r : List ℕ → Bool
all_below_r [] = true
all_below_r (v ∷ vs) =
    ltb v 21888242871839275222246405745257275088548364400416034343698204186575808495617
    && all_below_r vs

canonical-eq :
    (s : Bytes)
    → All IsByte s
    → length s ≡ 32
    → is_canonical s
      ≡ ltb
          (be_value s)
          21888242871839275222246405745257275088548364400416034343698204186575808495617
canonical-eq s h l = ground (arith, is_canonical_iff s h l)

all_canonical-eq :
    (ss : List Bytes)
    → All (λ s. All IsByte s) ss
    → All (λ s. length s ≡ 32) ss
    → all_canonical ss ≡ all_below_r (map be_value ss)
unfolding all_canonical
all_canonical-eq [] h l = refl
all_canonical-eq (s ∷ ss) h l =
    ap₂ (λ (a b : Bool). a && b) (canonical-eq s h.0 l.0) (all_canonical-eq ss h.1 l.1)

module _ (bn : Bn254) where
  open bn use {G1, G2, add, decode₁, decode₂, product_is_one}

  -- The key's elements, as points.
  pub record KeyPoints (vk : VerifyingKey checked) : Type 0 where
    pub α : G1
    pub neg_β : G2
    pub neg_γ : G2
    pub neg_δ : G2
    pub ics : ℕ → G1
    pub has_α : (b : Bytes) → alpha vk ≡ ok b → decode₁ b ≡ some α
    pub has_β : (b : Bytes) → neg_beta vk ≡ ok b → decode₂ b ≡ some neg_β
    pub has_γ : (b : Bytes) → neg_gamma vk ≡ ok b → decode₂ b ≡ some neg_γ
    pub has_δ : (b : Bytes) → neg_delta vk ≡ ok b → decode₂ b ≡ some neg_δ
    pub has_ic :
        (i : ℕ) → i ≤ vk.num_public_inputs → (b : Bytes) → ic vk i ≡ ok b → decode₁ b ≡ some (ics i)

  -- The three points of a proof, if all are valid.
  abbrev pub decode_abc : Bytes → Bytes → Bytes → Option (G1 × G2 × G1)
  decode_abc x y z = elim (decode₁ x) [
    | none ↦ none
    | some p ↦ elim (decode₂ y) [
      | none ↦ none
      | some q ↦ elim (decode₁ z) [ none ↦ none | some r ↦ some (p, q, r) ]
    ]
  ]

  abbrev pub decode_proof : Bytes → Option (G1 × G2 × G1)
  decode_proof bytes = decode_abc (field 64 0 bytes) (field 128 64 bytes) (field 64 192 bytes)

  module _ (vk : VerifyingKey checked) (kp : KeyPoints vk) where
    -- The pairing that a proof is put to: `e(A, B)·e(α, −β)·e(L, −γ)·e(C, −δ) = 1`.
    abbrev pub groth16_equation : G1 → G1 × G2 × G1 → Bool
    groth16_equation l (p, q, r) =
        product_is_one ((p, q) ∷ (kp.α, kp.neg_β) ∷ (l, kp.neg_γ) ∷ (r, kp.neg_δ) ∷ [])

    abbrev pub judge : G1 → Option (G1 × G2 × G1) → Result Groth16Error (Unit {0})
    judge l none = err invalid_point
    judge l (some abc) = ensure (groth16_equation l abc) proof_invalid

    -- `L = IC₀ + Σᵢ aᵢ·ICᵢ`.
    abbrev pub combination : Bytes → G1
    combination public_inputs = add (kp.ics 0) (terms bn kp.ics 0 (scalars public_inputs))

    -- The checks in the order in which `verify` makes them.
    abbrev pub verdict : Bytes → Bytes → Result Groth16Error (Unit {0})
    verdict proof_bytes public_inputs =
        if length public_inputs == vk.num_public_inputs * fr_size
        then if all_below_r (scalars public_inputs)
          then judge (combination public_inputs) (decode_proof proof_bytes)
          else err non_canonical_scalar
        else err public_input_count_mismatch

module _ (sys : Syscalls) (bn : Bn254) (imp : Implements sys bn) (vk : VerifyingKey checked)
    (kp : KeyPoints bn vk) (laid : IsLaidOut vk) where
  open bn use {G1, G2, decode₁, decode₂}

  pub has_table : HasTable bn vk kp.ics
  has_table i h =
      let e = ic_lem vk laid i h in
      (field g1_size (448 + i * 64) vk.body, e, length-ic vk laid i h, kp.has_ic i h _ e)

  abbrev slots_of : Bytes → Bytes → Bytes → Bytes → Bytes → Bytes → Bytes → Bytes → List Slot
  slots_of x y al nb l ng z nd = (x, y) ∷ (al, nb) ∷ (l, ng) ∷ (z, nd) ∷ []

  -- The last stage, on the assembled input.
  check_pairing_lem :
      (x y al nb l ng z nd : Bytes) (q : G1)
      → All IsSlot (slots_of x y al nb l ng z nd)
      → decode₁ al ≡ some kp.α
      → decode₂ nb ≡ some kp.neg_β
      → decode₁ l ≡ some q
      → decode₂ ng ≡ some kp.neg_γ
      → decode₂ nd ≡ some kp.neg_δ
      → check_pairing sys (join_slots (slots_of x y al nb l ng z nd))
        ≡ judge bn vk kp q (decode_abc bn x y z)
  unfolding check_pairing
  check_pairing_lem x y al nb l ng z nd q sl e₁ e₂ e₃ e₄ e₅ =
      let slots = slots_of x y al nb l ng z nd in
      elim (Option-cases (decode₁ x)) [
        | inl bad ↦ rw (pairing_is_one_bad sys bn imp slots sl (ground arith)) (ground arith)
        | inr (p, dx) ↦ elim (Option-cases (decode₂ y)) [
          | inl bad ↦ rw (pairing_is_one_bad sys bn imp slots sl (ground arith)) (ground arith)
          | inr (b, dy) ↦ elim (Option-cases (decode₁ z)) [
            | inl bad ↦ rw (pairing_is_one_bad sys bn imp slots sl (ground arith)) (ground arith)
            | inr (r, dz) ↦
                let pairs : List (G1 × G2) =
                  (p, b) ∷ (kp.α, kp.neg_β) ∷ (q, kp.neg_γ) ∷ (r, kp.neg_δ) ∷ [] in
                rw (pairing_is_one_lem sys bn imp slots pairs sl (ground arith)) (ground arith)
          ]
        ]
      ]

  canonical_scalars :
      (public_inputs : Bytes)
      → All IsByte public_inputs
      → all_canonical (chunks_exact 32 public_inputs) ≡ all_below_r (scalars public_inputs)
  unfolding chunks_exact
  canonical_scalars public_inputs bytes =
      all_canonical-eq (chunks_exact 32 public_inputs)
        (pieces-All IsByte (length public_inputs / 32) 32 public_inputs bytes)
        (pieces_exact (length public_inputs / 32) 32 public_inputs (omega arith))

  -- The stages after the linear combination, whose result is `l`.
  decide_lem :
      (proof : Proof) (l : Bytes) (q : G1)
      → length proof.bytes ≡ proof_size
      → Encodes bn l q
      → (assemble_pairing_input vk proof l >>= check_pairing sys)
        ≡ judge bn vk kp q (decode_proof bn proof.bytes)
  decide_lem proof l q size enc =
      let (al, nb, ng, nd, ics, e₁, e₂, e₃, e₄, e₅, e₆, e₇, n₁, n₂, n₃, n₄) =
        VK.key_views_cover vk laid in
      let (a₁, a₂, a₃, a₄, a₅) = Views.views_cover proof size in
      let x = field 64 0 proof.bytes in
      let y = field 128 64 proof.bytes in
      let z = field 64 192 proof.bytes in
      let sx : length x ≡ 64 = length-field 64 0 proof.bytes (omega arith) in
      let sy : length y ≡ 128 = length-field 128 64 proof.bytes (omega arith) in
      let sz : length z ≡ 64 = length-field 64 192 proof.bytes (omega arith) in
      let flat : ((((((x ++ y) ++ (al ++ nb)) ++ l) ++ ng) ++ z) ++ nd)
          ≡ join_slots (slots_of x y al nb l ng z nd) =
        simp (append_assoc, append-nil) in
      rw
        (
          assemble_pairing_input_lem vk proof l (x ++ y) (al ++ nb) ng z nd a₄ e₅ e₃ a₃ e₄
              (omega (arith, length-append x y, length-append al nb)),
          flat,
        )
        (check_pairing_lem x y al nb l ng z nd q
          ((sx, sy), ((n₁, n₂), ((enc.0, n₃), ((sz, n₄), tt)))) (kp.has_α al e₁) (kp.has_β nb e₂)
          enc.1 (kp.has_γ ng e₃) (kp.has_δ nd e₄))

  -- Every answer of `verify` against a laid-out key whose points decode, on a proof of 256 bytes: the
  -- input count, the canonicity of every input, the validity of the proof's points, and the pairing
  -- equation, in this order. In particular `Ok` means that all four hold.
  pub verify_lem :
      (proof : Proof) (public_inputs : Bytes)
      → length proof.bytes ≡ proof_size
      → All IsByte public_inputs
      → verify sys vk proof public_inputs ≡ verdict bn vk kp proof.bytes public_inputs
  unfolding verify
  verify_lem proof public_inputs size bytes =
      let canon = canonical_scalars public_inputs bytes in
      elim (Bool-cases (length public_inputs == vk.num_public_inputs * fr_size)) [
        | inl counted ↦ elim (Bool-cases (all_below_r (scalars public_inputs))) [
          | inl below ↦
              let (l, e, enc) =
                prepare_inputs_lem sys bn imp vk kp.ics public_inputs has_table
                  ((==_iff _ _).0 counted) (canon ∙ below) in
              rw (counted, below, e)
                (decide_lem proof l (combination bn vk kp public_inputs) size enc)
          | inr above ↦ unfold prepare_inputs in rw (counted, canon, above)
        ]
        | inr miscounted ↦ unfold prepare_inputs in rw miscounted
      ]
