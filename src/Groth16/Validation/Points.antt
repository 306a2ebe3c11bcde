-- ===== src/Groth16/Validation/Points.antt =====
-- What the validation of a key establishes of its points.
use groth16_verifier_program.Groth16.Errors.{identity_key_element}
use groth16_verifier_program.Groth16.Scalar.Zero.{is_zero_iff}
use groth16_verifier_program.Groth16.Constants.{g1_size, g2_size}
use groth16_verifier_program.Groth16.Scalar.{is_zero}
use groth16_verifier_program.Groth16.Curve.Calls.{pairing_is_one_bad, g1_add-eq-ok}
use groth16_verifier_program.Groth16.VerifyingKey.Layout.{IsLaidOut}
use groth16_verifier_program.Common.{
  Bytes, List, ℕ, ◌≡◌, some, ok, All, ◌+◌, ◌≤◌, if◌then◌else◌, ◌∷◌, ◌*◌, Option-cases, ltb, ◌<◌,
  inl, arith, length, inr, suc, ◌++◌, length-append, Bool-cases, zero, copy_at_next, [], replicate,
  append-nil, refl, subst, >>=-eq-ok, sym, ◌==◌, ==_iff, ensure, ◌/◌, none, not, ◌≢◌, false, ◌||◌,
  ◌∙◌, append_assoc, Option, Bool,
}
use groth16_verifier_program.Groth16.Curve.{
  Bn254, Implements, Slot, decode_slots, IsSlot, join_slots,
}
use groth16_verifier_program.Groth16.VerifyingKey.{
  VerifyingKey, unchecked, alpha_neg_beta, neg_gamma, neg_delta, ic, assume_validated, alpha,
  neg_beta,
}
use groth16_verifier_program.Groth16.Syscall.{Syscalls, pairing_validate_points, g1_add}
use groth16_verifier_program.Groth16.VerifyingKey.Layout as VK
use groth16_verifier_program.Groth16.Validation.{key_pairing_input, add_pairs, check_points}
use groth16_verifier_program.Groth16.Proof.Views.{field}
use groth16_verifier_program.Groth16.Verifier.Verdict.{KeyPoints}

-- The three pairs stand one behind the other.
pub key_pairing_input_lem :
    (vk : VerifyingKey unchecked) (ic0 ab g d : Bytes)
    → alpha_neg_beta vk ≡ ok ab
    → neg_gamma vk ≡ ok g
    → neg_delta vk ≡ ok d
    → (length ab ≡ 192) × (length ic0 ≡ 64) × (length g ≡ 128) × (length d ≡ 128)
    → key_pairing_input vk ic0 ≡ ok ((((ab ++ ic0) ++ g) ++ ic0) ++ d)
unfolding key_pairing_input
key_pairing_input_lem vk ic0 ab g d h₁ h₂ h₃ n =
    let d₁ = ab in
    let d₂ = d₁ ++ ic0 in
    let d₃ = d₂ ++ g in
    let d₄ = d₃ ++ ic0 in
    let n₂ : length d₂ ≡ 256 = omega (arith, length-append ab ic0) in
    let n₃ : length d₃ ≡ 384 = omega (arith, length-append d₂ g) in
    let n₄ : length d₄ ≡ 448 = omega (arith, length-append d₃ ic0) in
    rw
      (
        h₁,
        h₂,
        h₃,
        copy_at_next [] ab 0 192 576 384 refl (omega arith) (omega arith),
        copy_at_next d₁ ic0 192 256 384 320 (omega arith) (omega arith) (omega arith),
        copy_at_next d₂ g 256 384 320 192 (omega arith) (omega arith) (omega arith),
        copy_at_next d₃ ic0 384 448 192 128 (omega arith) (omega arith) (omega arith),
        copy_at_next d₄ d 448 576 128 0 (omega arith) (omega arith) (omega arith),
      )
      (unfold replicate in rw append-nil)

module _ (sys : Syscalls) (bn : Bn254) (imp : Implements sys bn) where
  open bn use {G1, G2, decode₁, decode₂}

  -- A pairing call that succeeds was given points that decode.
  decoded :
      (slots : List Slot)
      → All IsSlot slots
      → pairing_validate_points sys (join_slots slots) ≡ ok tt
      → (points : List (G1 × G2)) × (decode_slots bn slots ≡ some points)
  unfolding pairing_validate_points
  decoded slots h e = elim (Option-cases (decode_slots bn slots)) [
    | inl bad ↦ cc (rw (pairing_is_one_bad sys bn imp slots h bad) at e)
    | inr good ↦ good
  ]

  decoded_slot :
      (p q : Bytes) (rest : List Slot) (points : List (G1 × G2))
      → decode_slots bn ((p, q) ∷ rest) ≡ some points
      → (a : G1) × (b : G2) × (more : List (G1 × G2)) × (decode₁ p ≡ some a)
        × (decode₂ q ≡ some b)
        × (decode_slots bn rest ≡ some more)
  decoded_slot p q rest points e = elim (Option-cases (decode₁ p)) [
    | inl bad ↦ absurd (cc (rw (bad, decode_slots) at e))
    | inr (a, ea) ↦ elim (Option-cases (decode₂ q)) [
      | inl bad ↦ absurd (cc (rw (ea, bad, decode_slots) at e))
      | inr (b, eb) ↦ elim (Option-cases (decode_slots bn rest)) [
        | inl bad ↦ absurd (cc (rw (ea, eb, bad, decode_slots) at e))
        | inr (more, em) ↦ (a, b, more, ea, eb, em)
      ]
    ]
  ]

  module _ (vk : VerifyingKey unchecked) (laid : IsLaidOut vk) where
    abbrev pub entry : ℕ → Bytes
    entry i = field 64 (448 + i * 64) vk.body

    abbrev Decodes : ℕ → Type 0
    Decodes i = (p : G1) × (decode₁ (entry i) ≡ some p)

    -- One round adds one or two entries, and both decode if it succeeds.
    pair_added :
        (i : ℕ)
        → i ≤ vk.num_public_inputs
        → (b : Bytes) → (if ltb i vk.num_public_inputs then ic vk (i + 1) else ok (entry i)) ≡ ok b
        → (c : Bytes) → g1_add sys (entry i) b ≡ ok c
        → Decodes i × (i + 1 ≤ vk.num_public_inputs → Decodes (i + 1))
    pair_added i h b eb c e = elim (Bool-cases (ltb i vk.num_public_inputs)) [
      | inl more ↦
          let in_range : i + 1 ≤ vk.num_public_inputs = ground (arith, more) in
          let same : entry (i + 1) ≡ b = cc (rw (more, VK.ic_lem vk laid (i + 1) in_range) at eb) in
          let (p, q, ep, eq) =
            g1_add-eq-ok sys bn imp (entry i) (entry (i + 1)) (VK.length-ic vk laid i h)
              (VK.length-ic vk laid (i + 1) in_range)
              (subst (λ (x : Bytes). g1_add sys (entry i) x ≡ ok c) (sym same) e) in
          ((p, ep), λ _. (q, eq))
      | inr last ↦
          let same : entry i ≡ b = cc (rw last at eb) in
          let (p, q, ep, eq) =
            g1_add-eq-ok sys bn imp (entry i) (entry i) (VK.length-ic vk laid i h)
              (VK.length-ic vk laid i h)
              (subst (λ (x : Bytes). g1_add sys (entry i) x ≡ ok c) (sym same) e) in
          ((p, ep), λ l. absurd (ground (arith, last, l)))
    ]

    pairs_added :
        (rounds i : ℕ)
        → i + 2 * rounds ≤ vk.num_public_inputs + 2
        → add_pairs sys vk rounds i ≡ ok tt
        → (j : ℕ) → i ≤ j
        → j < i + 2 * rounds
        → j ≤ vk.num_public_inputs
        → Decodes j
    unfolding add_pairs
    pairs_added zero i h e j l u m = absurd (omega (arith, l, u))
    pairs_added (suc rounds) i h e j l u m =
        let inside : i ≤ vk.num_public_inputs = omega (arith, h) in
        let (a, ea, e₁) = >>=-eq-ok (ic vk i) _ e in
        let at_i : a ≡ entry i = cc (ea, VK.ic_lem vk laid i inside) in
        let (b, eb, e₂) =
          >>=-eq-ok (if ltb i vk.num_public_inputs then ic vk (i + 1) else ok a) _ e₁ in
        let (c, ec, e₃) = >>=-eq-ok (g1_add sys a b) _ e₂ in
        let (first, second) =
          pair_added i inside b
            (subst
              (λ (x : Bytes). (if ltb i vk.num_public_inputs then ic vk (i + 1) else ok x) ≡ ok b)
              at_i eb)
            c (subst (λ (x : Bytes). g1_add sys x b ≡ ok c) at_i ec) in
        elim (Bool-cases (j == i)) [
          | inl here ↦ subst (λ (k : ℕ). Decodes k) (sym ((==_iff j i).0 here)) first
          | inr off ↦ elim (Bool-cases (j == i + 1)) [
            | inl next ↦
                let q : j ≡ i + 1 = (==_iff j (i + 1)).0 next in
                subst (λ (k : ℕ). Decodes k) (sym q) (second (omega (arith, q, m)))
            | inr beyond ↦
                pairs_added rounds (i + 2) (omega (arith, h)) e₃ j (ground (arith, l, off, beyond))
                  (omega (arith, u)) m
          ]
        ]

    -- What a validated key has: points for all its elements, and none of the four fixed ones is the
    -- identity.
    pub record Validated : Type 0 where
      pub points : KeyPoints bn (assume_validated vk)
      pub α_proper : (b : Bytes) → alpha vk ≡ ok b → b ≢ replicate g1_size 0
      pub β_proper : (b : Bytes) → neg_beta vk ≡ ok b → b ≢ replicate g2_size 0
      pub γ_proper : (b : Bytes) → neg_gamma vk ≡ ok b → b ≢ replicate g2_size 0
      pub δ_proper : (b : Bytes) → neg_delta vk ≡ ok b → b ≢ replicate g2_size 0

    -- The point of an entry, where it decodes.
    abbrev pub point : ℕ → G1
    point i = elim (decode₁ (entry i)) [ none ↦ bn.identity | some p ↦ p ]

    point_of :
        (o : Option G1) (p : G1)
        → o ≡ some p
        → o ≡ some (elim o [ none ↦ bn.identity | some q ↦ q ])
    point_of none p e = cc e
    point_of (some q) p e = refl

    pub point_lem : (i : ℕ) → Decodes i → decode₁ (entry i) ≡ some (point i)
    point_lem i (p, e) = point_of (decode₁ (entry i)) p e

    all_ics :
        (a : Bytes) (q : G1)
        → decode₁ (entry 0) ≡ some q
        → add_pairs sys vk ((vk.num_public_inputs + 1) / 2) 1 ≡ ok tt
        → (i : ℕ) → i ≤ vk.num_public_inputs
        → Decodes i
    all_ics a q e₀ e zero h = (q, e₀)
    all_ics a q e₀ e (suc i) h =
        pairs_added ((vk.num_public_inputs + 1) / 2) 1 (omega arith) e (suc i) (omega arith)
          (omega (arith, h)) h

    none_zero :
        (a b c d : Bool)
        → ensure (not (a || (b || (c || d)))) identity_key_element ≡ ok tt
        → (a ≡ false) × (b ≡ false) × (c ≡ false) × (d ≡ false)
    none_zero a b c d h = ground (arith, h)

    proper :
        (k : ℕ) (b c : Bytes)
        → length b ≡ 8 * k
        → is_zero b ≡ false
        → b ≡ c
        → c ≢ replicate (8 * k) 0
    proper k b c l z same e = cc (z, (is_zero_iff k b l).1 (same ∙ e))

    module _ (al nb ng nd : Bytes) (e₁ : alpha vk ≡ ok al) (e₂ : neg_beta vk ≡ ok nb)
        (e₃ : neg_gamma vk ≡ ok ng) (e₄ : neg_delta vk ≡ ok nd)
        (n : (length al ≡ 64) × (length nb ≡ 128) × (length ng ≡ 128) × (length nd ≡ 128))
        (z : (is_zero al ≡ false)
          × (is_zero nb ≡ false)
          × (is_zero ng ≡ false)
          × (is_zero nd ≡ false))
        (rest : add_pairs sys vk ((vk.num_public_inputs + 1) / 2) 1 ≡ ok tt) where
      gathered :
          (points : List (G1 × G2))
          → decode_slots bn ((al, nb) ∷ (entry 0, ng) ∷ (entry 0, nd) ∷ []) ≡ some points
          → Validated
      unfolding assume_validated alpha neg_beta neg_gamma neg_delta ic
      gathered points d =
          let (α, β, m₁, dα, dβ, d₁) =
            decoded_slot al nb ((entry 0, ng) ∷ (entry 0, nd) ∷ []) points d in
          let (q, γ, m₂, dq, dγ, d₂) = decoded_slot (entry 0) ng ((entry 0, nd) ∷ []) m₁ d₁ in
          let (_, δ, m₃, _, dδ, _) = decoded_slot (entry 0) nd [] m₂ d₂ in
          record {
            points = record {
              α = α;
              neg_β = β;
              neg_γ = γ;
              neg_δ = δ;
              ics = point;
              has_α = λ b e. cc (e, e₁, dα);
              has_β = λ b e. cc (e, e₂, dβ);
              has_γ = λ b e. cc (e, e₃, dγ);
              has_δ = λ b e. cc (e, e₄, dδ);
              has_ic =
                  λ i h b e. cc (e, VK.ic_lem vk laid i h, point_lem i (all_ics al q dq rest i h));
            };
            α_proper = λ b e. proper 8 al b n.0 z.0 (cc (e, e₁));
            β_proper = λ b e. proper 16 nb b n.1 z.1 (cc (e, e₂));
            γ_proper = λ b e. proper 16 ng b n.2 z.2 (cc (e, e₃));
            δ_proper = λ b e. proper 16 nd b n.3 z.3 (cc (e, e₄));
          }

    -- A laid-out key that passes validation has points for all its elements, the ones that `verify`
    -- needs, and none of alpha, -beta, -gamma and -delta is the identity.
    pub check_points-eq-ok : check_points sys vk ≡ ok tt → Validated
    unfolding check_points
    check_points-eq-ok e =
        let (al, nb, ng, nd, _, e₁, e₂, e₃, e₄, e₅, _, _, n₁, n₂, n₃, n₄) =
          VK.key_views_cover vk laid in
        let e₀ = VK.ic_lem vk laid 0 (omega arith) in
        let n₀ = VK.length-ic vk laid 0 (omega arith) in
        let f = rw (e₁, e₀, e₂, e₃, e₄) at e in
        let (_, z, f₁) =
          >>=-eq-ok
            (ensure (not (is_zero al || (is_zero nb || (is_zero ng || is_zero nd))))
              identity_key_element)
            _ f in
        let w =
          rw
            (key_pairing_input_lem vk (entry 0) (al ++ nb) ng nd e₅ e₃ e₄
              (omega (arith, length-append al nb), n₀, n₃, n₄))
            at f₁ in
        let ic0 : Bytes = entry 0 in
        let flat : ((((al ++ nb) ++ ic0) ++ ng) ++ ic0) ++ nd
            ≡ join_slots ((al, nb) ∷ (ic0, ng) ∷ (ic0, nd) ∷ []) =
          simp (append_assoc, append-nil) in
        let (_, pv, rest) =
          >>=-eq-ok (pairing_validate_points sys (((((al ++ nb) ++ ic0) ++ ng) ++ ic0) ++ nd)) _
            w in
        let (points, d) =
          decoded ((al, nb) ∷ (ic0, ng) ∷ (ic0, nd) ∷ []) ((n₁, n₂), ((n₀, n₃), ((n₀, n₄), tt)))
            (rw flat at pv) in
        gathered al nb ng nd e₁ e₂ e₃ e₄ (n₁, n₂, n₃, n₄)
          (none_zero (is_zero al) (is_zero nb) (is_zero ng) (is_zero nd) z) rest points d
