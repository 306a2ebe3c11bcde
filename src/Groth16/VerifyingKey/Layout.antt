-- ===== src/Groth16/VerifyingKey/Layout.antt =====
-- The layout of a key body, and which byte strings have it.
use groth16_verifier_program.Common.{
  ℕ, ◌+◌, ◌*◌, ◌≤◌, ◌≡◌, ◌++◌, ◌↔◌, Bytes, ok, length, arith, take, drop, ap, ◌∙◌, sym, checked_sub,
  take-append-drop, slice_from_lem, refl,
}
use groth16_verifier_program.Groth16.Constants.{
  g1_size, g2_size, vk_body_len, max_public_inputs, vk_ic_offset,
}
use groth16_verifier_program.Groth16.Proof.Views.{field, fixed_lem, length-field, field-append}
use groth16_verifier_program.Groth16.VerifyingKey.{
  KeyState, VerifyingKey, unchecked, from_body, from_body_with_len, alpha, neg_beta, neg_gamma,
  neg_delta, alpha_neg_beta, ic, ic_table,
}

-- What every constructor of a key establishes.
pub record IsLaidOut {s : KeyState} (vk : VerifyingKey s) : Type 0 where
  pub bounded : vk.num_public_inputs ≤ max_public_inputs
  pub sized : length vk.body ≡ vk_body_len vk.num_public_inputs

-- `from_body` accepts exactly the bodies of `448 + 64·(n+1)` bytes for an `n ≤ 151`, and finds that n.
pub from_body_iff :
    (body : Bytes) (vk : VerifyingKey unchecked)
    → (from_body body ≡ ok vk) ↔ ((vk.body ≡ body) × IsLaidOut vk)
unfolding from_body checked_sub
from_body_iff body vk = (λ h. ground arith, λ h. ground arith)

-- `from_body_with_len` gives a key exactly for a body of `448 + 64·(n+1)` bytes for the given n, at most
-- 151, and the key shows that body and that n.
pub from_body_with_len_iff :
    (body : Bytes) (n : ℕ) (vk : VerifyingKey unchecked)
    → (from_body_with_len body n ≡ ok vk)
      ↔ ((vk.body ≡ body) × (vk.num_public_inputs ≡ n) × IsLaidOut vk)
unfolding from_body_with_len
from_body_with_len_iff body n vk = (λ h. ground arith, λ h. ground arith)

-- The two constructors agree.
pub from_body-with_len :
    (body : Bytes) (n : ℕ) (vk : VerifyingKey unchecked)
    → from_body_with_len body n ≡ ok vk
    → from_body body ≡ ok vk
from_body-with_len body n vk h =
    let (e, _, l) = (from_body_with_len_iff body n vk).0 h in (from_body_iff body vk).1 (e, l)

module _ {s : KeyState} (vk : VerifyingKey s) (laid : IsLaidOut vk) where
  abbrev table : Bytes
  table = drop vk_ic_offset vk.body

  pub ic_lem :
      (i : ℕ)
      → i ≤ vk.num_public_inputs
      → ic vk i ≡ ok (field g1_size (vk_ic_offset + i * g1_size) vk.body)
  unfolding ic
  ic_lem i h = fixed_lem 64 (448 + i * 64) vk.body (omega arith)

  pub length-ic :
      (i : ℕ)
      → i ≤ vk.num_public_inputs
      → length (field g1_size (vk_ic_offset + i * g1_size) vk.body) ≡ 64
  length-ic i h = length-field 64 (448 + i * 64) vk.body (omega arith)

  pub alpha_lem : alpha vk ≡ ok (field 64 0 vk.body)
  unfolding alpha
  alpha_lem = fixed_lem 64 0 vk.body (omega arith)

  pub neg_beta_lem : neg_beta vk ≡ ok (field 128 64 vk.body)
  unfolding neg_beta
  neg_beta_lem = fixed_lem 128 64 vk.body (omega arith)

  pub neg_gamma_lem : neg_gamma vk ≡ ok (field 128 192 vk.body)
  unfolding neg_gamma
  neg_gamma_lem = fixed_lem 128 192 vk.body (omega arith)

  pub neg_delta_lem : neg_delta vk ≡ ok (field 128 320 vk.body)
  unfolding neg_delta
  neg_delta_lem = fixed_lem 128 320 vk.body (omega arith)

  pub alpha_neg_beta_lem : alpha_neg_beta vk ≡ ok (field 64 0 vk.body ++ field 128 64 vk.body)
  unfolding alpha_neg_beta
  alpha_neg_beta_lem =
      fixed_lem 192 0 vk.body (omega arith) ∙ ap ok (field-append 64 128 0 64 vk.body refl)

  front :
      field 448 0 vk.body
      ≡ ((field 64 0 vk.body ++ field 128 64 vk.body) ++ field 128 192 vk.body)
        ++ field 128 320 vk.body
  front =
      field-append 320 128 0 320 vk.body refl
      ∙ ap (λ (t : Bytes). t ++ field 128 320 vk.body)
          (field-append 192 128 0 192 vk.body refl
            ∙ ap (λ (t : Bytes). t ++ field 128 192 vk.body)
                (field-append 64 128 0 64 vk.body refl))

  pub body_fields :
      vk.body
      ≡ (((field 64 0 vk.body ++ field 128 64 vk.body) ++ field 128 192 vk.body)
          ++ field 128 320 vk.body)
        ++ drop 448 vk.body
  unfolding take drop
  body_fields = sym (take-append-drop 448 vk.body) ∙ ap (λ (t : Bytes). t ++ drop 448 vk.body) front

-- A laid-out key shows `α`, `−β`, `−γ`, `−δ` and the table, which make up its body; `α ‖ −β` is one
-- view.
pub key_views_cover :
    {s : KeyState} (vk : VerifyingKey s)
    → IsLaidOut vk
    → (al : Bytes) × (nb : Bytes) × (ng : Bytes) × (nd : Bytes) × (ics : Bytes) × (alpha vk ≡ ok al)
      × (neg_beta vk ≡ ok nb)
      × (neg_gamma vk ≡ ok ng)
      × (neg_delta vk ≡ ok nd)
      × (alpha_neg_beta vk ≡ ok (al ++ nb))
      × (ic_table vk ≡ ok ics)
      × (vk.body ≡ (((al ++ nb) ++ ng) ++ nd) ++ ics)
      × (length al ≡ g1_size)
      × (length nb ≡ g2_size)
      × (length ng ≡ g2_size)
      × (length nd ≡ g2_size)
unfolding ic_table
key_views_cover vk laid = (
  field 64 0 vk.body,
  field 128 64 vk.body,
  field 128 192 vk.body,
  field 128 320 vk.body,
  drop 448 vk.body,
  alpha_lem vk laid,
  neg_beta_lem vk laid,
  neg_gamma_lem vk laid,
  neg_delta_lem vk laid,
  alpha_neg_beta_lem vk laid,
  slice_from_lem vk.body 448 (omega arith),
  body_fields vk laid,
  length-field 64 0 vk.body (omega arith),
  length-field 128 64 vk.body (omega arith),
  length-field 128 192 vk.body (omega arith),
  length-field 128 320 vk.body (omega arith),
)
