-- ===== src/Program/Registry/Invariant.antt =====
-- The registry's invariant, and what becomes of a published key.
use groth16_verifier_program.Program.Registry.{
  Steps, Step, IsRegistry, IsPublished, IsKey, none_left, next,
}
use groth16_verifier_program.Common.{Bytes, inl, ◌∙◌, inr, sym, ap, get_elem?, refl}
use groth16_verifier_program.Program.Processor.Publish.Calls.{Cpi, Same}
use groth16_verifier_program.Program.Runtime.{Runtime, Store, Account}
use groth16_verifier_program.Program.Registry.Effects.{Step-Keeps}

module _ (rt : Runtime) (cpi : Cpi rt) (program_id : Bytes) where
  moved :
      (a : Bytes) (old new : Account)
      → Same new old
      → IsPublished rt program_id a old
      → IsPublished rt program_id a new
  moved a old new same p = record {
    body = p.body;
    n = p.n;
    bump = p.bump;
    holds = same.1 ∙ p.holds;
    laid_out = p.laid_out;
    validated = p.validated;
    derived = p.derived;
  }

  step_lem :
      (st st' : Store)
      → Step rt program_id st st'
      → IsRegistry rt program_id st
      → IsRegistry rt program_id st'
  step_lem st st' s inv a key = elim (Step-Keeps rt cpi program_id st st' s a) [
    | inl same ↦
        moved a (st a) (st' a) same
          (inv a (sym same.0 ∙ key.0, ap (λ (b : Bytes). get_elem? b 0) (sym same.1) ∙ key.1))
    | inr (_, complete) ↦ complete key
  ]

  -- Every account that passes for a key is a complete key: with the header and the laid-out, validated
  -- body, at the address derived from that body's hash. This holds along any sequence of instructions
  -- and other steps from a store where it holds, in particular one without accounts of the program.
  pub Steps-IsRegistry :
      (st st' : Store)
      → Steps rt program_id st st'
      → IsRegistry rt program_id st
      → IsRegistry rt program_id st'
  Steps-IsRegistry _ _ (none_left st) inv = inv
  Steps-IsRegistry _ _ (next st st₁ st' s rest) inv =
      Steps-IsRegistry st₁ st' rest (step_lem st st₁ s inv)

  key_kept :
      (a : Bytes) (st st' : Store)
      → Step rt program_id st st'
      → IsKey program_id (st a)
      → Same (st' a) (st a)
  key_kept a st st' s key = elim (Step-Keeps rt cpi program_id st st' s a) [
    | inl same ↦ same
    | inr (no_key, _) ↦ absurd (no_key key)
  ]

  -- A key is never changed or removed: along any sequence of steps its account keeps its owner and its
  -- contents.
  pub key_immutable :
      (a : Bytes) (st st' : Store)
      → Steps rt program_id st st'
      → IsKey program_id (st a)
      → Same (st' a) (st a)
  key_immutable a _ _ (none_left st) key = (refl, refl)
  key_immutable a _ _ (next st st₁ st' s rest) key =
      let same = key_kept a st st₁ s key in
      let key₁ : IsKey program_id (st₁ a) =
        (same.0 ∙ key.0, ap (λ (b : Bytes). get_elem? b 0) same.1 ∙ key.1) in
      let later = key_immutable a st₁ st' rest key₁ in (later.0 ∙ same.0, later.1 ∙ same.1)
