-- ===== src/Program/Registry/Effects.antt =====
-- What one step does to an account: nothing that shows, or a change that no key undergoes.
use groth16_verifier_program.Program.Errors.{invalid_instruction_data}
use groth16_verifier_program.Program.Processor.Checks.Pair.{update_self, update_ne}
use groth16_verifier_program.Groth16.Constants.{vk_seed_prefix}
use groth16_verifier_program.Groth16.State.StagingAccount.{read_staging_account-eq-ok}
use groth16_verifier_program.Program.Registry.{IsKey, IsPublished, Step, instruction, elsewhere}
use groth16_verifier_program.Program.Processor.Publish.Calls.{Same, Cpi}
use groth16_verifier_program.Common.{
  Bytes, ◌≡◌, take, List, ℕ, ◌⊎◌, get_elem?, inl, ◌≢◌, arith, some, Bool-cases, inr, drop, ap, ◌∷◌,
  bytes_eq, ◌∙◌, [], subst, bytes_eq_iff, bytes_eq_ne, sym, refl, ◌<◌, All, ◌+◌, length, ◌++◌, suc,
  ok, >>=-eq-ok, zero, ok_or,
}
use groth16_verifier_program.Program.Runtime.{Runtime, Account, Store, update, View}
use groth16_verifier_program.Program.Processor.CloseStaging.Effect.{
  Closes, close_staging-eq-ok, emptied,
}
use groth16_verifier_program.Program.Processor.InitializeStaging.Effect.{
  Initializes, initialize_iff, initialized,
}
use groth16_verifier_program.Program.Processor.Write.Effect.{Writes, write_iff, written}
use groth16_verifier_program.Program.Processor.Publish.Effect.{
  Publishes, publish-eq-ok, drained-Same,
}
use groth16_verifier_program.Program.Processor.Dispatch.{process_instruction, process_tag}
use groth16_verifier_program.Groth16.Tag.{Tag, from_u8}
use groth16_verifier_program.Program.Processor.Verify

module _ (rt : Runtime) (cpi : Cpi rt) (program_id : Bytes) where
  abbrev pub Keeps : Bytes → Account → Account → Type 0
  Keeps a old new =
      Same new old
      ⊎ ((¬ IsKey program_id old) × (IsKey program_id new → IsPublished rt program_id a new))

  module _ (st st' : Store) where
    -- A marked byte other than the key's.
    not-IsKey :
        (acc : Account) (d : ℕ) → get_elem? acc.contents 0 ≡ some d → d ≢ 1 → ¬ IsKey program_id acc
    not-IsKey acc d h ne k = ground (arith, h, k.1)

    unmarked :
        (a : Bytes) (old new : Account) (d : ℕ)
        → get_elem? old.contents 0 ≡ some d
        → d ≢ 1
        → ¬ IsKey program_id new
        → Keeps a old new
    unmarked a old new d h ne nk = inr (not-IsKey old d h ne, λ k. absurd (nk k))

    bytes-cases : (a b : Bytes) → (a ≡ b) ⊎ (a ≢ b)
    bytes-cases a b = elim (Bool-cases (bytes_eq a b)) [
      | inl t ↦ inl ((bytes_eq_iff a b).0 t)
      | inr f ↦ inr (bytes_eq_ne a b f)
    ]

    -- An update at one address.
    updated-Keeps :
        (at : Bytes) (acc : Account)
        → st' ≡ update st at acc
        → Keeps at (st at) acc
        → (a : Bytes) → Keeps a (st a) (st' a)
    updated-Keeps at acc u k a = elim (bytes-cases at a) [
      | inl same ↦
          let e : st' at ≡ acc = ap (λ (s : Store). s at) u ∙ update_self st at acc in
          subst (λ (b : Bytes). Keeps b (st b) (st' b)) same
            (subst (λ (x : Account). Keeps at (st at) x) (sym e) k)
      | inr other ↦
          let e : st' a ≡ st a = ap (λ (s : Store). s a) u ∙ update_ne st at a acc other in
          inl (ap (λ (x : Account). x.owner) e, ap (λ (x : Account). x.contents) e)
    ]

    initialize-Keeps :
        (accounts : List View) (payload : Bytes)
        → Initializes program_id accounts payload st st'
        → (a : Bytes) → Keeps a (st a) (st' a)
    initialize-Keeps accounts payload i =
        let new = initialized (st i.staging.address) i.authority.address i.n in
        updated-Keeps i.staging.address new i.result (
          unmarked i.staging.address (st i.staging.address) new 0 i.blank (λ e. ground (arith, e))
            (not-IsKey new 2 refl (λ e. ground (arith, e))))

    first-take :
        (k : ℕ) (xs rest : Bytes) (d : ℕ)
        → 0 < k
        → get_elem? xs 0 ≡ some d
        → get_elem? (take k xs ++ rest) 0 ≡ some d
    unfolding take
    first-take zero xs rest d l h = absurd (omega (arith, l))
    first-take (suc k) [] rest d l h = cc h
    first-take (suc k) (x ∷ xs) rest d l h = h

    first-written :
        (contents bytes : Bytes) (offset : ℕ) (d : ℕ)
        → get_elem? contents 0 ≡ some d
        → get_elem? (written contents offset bytes) 0 ≡ some d
    first-written contents bytes offset d h = first-take (40 + offset) contents _ d (omega arith) h

    write-Keeps :
        (accounts : List View) (payload : Bytes)
        → Writes program_id accounts payload st st'
        → (a : Bytes) → Keeps a (st a) (st' a)
    write-Keeps accounts payload w =
        let old = st w.staging.address in
        let (d, _, _, _, _) = read_staging_account-eq-ok old.contents w.staged in
        let new : Account = record old {
          contents = written old.contents w.offset (drop 4 payload);
        } in
        updated-Keeps w.staging.address new w.result (
          unmarked w.staging.address old new 2 d (λ e. ground (arith, e))
            (not-IsKey new 2 (first-written old.contents (drop 4 payload) w.offset 2 d)
              (λ e. ground (arith, e))))

    empty_lem : ¬ IsKey program_id emptied
    empty_lem k = cc (k.1)

    close-Keeps :
        (accounts : List View) (payload : Bytes)
        → Closes program_id accounts payload st st'
        → (a : Bytes) → Keeps a (st a) (st' a)
    close-Keeps accounts payload c a =
        let s = c.staging.address in
        let (d, _, _, _, _) = read_staging_account-eq-ok (st s).contents c.staged in
        elim (bytes-cases s a) [
          | inl same ↦
              let e : st' s ≡ emptied =
                ap (λ (x : Store). x s) c.result ∙ update_self _ s emptied in
              subst (λ (b : Bytes). Keeps b (st b) (st' b)) same
                (subst (λ (x : Account). Keeps s (st s) x) (sym e)
                  (unmarked s (st s) emptied 2 d (λ e. ground (arith, e)) empty_lem))
          | inr other ↦ inl (drained-Same st st' s c.authority.address c.result a other)
        ]

    publish-Keeps :
        (accounts : List View)
        → Publishes rt program_id accounts st st'
        → (a : Bytes) → Keeps a (st a) (st' a)
    publish-Keeps accounts p a =
        let k = p.accs.key.address in
        let s = p.accs.staging.address in
        let (d, _, _, _, _) = read_staging_account-eq-ok (st s).contents p.staged in
        let new : IsPublished rt program_id k (st' k) = record {
          body = p.body;
          n = p.header.num_public_inputs;
          bump = (rt.find_program_address (vk_seed_prefix ∷ rt.sha256 p.body ∷ []) program_id).1;
          holds = p.made.key_written;
          laid_out = p.laid_out;
          validated = p.validated;
          derived =
              ap
                (λ (x : Bytes). (
                  x,
                  (rt.find_program_address (vk_seed_prefix ∷ rt.sha256 p.body ∷ []) program_id).1,
                ))
                p.blank.derived;
        } in
        elim (bytes-cases k a) [
          | inl same ↦
              subst (λ (b : Bytes). Keeps b (st b) (st' b)) same
                (inr (λ key. p.blank.fresh key.0, λ _. new))
          | inr off ↦ elim (bytes-cases s a) [
            | inl same ↦
                subst (λ (b : Bytes). Keeps b (st b) (st' b)) same
                  (subst (λ (x : Account). Keeps s (st s) x) (sym p.made.staging_closed)
                    (unmarked s (st s) emptied 2 d (λ e. ground (arith, e)) empty_lem))
            | inr other ↦ inl (p.made.others a off other)
          ]
        ]

    tag-Keeps :
        (accounts : List View) (payload : Bytes) (t : Tag)
        → All (λ (v : View). length v.address ≡ 32) accounts
        → process_tag rt program_id accounts t payload st ≡ ok st'
        → (a : Bytes) → Keeps a (st a) (st' a)
    unfolding process_tag
    tag-Keeps accounts payload Tag.verify l e = λ a.
        let (_, _, same) = >>=-eq-ok (Verify.process rt program_id accounts payload st) _ e in
        let q : st ≡ st' = cc same in
        inl (ap (λ (s : Store). (s a).owner) (sym q), ap (λ (s : Store). (s a).contents) (sym q))
    tag-Keeps accounts payload Tag.initialize_staging l e =
        initialize-Keeps accounts payload
          ((initialize_iff program_id accounts payload st st' l).0 e)
    tag-Keeps accounts payload Tag.write l e =
        write-Keeps accounts payload ((write_iff program_id accounts payload st st').0 e)
    tag-Keeps accounts payload Tag.publish l e =
        publish-Keeps accounts (publish-eq-ok rt cpi program_id accounts payload st st' e)
    tag-Keeps accounts payload Tag.close_staging l e =
        close-Keeps accounts payload
          (close_staging-eq-ok rt program_id accounts payload st st' cpi.closes e)

    instruction-Keeps :
        (accounts : List View) (input : Bytes)
        → All (λ (v : View). length v.address ≡ 32) accounts
        → process_instruction rt program_id accounts input st ≡ ok st'
        → (a : Bytes) → Keeps a (st a) (st' a)
    unfolding process_instruction
    instruction-Keeps accounts [] l e = cc e
    instruction-Keeps accounts (tag ∷ payload) l e =
        let (t, _, e₁) = >>=-eq-ok (ok_or (from_u8 tag) invalid_instruction_data) _ e in
        tag-Keeps accounts payload t l e₁

  -- A step leaves the owner and the contents of an account alone, unless the account was no key; and
  -- one that becomes a key then is a complete one.
  pub Step-Keeps :
      (st st' : Store) → Step rt program_id st st' → (a : Bytes) → Keeps a (st a) (st' a)
  Step-Keeps _ _ (instruction accounts input st st' l e) =
      instruction-Keeps st st' accounts input l e
  Step-Keeps _ _ (elsewhere st st' kept foreign) = λ a.
      elim (bytes-cases st st' (st a).owner program_id) [
        | inl own ↦ inl (kept a own)
        | inr other ↦ inr (λ k. other k.0, λ k. absurd (foreign a other k))
      ]
