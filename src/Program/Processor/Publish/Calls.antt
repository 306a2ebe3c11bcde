-- ===== src/Program/Processor/Publish/Calls.antt =====
-- What `Publish` relies on in the system program, and the key account that its calls make.
use groth16_verifier_program.Program.Processor.Checks.{try_borrow_mut}
use groth16_verifier_program.Groth16.State.KeyAccount.{key_header, header_body}
use groth16_verifier_program.Program.Processor.Checks.Pair.{update_self, update_ne}
use groth16_verifier_program.Program.Errors.{ProgramError}
use groth16_verifier_program.Groth16.Constants.{key_header_len}
use groth16_verifier_program.Groth16.State.{write_key_header, KeyHeader}
use groth16_verifier_program.Common.{
  ℕ, ◌≡◌, Bytes, ok, length, Bool-cases, List, replicate, ◌+◌, ◌≢◌, ◌>>=◌, ltb, inl, copy_at, inr,
  ◌++◌, >>=-eq-ok, ◌-◌, ap, ◌∙◌, arith, bytes_eq, false, bytes_eq_iff, >>=_assoc, Result,
}
use groth16_verifier_program.Program.Runtime.{View, Account, Runtime, Store, update}
use groth16_verifier_program.Program.Processor.Publish.{create_key_account, top_up, fill_key}
use groth16_verifier_program.Program.Processor.CloseStaging.Effect.{Closing}

-- The two accounts differ in their lamports at most.
abbrev pub Same : Account → Account → Type 0
Same x y = (x.owner ≡ y.owner) × (x.contents ≡ y.contents)

-- The system program's calls, as documented: a transfer moves lamports only, an allocation gives an
-- account zeroed contents, an assignment gives it an owner, and closing empties an account.
pub record Cpi (rt : Runtime) : Type 0 where
  pub transfers :
      (from to : Bytes) (amount : ℕ) (st st' : Store)
      → rt.transfer from to amount st ≡ ok st'
      → (a : Bytes) → Same (st' a) (st a)
  pub allocates :
      (a : Bytes) (space : ℕ) (seeds : List Bytes) (st st' : Store)
      → rt.allocate a space seeds st ≡ ok st'
      → st' ≡ update st a (record (st a) { contents = replicate space 0 })
  pub assigns :
      (a owner : Bytes) (seeds : List Bytes) (st st' : Store)
      → rt.assign a owner seeds st ≡ ok st'
      → st' ≡ update st a (record (st a) { owner = owner })
  pub closes : Closing rt

module _ (rt : Runtime) (cpi : Cpi rt) where
  pub top_up-Same :
      (payer key : Bytes) (shortfall : ℕ) (st st' : Store)
      → top_up rt payer key shortfall st ≡ ok st'
      → (a : Bytes) → Same (st' a) (st a)
  unfolding top_up
  top_up-Same payer key shortfall st st' e a = elim (Bool-cases (ltb 0 shortfall)) [
    | inl short ↦ cpi.transfers payer key shortfall st st' (rw short at e) a
    | inr enough ↦
        let all : st' ≡ st = cc (rw enough at e) in
        let same : st' a ≡ st a = ap (λ (s : Store). s a) all in
        (ap (λ (x : Account). x.owner) same, ap (λ (x : Account). x.contents) same)
  ]

  -- After the account was made it is the program's, zeroed, of the given size, and all other accounts
  -- keep their owners and contents.
  pub create_key_account-eq-ok :
      (payer key program_id hash : Bytes) (bump space : ℕ) (st st' : Store)
      → create_key_account rt payer key program_id hash bump space st ≡ ok st'
      → ((st' key).owner ≡ program_id)
        × ((st' key).contents ≡ replicate space 0)
        × ((a : Bytes) → key ≢ a → Same (st' a) (st a))
  unfolding create_key_account
  create_key_account-eq-ok payer key program_id hash bump space st st' e =
      let (required, _, e₁) = >>=-eq-ok (rt.try_minimum_balance space) _ e in
      let (st₁, t, e₂) = >>=-eq-ok (top_up rt payer key (required - (st key).lamports) st) _ e₁ in
      let (st₂, l, g) = >>=-eq-ok (rt.allocate key space _ st₁) _ e₂ in
      made st₁ st₂ (top_up-Same _ _ _ _ _ t) (cpi.allocates _ _ _ _ _ l) (cpi.assigns _ _ _ _ _ g)
    where
      made :
          (st₁ st₂ : Store)
          → ((a : Bytes) → Same (st₁ a) (st a))
          → st₂ ≡ update st₁ key (record (st₁ key) { contents = replicate space 0 })
          → st' ≡ update st₂ key (record (st₂ key) { owner = program_id })
          → ((st' key).owner ≡ program_id)
            × ((st' key).contents ≡ replicate space 0)
            × ((a : Bytes) → key ≢ a → Same (st' a) (st a))
      made st₁ st₂ same l g =
          let zeroed : Account = record (st₁ key) { contents = replicate space 0 } in
          let k₂ : st₂ key ≡ zeroed = ap (λ (s : Store). s key) l ∙ update_self st₁ key zeroed in
          let owned : Account = record (st₂ key) { owner = program_id } in
          let k₃ : st' key ≡ owned = ap (λ (s : Store). s key) g ∙ update_self st₂ key owned in
          (
            ap (λ (x : Account). x.owner) k₃,
            ap (λ (x : Account). x.contents) k₃ ∙ ap (λ (x : Account). x.contents) k₂,
            λ a ne.
                let e : st' a ≡ st₁ a =
                  ap (λ (s : Store). s a) g
                  ∙ update_ne st₂ key a owned ne
                  ∙ ap (λ (s : Store). s a) l
                  ∙ update_ne st₁ key a zeroed ne in
                (
                  ap (λ (x : Account). x.owner) e ∙ (same a).0,
                  ap (λ (x : Account). x.contents) e ∙ (same a).1,
                ),
          )

module _ (rt : Runtime) (staging key : View) (bump n : ℕ) (body : Bytes) (st st' : Store) where
  filled_by :
      (new : Bytes)
      → (write_key_header {E = ProgramError}
            (st key.address).contents
            (record { bump = bump; num_public_inputs = n })
          >>= λ (b : Bytes). copy_at b key_header_len (length b) body)
        ≡ ok new
      → length (st key.address).contents ≡ key_header_len + length body
      → new ≡ key_header (record { bump = bump; num_public_inputs = n }) ++ body
  filled_by new e l = cc (
    e,
    header_body {E = ProgramError} (st key.address).contents body
        (record { bump = bump; num_public_inputs = n }) l,
  )

  -- `fill_key` writes the header and the body into a fresh key account of their size.
  pub fill_key-eq-ok :
      length (st key.address).contents ≡ key_header_len + length body
      → fill_key rt staging key bump n body st ≡ ok st'
      → st'
        ≡ update st key.address (record (st key.address) {
          contents = key_header (record { bump = bump; num_public_inputs = n }) ++ body;
        })
  unfolding fill_key
  fill_key-eq-ok l e =
      let (_, _, e₁) = >>=-eq-ok (try_borrow_mut staging key) _ e in
      let (x, w, e₂) =
        >>=-eq-ok
          (write_key_header {E = ProgramError} (st key.address).contents
            (record { bump = bump; num_public_inputs = n }))
          _ e₁ in
      let (y, c, e₃) =
        >>=-eq-ok (copy_at {E = ProgramError} x key_header_len (length x) body) _ e₂ in
      collected x y w c l (cc e₃)
    where
      collected :
          (x y : Bytes)
          → write_key_header {E = ProgramError}
              (st key.address).contents
              (record { bump = bump; num_public_inputs = n })
            ≡ ok x
          → copy_at {E = ProgramError} x key_header_len (length x) body ≡ ok y
          → length (st key.address).contents ≡ key_header_len + length body
          → update st key.address (record (st key.address) { contents = y }) ≡ st'
          → st'
            ≡ update st key.address (record (st key.address) {
              contents = key_header (record { bump = bump; num_public_inputs = n }) ++ body;
            })
      collected x y w c l e = let z = filled_by y (rw (w, c)) l in rw (← e, z)

-- `fill_key` goes through on a fresh key account of the size, which is not the staging account.
pub fill_key-fills :
    (rt : Runtime) (staging key : View) (bump n : ℕ) (body : Bytes) (st : Store)
    → staging.address ≢ key.address
    → length (st key.address).contents ≡ key_header_len + length body
    → fill_key rt staging key bump n body st
      ≡ ok (
          update st key.address (record (st key.address) {
            contents = key_header (record { bump = bump; num_public_inputs = n }) ++ body;
          }))
unfolding fill_key try_borrow_mut
fill_key-fills rt staging key bump n body st apart l =
    let h : KeyHeader = record { bump = bump; num_public_inputs = n } in
    let put : Bytes → Result ProgramError Store =
      λ b. ok (update st key.address (record (st key.address) { contents = b })) in
    let free : bytes_eq staging.address key.address ≡ false =
      ground (arith, apart, bytes_eq_iff staging.address key.address) in
    rw free (
      >>=_assoc (write_key_header {E = ProgramError} (st key.address).contents h)
        (λ (b : Bytes). copy_at b key_header_len (length b) body) put
      ∙ ap (λ (m : Result ProgramError Bytes). m >>= put)
          (header_body {E = ProgramError} (st key.address).contents body h l))
