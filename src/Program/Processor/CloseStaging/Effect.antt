-- ===== src/Program/Processor/CloseStaging/Effect.antt =====
-- What `CloseStaging` asks for, and what it does.
use groth16_verifier_program.Groth16.State.StagingAccount.{read_staging_account-eq-ok}
use groth16_verifier_program.Program.Errors.{
  arithmetic_overflow, invalid_instruction_data, invalid_argument,
}
use groth16_verifier_program.Program.Processor.Checks.Pair.{
  IsPair, staging_pair_iff, authorized_staging_iff,
}
use groth16_verifier_program.Groth16.State.{StagingHeader, read_staging_account}
use groth16_verifier_program.Groth16.Constants.{system_program_id, staging_header_len}
use groth16_verifier_program.Program.Processor.Checks.{
  drain_and_close, expect_writable, staging_pair, authorized_staging,
}
use groth16_verifier_program.Common.{
  Bytes, checked_add, List, ◌≡◌, ok, ◌+◌, [], ◌<◌, ◌^◌, ◌∷◌, true, drop, ensure, ℕ, >>=-eq-ok,
  ok_or, length, ◌==◌, refl, arith, ◌∙◌, ap, ensure-eq-ok,
}
use groth16_verifier_program.Program.Runtime.{Runtime, Account, Store, update, View}
use groth16_verifier_program.Program.Processor.CloseStaging.{process}

-- A closed account, as the runtime leaves it.
abbrev pub emptied : Account
emptied = record { owner = system_program_id; lamports = 0; contents = [] }

-- `AccountView::close` on an account without lamports: it becomes an empty account of the system
-- program, unless the runtime refuses.
abbrev pub Closing : Runtime → Type 0
Closing rt = (acc acc' : Account) → acc.lamports ≡ 0 → rt.close acc ≡ ok acc' → acc' ≡ emptied

-- The store after an account's lamports were moved and it was closed.
abbrev pub drained : Store → Bytes → Bytes → Store
drained st from to =
    update (update st to (record (st to) { lamports = (st to).lamports + (st from).lamports })) from
      emptied

module _ (rt : Runtime) (from to : Bytes) (st st' : Store) (closing : Closing rt) where
  drained_by :
      (total : ℕ) (closed : Account)
      → ok_or (checked_add (st to).lamports (st from).lamports) arithmetic_overflow ≡ ok total
      → rt.close (record (update st to (record (st to) { lamports = total }) from) { lamports = 0 })
        ≡ ok closed
      → update (update st to (record (st to) { lamports = total })) from closed ≡ st'
      → ((st to).lamports + (st from).lamports < 2 ^ 64) × (st' ≡ drained st from to)
  unfolding checked_add
  drained_by total closed sum c e =
      let is_empty = closing _ _ refl c in ground (arith, sum, e, is_empty)

-- A drain moves all lamports, without overflow, and leaves an empty account.
pub drain_and_close-eq-ok :
    (rt : Runtime) (from to : Bytes) (st st' : Store)
    → Closing rt
    → drain_and_close rt from to st ≡ ok st'
    → ((st to).lamports + (st from).lamports < 2 ^ 64) × (st' ≡ drained st from to)
unfolding drain_and_close checked_add
drain_and_close-eq-ok rt from to st st' closing e =
    let (total, sum, e₁) =
      >>=-eq-ok (ok_or (checked_add (st to).lamports (st from).lamports) arithmetic_overflow) _ e in
    let (closed, c, e₂) = >>=-eq-ok (rt.close _) _ e₁ in
    drained_by rt from to st st' closing total closed sum c (cc e₂)

-- A drain goes through where the sum fits, and the emptied account can be closed.
pub drain_and_close-drains :
    (rt : Runtime) (from to : Bytes) (st : Store)
    → (st to).lamports + (st from).lamports < 2 ^ 64
    → ((acc : Account) → acc.lamports ≡ 0 → (acc' : Account) × (rt.close acc ≡ ok acc'))
    → (st' : Store) × (drain_and_close rt from to st ≡ ok st')
unfolding drain_and_close checked_add
drain_and_close-drains rt from to st fits closes =
    let total = (st to).lamports + (st from).lamports in
    let credited = update st to (record (st to) { lamports = total }) in
    let (closed, c) = closes (record (credited from) { lamports = 0 }) refl in
    (update credited from closed, ground (arith, fits, c))

length-zero :
    (payload : Bytes) → ensure (length payload == 0) invalid_instruction_data ≡ ok tt → payload ≡ []
length-zero [] h = refl
length-zero (x ∷ xs) h = ground (arith, h)

-- A `CloseStaging` that goes through.
pub record Closes (program_id : Bytes) (accounts : List View) (payload : Bytes) (st st' : Store)
    : Type 0 where
  pub authority : View
  pub staging : View
  pub header : StagingHeader
  pub nothing_sent : payload ≡ []
  pub given : accounts ≡ authority ∷ staging ∷ []
  pub pair : IsPair program_id authority staging st
  pub credited : authority.is_writable ≡ true
  pub staged :
      read_staging_account (st staging.address).contents
      ≡ ok (header, drop staging_header_len (st staging.address).contents)
  pub authorized : header.authority ≡ authority.address
  pub bounded : (st authority.address).lamports + (st staging.address).lamports < 2 ^ 64
  pub result : st' ≡ drained st staging.address authority.address

module _ (rt : Runtime) (program_id : Bytes) (accounts : List View) (payload : Bytes)
    (st st' : Store) (closing : Closing rt) where
  gathered :
      (authority staging : View) (body : Bytes) (header : StagingHeader)
      → ensure (length payload == 0) invalid_instruction_data ≡ ok tt
      → staging_pair st accounts program_id ≡ ok (authority, staging)
      → expect_writable authority ≡ ok tt
      → authorized_staging (st staging.address).contents authority ≡ ok (header, body)
      → drain_and_close rt staging.address authority.address st ≡ ok st'
      → Closes program_id accounts payload st st'
  unfolding expect_writable
  gathered authority staging body header none_sent pair w auth drain =
      let (given, is_pair) = (staging_pair_iff st accounts program_id authority staging).0 pair in
      let (r, same) =
        (authorized_staging_iff (st staging.address).contents authority header body).0 auth in
      let (_, _, _, whole, _) = read_staging_account-eq-ok (st staging.address).contents r in
      let staged : read_staging_account (st staging.address).contents
          ≡ ok (header, drop 40 (st staging.address).contents) =
        r ∙ ap (λ (b : Bytes). ok (header, b)) whole in
      let (bounded, result) =
        drain_and_close-eq-ok rt staging.address authority.address st st' closing drain in
      record {
        authority = authority;
        staging = staging;
        header = header;
        nothing_sent = length-zero payload none_sent;
        given = given;
        pair = is_pair;
        credited = ensure-eq-ok authority.is_writable invalid_argument w;
        staged = staged;
        authorized = same;
        bounded = bounded;
        result = result;
      }

  -- A `CloseStaging` that succeeds was sent no payload, and by the authority of the staging account;
  -- it adds the lamports of the staging account to those of the authority, without overflow, leaves
  -- an empty account of the system program behind, and changes nothing else. The hypothesis is what
  -- closing an account does.
  pub close_staging-eq-ok :
      process rt program_id accounts payload st ≡ ok st' → Closes program_id accounts payload st st'
  unfolding process
  close_staging-eq-ok e =
      let (_, none_sent, e₀) =
        >>=-eq-ok (ensure (length payload == 0) invalid_instruction_data) _ e in
      let ((authority, staging), pair, e₁) = >>=-eq-ok (staging_pair st accounts program_id) _ e₀ in
      let (_, w, e₂) = >>=-eq-ok (expect_writable authority) _ e₁ in
      let ((header, body), auth, e₃) =
        >>=-eq-ok (authorized_staging (st staging.address).contents authority) _ e₂ in
      gathered authority staging body header none_sent pair w auth e₃
