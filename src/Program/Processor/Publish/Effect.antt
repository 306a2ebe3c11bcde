-- ===== src/Program/Processor/Publish/Effect.antt =====
-- What `Publish` asks for, and what it does.
use groth16_verifier_program.Program.Errors.{invalid_instruction_data, map_groth16}
use groth16_verifier_program.Program.Processor.Checks.Pair.{
  update_ne, update_self, authorized_staging_iff,
}
use groth16_verifier_program.Groth16.VerifyingKey.{
  VerifyingKey, unchecked, checked, from_body_with_len,
}
use groth16_verifier_program.Groth16.Validation.{check_points, validate_for_publish}
use groth16_verifier_program.Groth16.VerifyingKey.Layout.{IsLaidOut, from_body_with_len_iff}
use groth16_verifier_program.Groth16.Constants.{vk_seed_prefix, vk_body_len, key_account_len}
use groth16_verifier_program.Groth16.State.KeyAccount.{key_header, key_of}
use groth16_verifier_program.Groth16.State.{StagingHeader, read_staging_account}
use groth16_verifier_program.Common.{
  Bytes, List, ℕ, ◌≡◌, ◌≢◌, length, ok, ◌∷◌, [], arith, bytes_eq_iff, ◌++◌, ◌+◌, ap, >>=-eq-ok,
  ensure, ◌∙◌, length-replicate, ◌==◌, Bool-cases, bytes_eq, inl, map_err, inr, map_err-eq-ok,
  bytes_eq_ne, subst, refl,
}
use groth16_verifier_program.Program.Processor.Checks.{drain_and_close, authorized_staging}
use groth16_verifier_program.Program.Runtime.{Runtime, View, Store, Account, update}
use groth16_verifier_program.Program.Processor.Publish.{
  process, exactly_five, check_accounts, check_target, Accounts, create_key_account, fill_key,
}
use groth16_verifier_program.Program.Processor.CloseStaging.Effect.{
  emptied, drained, drain_and_close-eq-ok,
}
use groth16_verifier_program.Program.Processor.Publish.Guards.{
  listed, exactly_five-eq-ok, AreGiven, IsBlank, check_accounts_iff, check_target_iff,
}
use groth16_verifier_program.Program.Processor.Publish.Calls.{
  Cpi, Same, create_key_account-eq-ok, fill_key-eq-ok,
}

-- What a staged body makes a key: its header, by the derived bump and the staged n.
abbrev pub published : Runtime → Bytes → StagingHeader → Bytes → Bytes
published rt program_id header body =
    key_header (record {
      bump = (rt.find_program_address (vk_seed_prefix ∷ rt.sha256 body ∷ []) program_id).1;
      num_public_inputs = header.num_public_inputs;
    })
    ++ body

-- What the three steps that write leave: a key account with these contents, and no staging account.
pub record Makes (program_id key staging contents : Bytes) (st st' : Store) : Type 0 where
  pub key_owned : (st' key).owner ≡ program_id
  pub key_written : (st' key).contents ≡ contents
  pub staging_closed : st' staging ≡ emptied
  pub others : (a : Bytes) → key ≢ a → staging ≢ a → Same (st' a) (st a)

-- A `Publish` that goes through: what was checked of the store before, and what holds after.
pub record Publishes (rt : Runtime) (program_id : Bytes) (accounts : List View) (st st' : Store)
    : Type 0 where
  pub accs : Accounts
  pub header : StagingHeader
  pub body : Bytes
  pub given : accounts ≡ listed accs
  pub checked : AreGiven program_id accs st
  pub staged : read_staging_account (st accs.staging.address).contents ≡ ok (header, body)
  pub authorized : header.authority ≡ accs.authority.address
  pub laid_out : IsLaidOut (key_of body header.num_public_inputs)
  pub validated : check_points rt.syscalls (key_of body header.num_public_inputs) ≡ ok tt
  pub blank :
      IsBlank program_id
        (rt.find_program_address (vk_seed_prefix ∷ rt.sha256 body ∷ []) program_id).0
        accs.key
        st
  pub made :
      Makes program_id accs.key.address accs.staging.address
        (published rt program_id header body)
        st
        st'

Same-trans : (x y z : Account) → Same x y → Same y z → Same x z
Same-trans x y z p q = (p.0 ∙ q.0, p.1 ∙ q.1)

Same-of : (x y z : Account) → x ≡ y → Same y z → Same x z
Same-of x y z e q =
    (ap (λ (x : Account). x.owner) e ∙ q.0, ap (λ (x : Account). x.contents) e ∙ q.1)

-- An account that is not closed keeps its owner and contents; the one that is credited too.
pub drained-Same :
    (st st' : Store) (from to : Bytes)
    → st' ≡ drained st from to
    → (a : Bytes) → from ≢ a
    → Same (st' a) (st a)
drained-Same st st' from to d a ne =
    let credit : Account = record (st to) { lamports = (st to).lamports + (st from).lamports } in
    let e : st' a ≡ update st to credit a =
      ap (λ (s : Store). s a) d ∙ update_ne (update st to credit) from a emptied ne in
    elim (Bool-cases (bytes_eq to a)) [
      | inl same ↦
          let q : to ≡ a = (bytes_eq_iff to a).0 same in
          let u : update st to credit a ≡ credit = rw (← q) (update_self st to credit) in
          Same-of (st' a) credit (st a) (e ∙ u) (rw q (refl, refl))
      | inr other ↦
          Same-of (st' a) (st a) (st a) (e ∙ update_ne st to a credit (bytes_eq_ne to a other))
            (refl, refl)
    ]

-- The three steps that write: the account, its contents, and the closing of the staging account.
module _ (rt : Runtime) (cpi : Cpi rt) (staging key : View) (to program_id hash : Bytes)
    (bump n : ℕ) (body : Bytes) (payer : Bytes) where
  pub writes_lem :
      (st st₁ st₂ st' : Store)
      → staging.address ≢ key.address
      → length body ≡ vk_body_len n
      → create_key_account rt payer key.address program_id hash bump (key_account_len n) st ≡ ok st₁
      → fill_key rt staging key bump n body st₁ ≡ ok st₂
      → drain_and_close rt staging.address to st₂ ≡ ok st'
      → Makes program_id key.address staging.address
          (key_header (record { bump = bump; num_public_inputs = n }) ++ body)
          st
          st'
  writes_lem st st₁ st₂ st' ne l make fill drain =
      let (o, z, same) =
        create_key_account-eq-ok rt cpi payer key.address program_id hash bump (key_account_len n)
          st st₁ make in
      let size : length (st₁ key.address).contents ≡ 8 + length body =
        ap (λ (b : Bytes). length b) z
        ∙ length-replicate (key_account_len n) 0
        ∙ omega (arith, l) in
      let f = fill_key-eq-ok rt staging key bump n body st₁ st₂ size fill in
      let (_, d) = drain_and_close-eq-ok rt staging.address to st₂ st' cpi.closes drain in
      let header : Bytes = key_header (record { bump = bump; num_public_inputs = n }) in
      let filled : Account = record (st₁ key.address) { contents = header ++ body } in
      let at_key : st₂ key.address ≡ filled =
        ap (λ (s : Store). s key.address) f ∙ update_self st₁ key.address filled in
      let (ko, kc) = drained-Same st₂ st' staging.address to d key.address ne in
      record {
        key_owned = ko ∙ ap (λ (x : Account). x.owner) at_key ∙ o;
        key_written = kc ∙ ap (λ (x : Account). x.contents) at_key;
        staging_closed =
            ap (λ (s : Store). s staging.address) d ∙ update_self _ staging.address emptied;
        others = λ a nk ns.
            Same-trans (st' a) (st₂ a) (st a) (drained-Same st₂ st' staging.address to d a ns) (
              Same-of (st₂ a) (st₁ a) (st a)
                (ap (λ (s : Store). s a) f ∙ update_ne st₁ key.address a filled nk) (same a nk));
      }

module _ (rt : Runtime) (cpi : Cpi rt) (program_id : Bytes) (accounts : List View) (payload : Bytes)
    (st st' : Store) where
  gathered :
      (accs : Accounts) (header : StagingHeader) (body : Bytes) (vk : VerifyingKey unchecked)
      (vk' : VerifyingKey checked) (st₁ st₂ : Store)
      → exactly_five accounts ≡ ok accs
      → check_accounts program_id accs st ≡ ok tt
      → authorized_staging (st accs.staging.address).contents accs.authority ≡ ok (header, body)
      → from_body_with_len body header.num_public_inputs ≡ ok vk
      → check_target program_id
          (rt.find_program_address (vk_seed_prefix ∷ rt.sha256 body ∷ []) program_id).0
          accs.key
          st
        ≡ ok tt
      → validate_for_publish rt.syscalls vk ≡ ok vk'
      → create_key_account rt accs.payer.address accs.key.address program_id
          (rt.sha256 body)
          (rt.find_program_address (vk_seed_prefix ∷ rt.sha256 body ∷ []) program_id).1
          (key_account_len header.num_public_inputs)
          st
        ≡ ok st₁
      → fill_key rt accs.staging accs.key
          (rt.find_program_address (vk_seed_prefix ∷ rt.sha256 body ∷ []) program_id).1
          header.num_public_inputs
          body
          st₁
        ≡ ok st₂
      → drain_and_close rt accs.staging.address accs.authority.address st₂ ≡ ok st'
      → Publishes rt program_id accounts st st'
  unfolding validate_for_publish
  gathered accs header body vk vk' st₁ st₂ five checks auth parse target valid make fill drain =
      let given = (check_accounts_iff program_id accs st).0 checks in
      let blank = (check_target_iff program_id _ accs.key st).0 target in
      let (r, same) =
        (authorized_staging_iff (st accs.staging.address).contents accs.authority header body).0
          auth in
      let (b, n, laid) = (from_body_with_len_iff body header.num_public_inputs vk).0 parse in
      let is_key : vk ≡ key_of body header.num_public_inputs = cc (b, n) in
      let ne : accs.staging.address ≢ accs.key.address =
        λ e. blank.fresh (rw (← e) given.staging_owned) in
      let (_, ok_points, _) = >>=-eq-ok (check_points rt.syscalls vk) _ valid in
      let laid' : IsLaidOut (key_of body header.num_public_inputs) =
        subst (λ (v : VerifyingKey unchecked). IsLaidOut v) is_key laid in
      record {
        accs = accs;
        header = header;
        body = body;
        given = exactly_five-eq-ok accounts accs five;
        checked = given;
        staged = r;
        authorized = same;
        laid_out = laid';
        validated = rw is_key at ok_points;
        blank = blank;
        made =
            writes_lem rt cpi accs.staging accs.key accs.authority.address program_id
              (rt.sha256 body) _ header.num_public_inputs body accs.payer.address st st₁ st₂ st' ne
              laid'.sized make fill drain;
      }

  -- A `Publish` that succeeds was signed by the authority of a staging account of the program, whose
  -- body is a laid-out key with valid points; afterwards the account at the address derived from the
  -- body's hash, which was not the program's before, is the program's and holds exactly the header and
  -- the body, the staging account is empty, and every other account has its owner and contents. The
  -- hypotheses are what the system program's calls do.
  pub publish-eq-ok :
      process rt program_id accounts payload st ≡ ok st' → Publishes rt program_id accounts st st'
  unfolding process
  publish-eq-ok e =
      let (_, _, e₁) = >>=-eq-ok (ensure (length payload == 0) invalid_instruction_data) _ e in
      let (accs, five, e₂) = >>=-eq-ok (exactly_five accounts) _ e₁ in
      let (_, checks, e₃) = >>=-eq-ok (check_accounts program_id accs st) _ e₂ in
      let ((header, body), auth, e₄) =
        >>=-eq-ok (authorized_staging (st accs.staging.address).contents accs.authority) _ e₃ in
      let (vk, parse, e₅) =
        >>=-eq-ok (map_err map_groth16 (from_body_with_len body header.num_public_inputs)) _ e₄ in
      let (_, target, e₆) = >>=-eq-ok (check_target program_id _ accs.key st) _ e₅ in
      let (vk', valid, e₇) =
        >>=-eq-ok (map_err map_groth16 (validate_for_publish rt.syscalls vk)) _ e₆ in
      let (st₁, make, e₈) =
        >>=-eq-ok
          (create_key_account rt accs.payer.address accs.key.address program_id (rt.sha256 body) _ _
            st)
          _ e₇ in
      let (st₂, fill, drain) =
        >>=-eq-ok (fill_key rt accs.staging accs.key _ header.num_public_inputs body st₁) _ e₈ in
      gathered accs header body vk vk' st₁ st₂ five checks auth
        (map_err-eq-ok map_groth16 (from_body_with_len body header.num_public_inputs) parse) target
        (map_err-eq-ok map_groth16 (validate_for_publish rt.syscalls vk) valid) make fill drain
