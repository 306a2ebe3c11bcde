-- ===== src/Program/Processor/Write/Effect.antt =====
-- What `Write` asks for, and what it does.
use groth16_verifier_program.Groth16.State.StagingAccount.{read_staging_account-eq-ok}
use groth16_verifier_program.Program.Processor.Checks.Pair.{
  IsPair, authorized_staging_iff, staging_pair_iff,
}
use groth16_verifier_program.Program.Errors.{ProgramError}
use groth16_verifier_program.Program.Processor.Checks.{staging_pair, authorized_staging}
use groth16_verifier_program.Groth16.State.{StagingHeader, read_staging_account}
use groth16_verifier_program.Groth16.Constants.{staging_header_len}
use groth16_verifier_program.Program.Runtime.{View, Store, update, Account}
use groth16_verifier_program.Common.{
  Bytes, checked_add, List, ℕ, take, ◌+◌, ◌<◌, length, ◌^◌, ◌≤◌, ◌++◌, ◌≡◌, some, drop, ◌∷◌,
  copy_at, ◌↔◌, ok, [], u32_from_le, arith, copy_at_lem, length-drop, ap, sym, append_assoc, ◌∙◌,
  ap₂, take-add, drop-drop, refl, if◌then◌else◌, slice_from_lem, leb, none, >>=-eq-ok,
}
use groth16_verifier_program.Program.Processor.Write.{process, split_payload, write_end}

-- A staging account's bytes with some of its body replaced.
abbrev pub written : Bytes → ℕ → Bytes → Bytes
written contents offset bytes =
    take (staging_header_len + offset) contents
    ++ (bytes ++ drop (staging_header_len + offset + length bytes) contents)

-- A `Write` that goes through: the account is a staging account of the signer, and the bytes fit into
-- its body at the offset.
pub record Writes (program_id : Bytes) (accounts : List View) (payload : Bytes) (st st' : Store)
    : Type 0 where
  pub authority : View
  pub staging : View
  pub header : StagingHeader
  pub offset : ℕ
  pub given : accounts ≡ authority ∷ staging ∷ []
  pub pair : IsPair program_id authority staging st
  pub long : 4 ≤ length payload
  pub sent : u32_from_le {E = ProgramError} (take 4 payload) ≡ ok offset
  pub staged :
      read_staging_account (st staging.address).contents
      ≡ ok (header, drop staging_header_len (st staging.address).contents)
  pub authorized : header.authority ≡ authority.address
  pub within :
      staging_header_len + offset + length (drop 4 payload) ≤ length (st staging.address).contents
  pub result :
      st'
      ≡ update st staging.address (record (st staging.address) {
        contents = written (st staging.address).contents offset (drop 4 payload);
      })

-- With checked arithmetic, the end is found exactly where the bytes fit.
write_end_lem :
    (offset len body_len : ℕ)
    → body_len < 2 ^ 64
    → write_end offset len body_len
      ≡ (if leb (offset + len) body_len then some (offset + len) else none)
unfolding write_end checked_add
write_end_lem offset len body_len h = ground arith

-- The header, and the body with the bytes copied into it.
copied :
    (contents bytes : Bytes) (offset : ℕ)
    → 40 + offset + length bytes ≤ length contents
    → (b : Bytes) × (copy_at {E = ProgramError}
          (drop 40 contents)
          offset
          (offset + length bytes)
          bytes
        ≡ ok b)
      × (take 40 contents ++ b ≡ written contents offset bytes)
copied contents bytes offset h = (
  take offset (drop 40 contents) ++ (bytes ++ drop (offset + length bytes) (drop 40 contents)),
  copy_at_lem (drop 40 contents) offset (offset + length bytes) bytes refl
      (omega (arith, length-drop 40 contents)),
  sym (append_assoc (take 40 contents) (take offset (drop 40 contents)) _)
      ∙ ap₂ (λ (a b : Bytes). a ++ (bytes ++ b))
          (sym (take-add 40 offset (40 + offset) contents refl))
          (drop-drop 40 (offset + length bytes) (40 + offset + length bytes) contents
            (omega arith)),
)

module _ (program_id : Bytes) (accounts : List View) (payload : Bytes) (st st' : Store) where
  module _ (authority staging : View) (header : StagingHeader) (offset : ℕ)
      (pair : staging_pair st accounts program_id ≡ ok (authority, staging))
      (long : 4 ≤ length payload)
      (sent : u32_from_le {E = ProgramError} (take 4 payload) ≡ ok offset)
      (staged : authorized_staging (st staging.address).contents authority
        ≡ ok (header, drop 40 (st staging.address).contents)) where
    room : length (st staging.address).contents ≤ 10216
    room =
        let r =
          (authorized_staging_iff (st staging.address).contents authority header _).0 staged in
        let (_, n, l, _, _) = read_staging_account-eq-ok (st staging.address).contents r.0 in
        omega (arith, n, l)

    end_lem :
        write_end offset (length (drop 4 payload)) (length (drop 40 (st staging.address).contents))
        ≡ (if leb
              (offset + length (drop 4 payload))
              (length (drop 40 (st staging.address).contents))
            then some (offset + length (drop 4 payload))
            else none)
    end_lem =
        write_end_lem offset (length (drop 4 payload)) _
          (omega (arith, room, length-drop 40 (st staging.address).contents))

    long_enough : 40 ≤ length (st staging.address).contents
    long_enough =
        let r =
          (authorized_staging_iff (st staging.address).contents authority header _).0 staged in
        let (_, n, l, _, _) = read_staging_account-eq-ok (st staging.address).contents r.0 in
        omega (arith, n, l)

    landed :
        process program_id accounts payload st ≡ ok st'
        → (40 + offset + length (drop 4 payload) ≤ length (st staging.address).contents)
          × (st'
              ≡ update st staging.address (record (st staging.address) {
                contents = written (st staging.address).contents offset (drop 4 payload);
              }))
    unfolding process split_payload
    landed e = ground (
      arith,
      pair,
      long,
      sent,
      staged,
      long_enough,
      end_lem,
      slice_from_lem {E = ProgramError} (st staging.address).contents 40,
      length-drop 40 (st staging.address).contents,
      copied (st staging.address).contents (drop 4 payload) offset,
    )

  -- The parts of a successful run, one after the other.
  split_payload-eq-ok :
      (x y : Bytes)
      → split_payload payload ≡ ok (x, y)
      → (4 ≤ length payload) × (x ≡ take 4 payload)
  unfolding split_payload
  split_payload-eq-ok x y e = ground arith

  gathered :
      (authority staging : View) (x y body : Bytes) (offset : ℕ) (header : StagingHeader)
      → process program_id accounts payload st ≡ ok st'
      → staging_pair st accounts program_id ≡ ok (authority, staging)
      → split_payload payload ≡ ok (x, y)
      → u32_from_le {E = ProgramError} x ≡ ok offset
      → authorized_staging (st staging.address).contents authority ≡ ok (header, body)
      → Writes program_id accounts payload st st'
  gathered authority staging x y body offset header e pair split sent auth =
      let (given, is_pair) = (staging_pair_iff st accounts program_id authority staging).0 pair in
      let (long, front) = split_payload-eq-ok x y split in
      let (r, same) =
        (authorized_staging_iff (st staging.address).contents authority header body).0 auth in
      let (_, _, _, whole, _) = read_staging_account-eq-ok (st staging.address).contents r in
      let sent' : u32_from_le {E = ProgramError} (take 4 payload) ≡ ok offset =
        ap (λ (b : Bytes). u32_from_le {E = ProgramError} b) (sym front) ∙ sent in
      let staged : read_staging_account (st staging.address).contents
          ≡ ok (header, drop 40 (st staging.address).contents) =
        r ∙ ap (λ (b : Bytes). ok (header, b)) whole in
      let auth' : authorized_staging (st staging.address).contents authority
          ≡ ok (header, drop 40 (st staging.address).contents) =
        auth ∙ ap (λ (b : Bytes). ok (header, b)) whole in
      let (w, res) = landed authority staging header offset pair long sent' auth' e in
      record {
        authority = authority;
        staging = staging;
        header = header;
        offset = offset;
        given = given;
        pair = is_pair;
        long = long;
        sent = sent';
        staged = staged;
        authorized = same;
        within = w;
        result = res;
      }

  sound :
      process program_id accounts payload st ≡ ok st' → Writes program_id accounts payload st st'
  unfolding process
  sound e =
      let ((authority, staging), pair, e₁) = >>=-eq-ok (staging_pair st accounts program_id) _ e in
      let ((x, y), split, e₂) = >>=-eq-ok (split_payload payload) _ e₁ in
      let (offset, sent, e₃) = >>=-eq-ok (u32_from_le {E = ProgramError} x) _ e₂ in
      let ((header, body), auth, _) =
        >>=-eq-ok (authorized_staging (st staging.address).contents authority) _ e₃ in
      gathered authority staging x y body offset header e pair split sent auth

  complete :
      Writes program_id accounts payload st st' → process program_id accounts payload st ≡ ok st'
  unfolding process split_payload
  complete w =
      let acc : Account = st w.staging.address in
      let pair =
        (staging_pair_iff st accounts program_id w.authority w.staging).1 (w.given, w.pair) in
      let staged =
        (authorized_staging_iff acc.contents w.authority w.header (drop 40 acc.contents)).1
          (w.staged, w.authorized) in
      let end = end_lem w.authority w.staging w.header w.offset pair w.long w.sent staged in
      let (b, copy, eq) = copied acc.contents (drop 4 payload) w.offset w.within in
      ground (
        arith,
        pair,
        w.long,
        w.sent,
        staged,
        end,
        w.within,
        w.result,
        copy,
        eq,
        slice_from_lem {E = ProgramError} acc.contents 40,
        length-drop 40 acc.contents,
      )

  -- `Write` succeeds exactly in the situation that `Writes` describes, on any accounts and payload:
  -- the bytes land in the body at the offset, and the header and all other accounts stay as they are.
  pub write_iff :
      (process program_id accounts payload st ≡ ok st') ↔ Writes program_id accounts payload st st'
  write_iff = (sound, complete)
