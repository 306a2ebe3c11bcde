-- ===== src/Program/Processor/Verify/Effect.antt =====
-- What the `Verify` instruction answers.
use groth16_verifier_program.Groth16.Verifier.{verify}
use groth16_verifier_program.Groth16.Proof.Views.{split_from_iff}
use groth16_verifier_program.Groth16.VerifyingKey.Layout.{IsLaidOut}
use groth16_verifier_program.Program.Errors.{map_groth16, invalid_account_owner}
use groth16_verifier_program.Groth16.Constants.{
  max_public_inputs, vk_body_len, proof_size, key_account_len, key_header_len,
}
use groth16_verifier_program.Groth16.State.KeyAccount.{
  key_of, key_header, read_key_account-header, read_key_account-eq-ok,
}
use groth16_verifier_program.Groth16.Proof.{Proof, split_from}
use groth16_verifier_program.Groth16.State.{KeyHeader, read_key_account}
use groth16_verifier_program.Common.{
  Bytes, ◌≡◌, ◌++◌, ◌≤◌, length, All, IsByte, ◌∷◌, [], map_err, bytes_eq_refl, refl, ok, List,
  bytes_eq_iff, get_elem?, >>=-eq-ok, ensure-eq-ok, some, map_err-eq-ok, drop,
}
use groth16_verifier_program.Groth16.Curve.{Bn254, Implements}
use groth16_verifier_program.Program.Runtime.{Runtime, View, Store}
use groth16_verifier_program.Groth16.VerifyingKey.{assume_validated, VerifyingKey, unchecked}
use groth16_verifier_program.Program.Processor.Checks.{expect_owned_by, owned_by}
use groth16_verifier_program.Program.Processor.Verify.{process, exactly_one}
use groth16_verifier_program.Groth16.Verifier.Verdict.{KeyPoints, verdict, verify_lem}

-- `Verify` on a program-owned account that holds a header and a body of its length, and a payload of
-- a proof's 256 bytes and the inputs behind them, answers with the verdict on that key, its errors
-- mapped to the program's: the input count, the canonicity of the inputs, the proof's points and the
-- pairing equation are checked, in this order, and nothing else decides. The key's points are those
-- of `kp`, and the syscalls implement the groups.
pub process_lem :
    (rt : Runtime) (bn : Bn254)
    → Implements rt.syscalls bn
    → (program_id : Bytes) (key : View) (st : Store) (h : KeyHeader) (body : Bytes) (proof : Proof)
      (public_inputs : Bytes)
      (kp : KeyPoints bn (assume_validated (key_of body h.num_public_inputs)))
    → (st key.address).owner ≡ program_id
    → (st key.address).contents ≡ key_header h ++ body
    → h.num_public_inputs ≤ max_public_inputs
    → length body ≡ vk_body_len h.num_public_inputs
    → length proof.bytes ≡ proof_size
    → All IsByte public_inputs
    → process rt program_id (key ∷ []) (proof.bytes ++ public_inputs) st
      ≡ map_err map_groth16 (
          verdict bn
            (assume_validated (key_of body h.num_public_inputs))
            kp
            proof.bytes
            public_inputs)
unfolding process exactly_one expect_owned_by owned_by assume_validated
process_lem rt bn imp program_id key st h body proof public_inputs kp own holds b l size bytes =
    let vk = assume_validated (key_of body h.num_public_inputs) in
    let laid : IsLaidOut vk = record { bounded = b; sized = l } in
    rw
      (
        own,
        bytes_eq_refl program_id,
        holds,
        read_key_account-header h body b l,
        (split_from_iff (proof.bytes ++ public_inputs) proof public_inputs).1 (size, refl),
        verify_lem rt.syscalls bn imp vk kp laid proof public_inputs size bytes,
      )
      refl

-- A `Verify` that succeeds: the key account is the program's and reads as a key, the payload is a proof
-- and the inputs behind it, and the verifier accepts them.
pub record Verifies (rt : Runtime) (program_id : Bytes) (accounts : List View) (payload : Bytes)
    (st : Store) : Type 0 where
  pub key : View
  pub header : KeyHeader
  pub proof : Proof
  pub public_inputs : Bytes
  pub given : accounts ≡ key ∷ []
  pub owned : (st key.address).owner ≡ program_id
  pub marked : get_elem? (st key.address).contents 0 ≡ some 1
  pub sized : length (st key.address).contents ≡ key_account_len header.num_public_inputs
  pub proof_sized : length proof.bytes ≡ proof_size
  pub sent : payload ≡ proof.bytes ++ public_inputs
  pub accepted :
      verify rt.syscalls
        (assume_validated
          (key_of (drop key_header_len (st key.address).contents) header.num_public_inputs))
        proof
        public_inputs
      ≡ ok tt

exactly_one-eq-ok :
    (accounts : List View) (key : View) → exactly_one accounts ≡ ok key → accounts ≡ key ∷ []
unfolding exactly_one
exactly_one-eq-ok [] key h = cc h
exactly_one-eq-ok (a ∷ []) key h = cc h
exactly_one-eq-ok (a ∷ b ∷ r) key h = cc h

owned-eq-ok :
    (st : Store) (key : View) (program_id : Bytes)
    → expect_owned_by st key program_id ≡ ok tt
    → (st key.address).owner ≡ program_id
unfolding expect_owned_by owned_by
owned-eq-ok st key program_id h =
    (bytes_eq_iff (st key.address).owner program_id).0 (ensure-eq-ok _ invalid_account_owner h)

module _ (rt : Runtime) (program_id : Bytes) (accounts : List View) (payload : Bytes)
    (st : Store) where
  collected :
      (key : View) (h : KeyHeader) (vk : VerifyingKey unchecked) (proof : Proof)
      (public_inputs : Bytes)
      → exactly_one accounts ≡ ok key
      → expect_owned_by st key program_id ≡ ok tt
      → read_key_account (st key.address).contents ≡ ok (h, vk)
      → split_from payload ≡ ok (proof, public_inputs)
      → verify rt.syscalls (assume_validated vk) proof public_inputs ≡ ok tt
      → Verifies rt program_id accounts payload st
  collected key h vk proof public_inputs one own read split good =
      let (body, n, _, m, _, l) = read_key_account-eq-ok (st key.address).contents read in
      let (size, parts) = (split_from_iff payload proof public_inputs).0 split in
      let is_key : vk ≡ key_of (drop 8 (st key.address).contents) h.num_public_inputs =
        cc (body, n) in
      record {
        key = key;
        header = h;
        proof = proof;
        public_inputs = public_inputs;
        given = exactly_one-eq-ok accounts key one;
        owned = owned-eq-ok st key program_id own;
        marked = m;
        sized = l;
        proof_sized = size;
        sent = parts;
        accepted = rw is_key at good;
      }

  -- A `Verify` that succeeds was given one account, which is the program's, is marked as a key and has
  -- the length for its n; the payload is the 256 bytes of a proof and the inputs behind them; and the
  -- verifier accepts that proof and those inputs for the account's body.
  pub process-eq-ok :
      process rt program_id accounts payload st ≡ ok tt → Verifies rt program_id accounts payload st
  unfolding process
  process-eq-ok e =
      let (key, one, e₁) = >>=-eq-ok (exactly_one accounts) _ e in
      let (_, own, e₂) = >>=-eq-ok (expect_owned_by st key program_id) _ e₁ in
      let ((h, vk), read, e₃) =
        >>=-eq-ok (map_err map_groth16 (read_key_account (st key.address).contents)) _ e₂ in
      let ((proof, public_inputs), split, good) =
        >>=-eq-ok (map_err map_groth16 (split_from payload)) _ e₃ in
      collected key h vk proof public_inputs one own
        (map_err-eq-ok map_groth16 (read_key_account (st key.address).contents) read)
        (map_err-eq-ok map_groth16 (split_from payload) split)
        (map_err-eq-ok map_groth16 (verify rt.syscalls (assume_validated vk) proof public_inputs)
          good)
