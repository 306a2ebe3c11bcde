-- ===== src/Program/Upload/Step.antt =====
-- One piece: what a `Write` of it leaves.
use groth16_verifier_program.Program.Errors.{ProgramError}
use groth16_verifier_program.Program.Processor.Checks.Pair.{update_self, update_ne}
use groth16_verifier_program.Program.Upload.Pieces.{length_four, u32_from_le-to_le}
use groth16_verifier_program.Program.Processor.Write.Effect.{written, write_iff}
use groth16_verifier_program.Groth16.State.StagingAccount.{
  staging_header, read_staging_account-header,
}
use groth16_verifier_program.Groth16.Constants.{max_public_inputs, vk_body_len}
use groth16_verifier_program.Groth16.State.{StagingHeader, read_staging_account}
use groth16_verifier_program.Program.Runtime.{Runtime, View, Store, update, Account}
use groth16_verifier_program.Common.{
  Bytes, ◌≡◌, length, ◌≤◌, ◌≢◌, true, ◌++◌, false, drop, ◌∷◌, u32_to_le, arith, ℕ, [], ap, ok, ◌+◌,
  ◌<◌, drop-append, length-append, ◌∙◌, ◌^◌, sym, append_assoc, take, refl, take-append, drop-drop,
  ap₂, u32_from_le,
}
use groth16_verifier_program.Groth16.Instruction.{new, new_readonly}
use groth16_verifier_program.Program.Processor.Dispatch.{process_instruction, process_tag}
use groth16_verifier_program.Program.Processor.Write
use groth16_verifier_program.Groth16.Tag.{Tag, as_u8, from_u8_iff}
use groth16_verifier_program.Program.Upload.{Holds, viewed}

-- One `Write` to a staging account that holds `done ‖ tail` behind its header.
module _ (rt : Runtime) (program_id authority staging : Bytes) (header : StagingHeader)
    (own : header.authority ≡ authority) (sized : length authority ≡ 32)
    (few : header.num_public_inputs ≤ max_public_inputs) (apart : authority ≢ staging) where
  abbrev pub signer : View
  signer = viewed (new_readonly authority true)

  abbrev pub target : View
  target = viewed (new staging false)

  piece_lands :
      (contents done piece tail : Bytes)
      → contents ≡ staging_header header ++ (done ++ tail)
      → length piece ≤ length tail
      → written contents (length done) piece
        ≡ staging_header header ++ ((done ++ piece) ++ drop (length piece) tail)
  piece_lands contents done piece tail e h =
      let hd = staging_header header in
      let front = hd ++ done in
      let l : length hd ≡ 40 = omega (arith, sized, ap (λ (b : Bytes). length b) own) in
      let f : 40 + length done ≡ length front = omega (arith, l, length-append hd done) in
      let whole : contents ≡ front ++ tail = e ∙ sym (append_assoc hd done tail) in
      let a : take (40 + length done) contents ≡ front =
        rw whole (take-append (40 + length done) front tail f) in
      let b : drop (40 + length done + length piece) contents ≡ drop (length piece) tail =
        rw whole (
          sym (
            drop-drop (40 + length done) (length piece) (40 + length done + length piece)
              (front ++ tail) refl)
          ∙ ap (λ (t : Bytes). drop (length piece) t)
              (drop-append (40 + length done) front tail f)) in
      ap₂ (λ (x y : Bytes). x ++ (piece ++ y)) a b
      ∙ append_assoc hd done (piece ++ drop (length piece) tail)
      ∙ ap (λ (t : Bytes). hd ++ t) (sym (append_assoc done piece (drop (length piece) tail)))

  module _ (before st : Store) (done tail piece : Bytes)
      (holds : Holds program_id staging header before st (done ++ tail))
      (fits : length piece ≤ length tail)
      (whole : length (done ++ tail) ≡ vk_body_len header.num_public_inputs) where
    abbrev payload : Bytes
    payload = u32_to_le (length done) ++ piece

    abbrev pub after : Store
    after =
        update st staging
          (record (st staging) { contents = written (st staging).contents (length done) piece })

    length-head : length (staging_header header) ≡ 40
    length-head = omega (arith, sized, ap (λ (b : Bytes). length b) own)

    staged : read_staging_account (st staging).contents ≡ ok (header, drop 40 (st staging).contents)
    staged =
        let body = done ++ tail in
        let d : drop 40 (staging_header header ++ body) ≡ body =
          drop-append 40 (staging_header header) body (sym length-head) in
        rw holds.contents (
          read_staging_account-header header body few (ap (λ (b : Bytes). length b) own ∙ sized)
            whole
          ∙ ap (λ (b : Bytes). ok (header, b)) (sym d))

    rest_of : drop 4 payload ≡ piece
    rest_of = drop-append 4 (u32_to_le (length done)) piece four
      where
        four : 4 ≡ length (u32_to_le (length done))
        four = length_four (length done)

    wrote : Write.process program_id (signer ∷ target ∷ []) payload st ≡ ok after
    wrote =
        let small : length done < 2 ^ 32 = omega (arith, whole, few, length-append done tail) in
        let t : take 4 payload ≡ u32_to_le (length done) =
          take-append 4 (u32_to_le (length done)) piece (length_four (length done)) in
        (write_iff program_id (signer ∷ target ∷ []) payload st after).1 (record {
          authority = signer;
          staging = target;
          header = header;
          offset = length done;
          given = refl;
          pair = record { signed = refl; writable = refl; owned = holds.owned; distinct = apart };
          long =
              omega
                (arith, length-append (u32_to_le (length done)) piece, length_four (length done));
          sent =
              ap (λ (b : Bytes). u32_from_le {E = ProgramError} b) t
              ∙ u32_from_le-to_le (length done) small;
          staged = staged;
          authorized = own;
          within = omega (
            arith,
            ap (λ (b : Bytes). length b) rest_of,
            ap (λ (b : Bytes). length b) holds.contents,
            length-append (staging_header header) (done ++ tail),
            length-append done tail,
            length-head,
            fits,
          );
          result =
              ap
                (λ (b : Bytes). update st staging (record (st staging) {
                  contents = written (st staging).contents (length done) b;
                }))
                (sym rest_of);
        })

    pub after-Holds :
        Holds program_id staging header before after ((done ++ piece) ++ drop (length piece) tail)
    after-Holds =
        let acc : Account = record (st staging) {
          contents = written (st staging).contents (length done) piece;
        } in
        let self : after staging ≡ acc = update_self st staging acc in
        record {
          owned = ap (λ (x : Account). x.owner) self ∙ holds.owned;
          lamports = ap (λ (x : Account). x.lamports) self ∙ holds.lamports;
          contents =
              ap (λ (x : Account). x.contents) self
              ∙ piece_lands (st staging).contents done piece tail holds.contents fits;
          others =
              λ a other. update_ne st staging a acc (λ e. other (sym e)) ∙ holds.others a other;
        }

    step :
        process_instruction rt program_id (signer ∷ target ∷ []) (as_u8 Tag.write ∷ payload) st
        ≡ ok after
    unfolding process_instruction process_tag
    step = rw ((from_u8_iff (as_u8 Tag.write) Tag.write).1 refl) wrote

    pub step_at :
        (offset : ℕ)
        → offset ≡ length done
        → process_instruction rt program_id
            (signer ∷ target ∷ [])
            (as_u8 Tag.write ∷ (u32_to_le offset ++ piece))
            st
          ≡ ok after
    step_at offset e = rw e step
