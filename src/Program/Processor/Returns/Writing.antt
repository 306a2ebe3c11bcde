-- ===== src/Program/Processor/Returns/Writing.antt =====
-- `Write` returns.
use groth16_verifier_program.Groth16.State.StagingAccount.{read_staging_account-eq-ok}
use groth16_verifier_program.Program.Processor.Checks.Pair.{authorized_staging_iff}
use groth16_verifier_program.Program.Errors.{into, Groth16ProgramError, ProgramError}
use groth16_verifier_program.Common.{
  Bytes, List, Returns, ℕ, ensure-Returns, then-Returns, ◌∷◌, length, ok_or, arith, checked_add, [],
  ok_or-Returns, ◌≡◌, leb, u32_from_le, ok, ◌+◌, length-take, ◌≤◌, slice_from_lem, drop,
  copy_at_lem,
}
use groth16_verifier_program.Program.Runtime.{View, Store}
use groth16_verifier_program.Program.Processor.Write
use groth16_verifier_program.Program.Processor.Write.{split_payload, write_end}
use groth16_verifier_program.Program.Processor.Checks.{staging_pair, authorized_staging}
use groth16_verifier_program.Program.Processor.Returns.{
  staging_pair-Returns, authorized_staging-Returns,
}

u32-Returns : (b : Bytes) → length b ≡ 4 → Returns (u32_from_le {E = ProgramError} b)
unfolding u32_from_le
u32-Returns (a ∷ b ∷ c ∷ d ∷ []) h = tt
u32-Returns [] h = absurd (omega (arith, h))
u32-Returns (a ∷ []) h = absurd (omega (arith, h))
u32-Returns (a ∷ b ∷ []) h = absurd (omega (arith, h))
u32-Returns (a ∷ b ∷ c ∷ []) h = absurd (omega (arith, h))
u32-Returns (a ∷ b ∷ c ∷ d ∷ e ∷ r) h = absurd (omega (arith, h))

split_payload-Returns : (payload : Bytes) → Returns (split_payload payload)
unfolding split_payload
split_payload-Returns payload = ensure-Returns (leb 4 (length payload)) _ _ (λ _. tt)

four_bytes : (payload x y : Bytes) → split_payload payload ≡ ok (x, y) → length x ≡ 4
unfolding split_payload
four_bytes payload x y e = ground (arith, e, length-take 4 payload)

end_in_range :
    (offset len body_len end : ℕ)
    → ok_or (write_end offset len body_len) (into Groth16ProgramError.write_out_of_bounds) ≡ ok end
    → (offset + len ≡ end) × (end ≤ body_len)
unfolding write_end checked_add
end_in_range offset len body_len end e = ground (arith, e)

pub write-Returns :
    (program_id : Bytes) (accounts : List View) (payload : Bytes) (st : Store)
    → Returns (Write.process program_id accounts payload st)
unfolding Write.process
write-Returns program_id accounts payload st =
    then-Returns (staging_pair st accounts program_id) _
      (staging_pair-Returns st accounts program_id)
      (λ (authority, staging) _.
        let contents = (st staging.address).contents in
        then-Returns (split_payload payload) _ (split_payload-Returns payload) (λ (x, bytes) split.
          then-Returns (u32_from_le x) _ (u32-Returns x (four_bytes payload x bytes split))
            (λ offset _.
              then-Returns (authorized_staging contents authority) _
                (authorized_staging-Returns contents authority)
                (λ (header, body) auth.
                  let r = (authorized_staging_iff contents authority header body).0 auth in
                  let (_, _, l, _, _) = read_staging_account-eq-ok contents r.0 in
                  rw (slice_from_lem {E = ProgramError} contents 40 (omega (arith, l))) (
                    then-Returns
                      (ok_or (write_end offset (length bytes) (length (drop 40 contents)))
                        (into Groth16ProgramError.write_out_of_bounds))
                      _ (ok_or-Returns _ (into Groth16ProgramError.write_out_of_bounds))
                      (λ end e.
                        let (sum, inside) = end_in_range offset (length bytes) _ end e in
                        rw
                          (copy_at_lem {E = ProgramError} (drop 40 contents) offset end bytes sum
                            inside)
                          tt))))))
