-- ===== src/Program/Processor/Checks/Pair.antt =====
-- When the shared checks pass.
use groth16_verifier_program.Groth16.State.{StagingHeader, read_staging_account}
use groth16_verifier_program.Program.Processor.Checks.{
  authorized_staging, staging_pair, exactly_two, expect_signer, expect_writable, expect_owned_by,
  owned_by, expect_distinct,
}
use groth16_verifier_program.Common.{
  Bytes, ◌≡◌, ok, true, bytes_eq_refl, ◌≢◌, arith, ◌↔◌, bytes_eq_iff, List, ◌∷◌, [],
}
use groth16_verifier_program.Program.Runtime.{update, View, Store, Account}

-- What `staging_pair` checks of the two accounts.
pub record IsPair (program_id : Bytes) (authority staging : View) (st : Store) : Type 0 where
  pub signed : authority.is_signer ≡ true
  pub writable : staging.is_writable ≡ true
  pub owned : (st staging.address).owner ≡ program_id
  pub distinct : authority.address ≢ staging.address

-- `staging_pair` accepts exactly two accounts of which the first signs, the second is writable and
-- the program's, and the two are not the same.
pub staging_pair_iff :
    (st : Store) (accounts : List View) (program_id : Bytes) (authority staging : View)
    → (staging_pair st accounts program_id ≡ ok (authority, staging))
      ↔ ((accounts ≡ authority ∷ staging ∷ []) × IsPair program_id authority staging st)
unfolding staging_pair exactly_two expect_signer expect_writable expect_owned_by owned_by
    expect_distinct
staging_pair_iff st [] program_id authority staging = (λ h. cc h, λ h. cc h.0)
staging_pair_iff st (a ∷ []) program_id authority staging = (λ h. cc h, λ h. cc h.0)
staging_pair_iff st (a ∷ b ∷ c ∷ r) program_id authority staging = (λ h. cc h, λ h. cc h.0)
staging_pair_iff st (a ∷ s ∷ []) program_id authority staging = (
  λ h.
      ground
        (arith, bytes_eq_iff (st s.address).owner program_id, bytes_eq_iff a.address s.address),
  λ h.
      ground
        (arith, bytes_eq_iff (st s.address).owner program_id, bytes_eq_iff a.address s.address),
)

-- `authorized_staging` gives the header and the body of a staging account whose recorded authority
-- has the given address.
pub authorized_staging_iff :
    (contents : Bytes) (authority : View) (h : StagingHeader) (body : Bytes)
    → (authorized_staging contents authority ≡ ok (h, body))
      ↔ ((read_staging_account contents ≡ ok (h, body)) × (h.authority ≡ authority.address))
unfolding authorized_staging
authorized_staging_iff contents authority h body = (
  λ e. ground (arith, bytes_eq_iff h.authority authority.address),
  λ e. ground (arith, bytes_eq_iff h.authority authority.address),
)

-- An update shows at its own address only.
pub update_self : (st : Store) (a : Bytes) (acc : Account) → update st a acc a ≡ acc
unfolding update
update_self st a acc = rw (bytes_eq_refl a)

pub update_ne : (st : Store) (a b : Bytes) (acc : Account) → a ≢ b → update st a acc b ≡ st b
unfolding update
update_ne st a b acc h = ground (arith, bytes_eq_iff a b)
