-- ===== src/Tests/Cluster.antt =====
-- A small cluster to run the program on: addresses of 32 bytes, a hash that keeps 32 bytes of its input,
-- and system calls without rent or signature checks.
use groth16_verifier_program.Program.Processor.Publish.Ready.{Grants}
use groth16_verifier_program.Program.Processor.Checks.Pair.{update_self, update_ne}
use groth16_verifier_program.Program.Errors.{arithmetic_overflow}
use groth16_verifier_program.Program.Runtime.{Store, Runtime, update, Account}
use groth16_verifier_program.Common.{
  ℕ, Bool-cases, List, take, Bytes, leb, replicate, ◌++◌, inl, ◌∷◌, ◌≡◌, [], length, ◌+◌, ◌%◌, inr,
  bytes_eq, ok, bytes_eq_iff, ap, if◌then◌else◌, err, ◌∙◌, subst, bytes_eq_ne, ◌≤◌, ◌-◌, arith,
  refl,
}
use groth16_verifier_program.Program.Processor.CloseStaging.Effect.{emptied}
use groth16_verifier_program.Program.Processor.Publish.Calls.{Cpi, Same}
use groth16_verifier_program.Tests.Parity.{parity_syscalls}

abbrev pub address : ℕ → Bytes
address n = replicate 31 0 ++ (n ∷ [])

abbrev pub second : List Bytes → Bytes
second [] = []
second (a ∷ []) = []
second (a ∷ b ∷ rest) = b

-- The account with other lamports.
abbrev with_lamports : Store → Bytes → ℕ → Store
with_lamports st a n = update st a (record (st a) { lamports = n })

abbrev moved : Bytes → Bytes → ℕ → Store → Store
moved from to amount st =
    let paid = with_lamports st from ((st from).lamports - amount) in
    with_lamports paid to ((paid to).lamports + amount)

abbrev pub cluster : Runtime
cluster = record {
  syscalls = parity_syscalls;
  sha256 = λ body. take 31 body ++ (length body % 256 ∷ []);
  find_program_address = λ seeds program_id. (second seeds, 254);
  try_minimum_balance = λ space. ok (space + 128);
  transfer = λ from to amount st.
      if leb amount (st from).lamports
      then ok (moved from to amount st)
      else err arithmetic_overflow;
  allocate = λ a space seeds st. ok (update st a (record (st a) { contents = replicate space 0 }));
  assign = λ a owner seeds st. ok (update st a (record (st a) { owner = owner }));
  close = λ acc. ok emptied;
}

with_lamports-Same :
    (st : Store) (to : Bytes) (n : ℕ) (a : Bytes) → Same (with_lamports st to n a) (st a)
with_lamports-Same st to n a = elim (Bool-cases (bytes_eq to a)) [
  | inl same ↦
      let q : to ≡ a = (bytes_eq_iff to a).0 same in
      let u = update_self st to (record (st to) { lamports = n }) in
      subst (λ (b : Bytes). Same (with_lamports st to n b) (st b)) q
        (ap (λ (x : Account). x.owner) u, ap (λ (x : Account). x.contents) u)
  | inr other ↦
      let u : with_lamports st to n a ≡ st a = update_ne st to a _ (bytes_eq_ne to a other) in
      (ap (λ (x : Account). x.owner) u, ap (λ (x : Account). x.contents) u)
]

with_lamports-le :
    (st : Store) (to : Bytes) (n : ℕ)
    → n ≤ (st to).lamports
    → (a : Bytes) → (with_lamports st to n a).lamports ≤ (st a).lamports
with_lamports-le st to n less a = elim (Bool-cases (bytes_eq to a)) [
  | inl same ↦
      let q : to ≡ a = (bytes_eq_iff to a).0 same in
      let u = update_self st to (record (st to) { lamports = n }) in
      subst (λ (b : Bytes). (with_lamports st to n b).lamports ≤ (st b).lamports) q
        (rw (ap (λ (x : Account). x.lamports) u) less)
  | inr other ↦
      let u : with_lamports st to n a ≡ st a = update_ne st to a _ (bytes_eq_ne to a other) in
      rw u (omega arith)
]

moved-Same :
    (from to : Bytes) (amount : ℕ) (st : Store) (a : Bytes)
    → Same (moved from to amount st a) (st a)
moved-Same from to amount st a =
    let paid = with_lamports st from ((st from).lamports - amount) in
    let (o, c) = with_lamports-Same paid to ((paid to).lamports + amount) a in
    let (p, d) = with_lamports-Same st from ((st from).lamports - amount) a in (o ∙ p, c ∙ d)

pub cluster-Cpi : Cpi cluster
cluster-Cpi = record {
  transfers = λ from to amount st st' e a. elim (Bool-cases (leb amount (st from).lamports)) [
    | inl enough ↦
        let q : moved from to amount st ≡ st' = cc (rw enough at e) in
        subst (λ (s : Store). Same (s a) (st a)) q (moved-Same from to amount st a)
    | inr short ↦ absurd (cc (rw short at e))
  ];
  allocates = λ a space seeds st st' e. cc e;
  assigns = λ a owner seeds st st' e. cc e;
  closes = λ acc acc' z e. cc e;
}

-- The calls succeed wherever they are asked to.
pub cluster-Grants : (program_id : Bytes) → Grants cluster program_id
cluster-Grants program_id = record {
  transfers = λ payer key amount st _ _ _ _ _ enough _.
      let paid = with_lamports st payer.address ((st payer.address).lamports - amount) in
      (
        moved payer.address key.address amount st,
        ground (arith, enough),
        λ a ne.
            let u : moved payer.address key.address amount st a ≡ paid a =
              update_ne paid key.address a _ ne in
            rw u (
              with_lamports-le st payer.address ((st payer.address).lamports - amount) (omega arith)
                a),
      );
  allocates = λ key prefix hash space st _ _ _ _ _. (_, refl);
  assigns = λ key prefix hash owner st _ _ _. (_, refl);
  closes = λ acc _. (emptied, refl);
}
