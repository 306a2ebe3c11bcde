-- ===== src/Tests/Examples.antt =====
-- The theorems on the registry, at the staged key.
use groth16_verifier_program.Groth16.State.{KeyHeader}
use groth16_verifier_program.Groth16.Validation.{check_points}
use groth16_verifier_program.Program.Upload.{execute, Holds}
use groth16_verifier_program.Program.Upload.Body.{write_body_uploads}
use groth16_verifier_program.Groth16.Instruction.{Instruction, write_body}
use groth16_verifier_program.Groth16.Validation.Accepted.{check_points_iff}
use groth16_verifier_program.Program.Registry.Answer.{published_verify_lem}
use groth16_verifier_program.Program.Errors.{map_groth16, ProgramError}
use groth16_verifier_program.Groth16.Constants.{vk_seed_prefix}
use groth16_verifier_program.Groth16.VerifyingKey.{assume_validated}
use groth16_verifier_program.Tests.Verifier.{body₁, proof₁, inputs₁, proof₁-size, inputs₁-IsByte}
use groth16_verifier_program.Groth16.State.KeyAccount.{key_of, key_header}
use groth16_verifier_program.Groth16.Verifier.Verdict.{KeyPoints, verdict}
use groth16_verifier_program.Tests.Parity.{parity_syscalls, parity, parity_syscalls-Implements}
use groth16_verifier_program.Groth16.VerifyingKey.Layout.{IsLaidOut}
use groth16_verifier_program.Groth16.Validation.Points.{Validated}
use groth16_verifier_program.Program.Processor.InitializeStaging.{payload_n}
use groth16_verifier_program.Program.Processor.InitializeStaging.Effect.{
  initialized, Initializes, initialize_iff,
}
use groth16_verifier_program.Groth16.Tag.{Tag, as_u8, from_u8-as_u8}
use groth16_verifier_program.Program.Processor.Dispatch.{process_instruction, process_tag}
use groth16_verifier_program.Program.Registry.Invariant.{key_immutable, Steps-IsRegistry}
use groth16_verifier_program.Common.{
  [], ◌∷◌, refl, replicate, bytes_eq, take, Bool-cases, ◌≡◌, ok, inl, List, ◌↔◌, inr, Bytes, arith,
  ap, u16_from_le, bytes_eq_ne, ◌⊎◌, get_elem?, ◌∙◌, ◌++◌, map_err,
}
use groth16_verifier_program.Tests.Cluster.{cluster, cluster-Cpi, address}
use groth16_verifier_program.Program.Processor.Publish.Calls.{Same}
use groth16_verifier_program.Program.Runtime.{update, Store, View, Account}
use groth16_verifier_program.Program.Processor.Publish.Effect.{Publishes, publish-eq-ok}
use groth16_verifier_program.Program.Processor.CloseStaging.Effect.{Closes, close_staging-eq-ok}
use groth16_verifier_program.Program.Registry.{
  IsRegistry, Step, instruction, next, none_left, IsKey,
}
use groth16_verifier_program.Program.Processor.Publish
use groth16_verifier_program.Program.Processor.Verify
use groth16_verifier_program.Program.Processor.InitializeStaging
use groth16_verifier_program.Tests.Registry.{
  publishes, closes, before, closed, published_store, publishers, pair₃, pair₄, program,
  key_address, signer, writable, blank₁, staged₁, wallet, valid₁, header₁,
}

-- The account 4 after its initialisation.
abbrev later : Store
later = update published_store (address 4) (initialized (published_store (address 4)) (address 1) 1)

close_staging-eq-ok_example : Closes program pair₃ [] before closed
close_staging-eq-ok_example =
    close_staging-eq-ok cluster program pair₃ [] before closed cluster-Cpi.closes closes

publish-eq-ok_example : Publishes cluster program publishers before published_store
publish-eq-ok_example =
    publish-eq-ok cluster cluster-Cpi program publishers [] before published_store publishes

-- Nothing is published before.
update-cases :
    (st : Store) (at : Bytes) (acc : Account) (a : Bytes)
    → (update st at acc a ≡ acc) ⊎ (update st at acc a ≡ st a)
unfolding update
update-cases st at acc a = elim (Bool-cases (bytes_eq at a)) [
  | inl here ↦ inl (rw here)
  | inr other ↦ inr (rw other)
]

before-cases : (a : Bytes) → (before a ≡ blank₁) ⊎ ((before a ≡ staged₁) ⊎ (before a ≡ wallet))
before-cases a =
    elim (update-cases (update (λ a. wallet) (address 3) staged₁) (address 4) blank₁ a) [
      | inl four ↦ inl four
      | inr other ↦ elim (update-cases (λ a. wallet) (address 3) staged₁ a) [
        | inl three ↦ inr (inl (other ∙ three))
        | inr off ↦ inr (inr (other ∙ off))
      ]
    ]

before-IsRegistry : IsRegistry cluster program before
unfolding replicate
before-IsRegistry a key = elim (before-cases a) [
  | inl blank ↦ absurd (cc (ap (λ (x : Account). get_elem? x.contents 0) blank, key.1))
  | inr (inl staged) ↦ absurd (cc (ap (λ (x : Account). get_elem? x.contents 0) staged, key.1))
  | inr (inr none_there) ↦
      absurd (cc (ap (λ (x : Account). get_elem? x.contents 0) none_there, key.1))
]

instruction_runs :
    (t : Tag) (accounts : List View) (payload : Bytes) (st st' : Store)
    → process_tag cluster program accounts t payload st ≡ ok st'
    → process_instruction cluster program accounts (as_u8 t ∷ payload) st ≡ ok st'
unfolding process_instruction
instruction_runs t accounts payload st st' e = rw (from_u8-as_u8 t) e

publish-Step : Step cluster program before published_store
unfolding process_tag as_u8 take replicate
publish-Step =
    instruction publishers (2 ∷ []) before published_store
      ((refl, (refl, (refl, (refl, (refl, tt))))))
      (instruction_runs Tag.publish publishers [] before published_store publishes)

Steps-IsRegistry_example : IsRegistry cluster program published_store
Steps-IsRegistry_example =
    Steps-IsRegistry cluster cluster-Cpi program before published_store
      (next before published_store published_store publish-Step (none_left published_store))
      before-IsRegistry

-- The signer 1 initialises the account 4 afterwards.
initializes : Initializes program pair₄ (1 ∷ 0 ∷ []) published_store later
unfolding update bytes_eq replicate take payload_n Publish.create_key_account Publish.top_up
    u16_from_le
initializes = record {
  authority = signer 1;
  staging = writable (address 4);
  n = 1;
  given = refl;
  pair = record {
    signed = refl;
    writable = refl;
    owned = refl;
    distinct = bytes_eq_ne (address 1) (address 4) refl;
  };
  sent = (1, 0, refl, omega arith);
  bounded = omega arith;
  sized = refl;
  blank = refl;
  result = refl;
}

initialize_iff_example :
    (InitializeStaging.process program pair₄ (1 ∷ 0 ∷ []) published_store ≡ ok later)
    ↔ Initializes program pair₄ (1 ∷ 0 ∷ []) published_store later
unfolding replicate
initialize_iff_example =
    initialize_iff program pair₄ (1 ∷ 0 ∷ []) published_store later (refl, (refl, tt))

later-Step : Step cluster program published_store later
unfolding process_tag as_u8 replicate
later-Step =
    instruction pair₄ (0 ∷ 1 ∷ 0 ∷ []) published_store later (refl, (refl, tt))
      (instruction_runs Tag.initialize_staging pair₄ (1 ∷ 0 ∷ []) published_store later
        (initialize_iff_example.1 initializes))

IsKey-there : IsKey program (published_store key_address)
unfolding update bytes_eq replicate take Publish.create_key_account Publish.top_up
IsKey-there = (refl, refl)

key_immutable_example : Same (later key_address) (published_store key_address)
key_immutable_example =
    key_immutable cluster cluster-Cpi program key_address published_store later
      (next published_store later later later-Step (none_left later)) IsKey-there

pub stored₁ : IsLaidOut (key_of body₁ 1)
unfolding replicate
stored₁ = record { bounded = omega arith; sized = refl }

check_points_iff_example :
    (check_points parity_syscalls (key_of body₁ 1) ≡ ok tt)
    ↔ Validated parity_syscalls parity parity_syscalls-Implements (key_of body₁ 1) stored₁
check_points_iff_example =
    check_points_iff parity_syscalls parity parity_syscalls-Implements (key_of body₁ 1) stored₁

-- The theorem's left side holds here, so the key is one of those that it describes.
pub validated₁ :
    Validated parity_syscalls parity parity_syscalls-Implements (key_of body₁ 1) stored₁
validated₁ = check_points_iff_example.0 valid₁

published_verify_lem_example :
    (h : KeyHeader) × (body : Bytes) × (kp : KeyPoints parity
      (assume_validated (key_of body h.num_public_inputs)))
    × ((published_store key_address).contents ≡ key_header h ++ body)
    × IsLaidOut (key_of body h.num_public_inputs)
    × ((key_address, h.bump)
        ≡ cluster.find_program_address (vk_seed_prefix ∷ cluster.sha256 body ∷ []) program)
    × (Verify.process cluster program
          (writable key_address ∷ [])
          (proof₁.bytes ++ inputs₁)
          published_store
        ≡ map_err map_groth16 (
            verdict parity
              (assume_validated (key_of body h.num_public_inputs))
              kp
              proof₁.bytes
              inputs₁))
published_verify_lem_example =
    published_verify_lem cluster parity parity_syscalls-Implements program published_store
      Steps-IsRegistry_example (writable key_address) IsKey-there proof₁ inputs₁ proof₁-size
      inputs₁-IsByte

-- Another body over the staged one, in six pieces of which the last is short.
abbrev sevens : Bytes
sevens = replicate 576 7

write_body_uploads_example :
    (instructions : List Instruction) × (st' : Store) × (write_body {E = ProgramError} program
        (address 1)
        (address 3)
        sevens
        100
      ≡ ok instructions)
    × (execute cluster program instructions before ≡ ok st')
    × Holds program (address 3) header₁ before st' sevens
unfolding replicate update bytes_eq
write_body_uploads_example =
    write_body_uploads cluster program (address 1) (address 3) header₁ refl refl (omega arith)
      (bytes_eq_ne (address 1) (address 3) refl) before body₁ sevens 100 (omega arith)
      (record { owned = refl; lamports = refl; contents = refl; others = λ a _. refl }) refl refl
