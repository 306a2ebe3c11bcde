-- ===== src/Lib.antt =====
-- The verifier crate groth16-verify, the registry program and the conversion tool of this
-- repository.
--
-- The program keeps a registry of Groth16 verifying keys over BN254. A client stages a key body in an
-- account of the program in pieces (InitializeStaging, Write), and Publish turns it into an account
-- at an address derived from the body's hash, after the key's points were put through the curve
-- syscalls; CloseStaging gives a staging account up. Verify reads such an account and runs the
-- verifier on a proof and public inputs. The program calls the verifier crate for everything that
-- concerns keys, proofs and account layouts, and the runtime for everything that concerns accounts.
-- The conversion tool makes the key bodies, proofs and public inputs that a client sends from the
-- files of gnark and the types of arkworks, and reads bodies with the verifier crate's view of a key.
--
-- Which file models what:
--   Common: bytes, slices, chunks, checked arithmetic, and the result of fallible Rust code, which is
--     a value, an error or a panic (a slice out of range, a failed expect). Bytes are lists of native
--     numbers; where the range of a byte matters it is a hypothesis (IsByte). Writing into a slice is
--     a function from the old bytes to the new.
--   Groth16: groth16-verify/src. Constants, Errors, Tag, Scalar, Proof, VerifyingKey, Syscall,
--     Validation, Verifier, State and Instruction model the files of those names; a child module
--     holds what is proved of its parent. Groth16/Curve states what the syscalls do.
--   Program: program/src. Errors models error.rs; Processor/Checks and Processor/Dispatch model
--     processor/mod.rs; Processor/InitializeStaging, Write, Publish, Verify and CloseStaging model
--     the handlers, each with a child Effect that says when it succeeds and what it changes.
--     Runtime is the store of accounts and the runtime's calls. Registry is about all instructions
--     together: the steps of the store, the registry's invariant, the permanence of keys, and what
--     Verify answers on them. Upload runs the client's write_body against Write, and Session all of
--     the client's instructions against the program, from a zeroed staging account to a verified
--     proof. Processor/Returns and Returns are about panics.
--   Bench: tools/bench/src, the program that runs single stages of the verifier. The return data that
--     it sets is its result.
--   Convert: tools/convert/src. Errors models lib.rs, Wire models wire.rs, Gnark models gnark.rs and
--     Arkworks models arkworks.rs. The children of Wire say which bytes stand for which points
--     (Coordinates, Points), which body for which key (Body, Table, Key), and that what is written is
--     read (RoundTrip, Proof). Those of Gnark describe the reader by the bytes that are left
--     (Remaining), gnark's encodings of points (Flags, Encoding, Points), and the three parsers on
--     gnark's layouts (ParseKey, ParseProof, ParseWitness) and on any bytes (Safety, Total, Outcomes).
--     Publishable puts the tool's keys before the verifier crate's validation; that arkworks and the
--     syscalls encode points alike is its hypothesis SharesPoints.
--   Tests: concrete inputs, among them a pairing of two groups of order two on which the verifier
--     runs, small fields and curves on which keys and proofs are converted, and a cluster on
--     which a key is published.
--
-- Parameters, since their code is not in the repository: the syscall sol_alt_bn128_group_op
-- (Syscalls, with the laws Implements over the groups Bn254), SHA-256, the derivation of addresses,
-- rent, the system program's calls and the closing of an account (Runtime; the laws Cpi say what
-- the calls do, Grants when they succeed, and CallsReturn that they return), and the fields and
-- curves of arkworks (Ark, with the laws IsArk, which name the bytes of an element, the coordinates
-- of a point and the two points over an x).
--
-- Accounts are a function from addresses, so two views of one account show the same bytes. An
-- instruction that fails leaves the store as it was, which is the runtime's doing; so a handler
-- gives a new store only where it succeeds. A borrow that would fail is an error where the handler
-- holds another one (Publish). The entrypoint's limit of five accounts is not modelled: the handlers
-- take any list.
--
-- Loops are structural recursion over the chunks of the public inputs, over the number of rounds
-- left (Validation.add_pairs, ⌈n/2⌉ rounds) or over the pieces of a body, so no fuel is used. Sums and
-- products that the source checks are checked at 2 ^ 64; lamports and lengths are natural numbers.
--
-- The gnark reader's position is passed from call to call. The parsers' loops run over the counts that
-- they read. The difference of the input's length and the position is a panic where it would be
-- negative, as in a build with overflow checks; the assertion of OnChainKey::from_body is a debug
-- build's. What is proved of gnark's layouts takes inputs of less than 2 ^ 64 bytes.
--
-- Not modelled: the entrypoint macro, the texts of errors, the host's implementation of the
-- syscalls, and compute units.
pub mod Common
pub mod Groth16
pub mod Program
pub mod Bench
pub mod Convert
pub mod Tests
