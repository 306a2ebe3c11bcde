-- ===== src/Tests/Returns.antt =====
-- The calls of the small cluster return, and an instruction that cannot go through returns too.
use groth16_verifier_program.Program.Returns.{process_instruction-Returns}
use groth16_verifier_program.Tests.Cluster.{cluster, cluster-Cpi}
use groth16_verifier_program.Groth16.Syscall.Returns.{WritesOutputs}
use groth16_verifier_program.Program.Processor.Returns.{CallsReturn}
use groth16_verifier_program.Common.{
  replicate, Returns, Bytes, take, Bool, List, ◌≡◌, inl, length, All, if-Returns, drop, refl, some,
  true, leb, inr, Option-cases, false, not, be_value, subst, ◌/◌, ◌∷◌, [],
}
use groth16_verifier_program.Program.Runtime.{View}
use groth16_verifier_program.Groth16.Curve.{verdict_bytes, decode_slots, Slot}
use groth16_verifier_program.Tests.Parity.{
  parity, parity_syscalls, encode, xor, scale, product, decode, add_op, mul_op, pairing_op,
  split_slots, length-encode₁,
}
use groth16_verifier_program.Tests.Registry.{before, program, publishers}
use groth16_verifier_program.Groth16.Tag.{Tag, as_u8}
use groth16_verifier_program.Program.Processor.Dispatch.{process_instruction}

add_length : (a b out : Bytes) → add_op a b ≡ some out → length out ≡ 64
add_length a b out e = elim (Option-cases (decode 63 a)) [
  | inl bad ↦ absurd (cc (rw (bad, add_op) at e))
  | inr (p, ep) ↦ elim (Option-cases (decode 63 b)) [
    | inl bad ↦ absurd (cc (rw (ep, bad, add_op) at e))
    | inr (q, eq) ↦
        let same : encode 63 (xor p q) ≡ out = cc (rw (ep, eq, add_op) at e) in
        subst (λ (x : Bytes). length x ≡ 64) same (length-encode₁ (xor p q))
  ]
]

mul_length : (a s out : Bytes) → mul_op a s ≡ some out → length out ≡ 64
mul_length a s out e = elim (Option-cases (decode 63 a)) [
  | inl bad ↦ absurd (cc (rw (bad, mul_op) at e))
  | inr (p, ep) ↦
      let same : encode 63 (scale (be_value s) p) ≡ out = cc (rw (ep, mul_op) at e) in
      subst (λ (x : Bytes). length x ≡ 64) same (length-encode₁ (scale (be_value s) p))
]

length-verdict_bytes : (b : Bool) → length (verdict_bytes b) ≡ 32
unfolding verdict_bytes replicate
length-verdict_bytes true = refl
length-verdict_bytes false = refl

pairing_length : (slots : List Slot) (out : Bytes) → pairing_op slots ≡ some out → length out ≡ 32
pairing_length slots out e = elim (Option-cases (decode_slots parity slots)) [
  | inl bad ↦ absurd (cc (rw (bad, pairing_op) at e))
  | inr (points, ep) ↦
      let same : verdict_bytes (not (product points)) ≡ out = cc (rw (ep, pairing_op) at e) in
      subst (λ (x : Bytes). length x ≡ 32) same (length-verdict_bytes (not (product points)))
]

parity-WritesOutputs : WritesOutputs parity_syscalls
parity-WritesOutputs = record {
  points = λ op input out which e. elim which [
    | inl add ↦ add_length (take 64 input) (drop 64 input) out (rw add at e)
    | inr mul ↦ mul_length (take 64 input) (drop 64 input) out (rw mul at e)
  ];
  pairings = λ input out e. pairing_length (split_slots (length input / 192) input) out e;
}

cluster-CallsReturn : CallsReturn cluster
cluster-CallsReturn = record {
  outputs = parity-WritesOutputs;
  rents = λ space. tt;
  transfers = λ from to amount st. if-Returns (leb amount (st from).lamports) _ _ tt tt;
  allocates = λ a space seeds st. tt;
  assigns = λ a owner seeds st. tt;
  closes = λ acc. tt;
}

addresses₅ : All (λ (v : View). length v.address ≡ 32) publishers
unfolding replicate take
addresses₅ = (refl, (refl, (refl, (refl, (refl, tt)))))

process_instruction-Returns_example :
    Returns (process_instruction cluster program publishers (as_u8 Tag.publish ∷ []) before)
process_instruction-Returns_example =
    process_instruction-Returns cluster cluster-CallsReturn cluster-Cpi program publishers
      (as_u8 Tag.publish ∷ []) before addresses₅
