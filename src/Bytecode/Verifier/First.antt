-- ===== src/Bytecode/Verifier/First.antt =====
-- `verifyBytecode` reports the first instruction that its checks reject, and none if there is none.
use vxx.Prelude.{
  ℕ, zero, suc, ◌+◌, ◌<◌, ◌≡◌, refl, sym, ap, ◌∙◌, ◌⊎◌, inl, inr, Option, none, some, [], ◌∷◌,
  arith, get_elem?,
}
use mathlib.Core.Path.{subst}
use vxx.Bytecode.Opcode.{Instruction}
use vxx.Bytecode.Verifier.{
  BytecodeVerificationContext, BytecodeVerificationIssue, Code, Message, verify_instruction,
  issue_at, verify_from, verify_bytecode,
}

module _ (context : BytecodeVerificationContext) (code : Code) where
  issue_at-none :
      (index : ℕ) (i : Instruction) (m : Option Message) (rest : Option BytecodeVerificationIssue)
      → issue_at index i m rest ≡ none
      → (m ≡ none) × (rest ≡ none)
  unfolding issue_at
  issue_at-none index i none rest e = (refl, e)
  issue_at-none index i (some m) rest e = absurd (grind arith)

  verify_from-none :
      (index k : ℕ) (rest : Code) (i : Instruction)
      → verify_from context code index rest ≡ none
      → get_elem? rest k ≡ some i
      → verify_instruction context code (index + k) i ≡ none
  unfolding verify_from
  verify_from-none index k [] i e g = absurd (grind arith)
  verify_from-none index zero (j ∷ rest) i e g =
      let here = (issue_at-none index j _ _ e).0 in
      let same : j ≡ i = cc in
      let at : index ≡ index + 0 = omega arith in
      subst (λ n. verify_instruction context code n i ≡ none) at (rw same at here)
  verify_from-none index (suc k) (j ∷ rest) i e g =
      let next = verify_from-none (suc index) k rest i (issue_at-none index j _ _ e).1 g in
      let at : suc index + k ≡ index + suc k = omega arith in
      subst (λ n. verify_instruction context code n i ≡ none) at next

-- Where an issue comes from: the instruction at its index in the code, which has its raw opcode and
-- which the checks reject with its message.
pub record Found (context : BytecodeVerificationContext) (code rest : Code) (index : ℕ)
    (issue : BytecodeVerificationIssue) : Type 0 where
  pub offset : ℕ
  pub instruction : Instruction
  pub place : issue.instruction_index ≡ index + offset
  pub there : get_elem? rest offset ≡ some instruction
  pub raw : instruction.op ≡ issue.raw_opcode
  pub rejected : verify_instruction context code (index + offset) instruction ≡ some issue.message

module _ (context : BytecodeVerificationContext) (code : Code) where
  Found-next :
      {index : ℕ} {i : Instruction} {rest : Code} {issue : BytecodeVerificationIssue}
      → Found context code rest (suc index) issue
      → Found context code (i ∷ rest) index issue
  Found-next {index} {i} {rest} {issue} f =
      let at : suc index + f.offset ≡ index + suc f.offset = omega arith in
      record {
        offset = suc f.offset;
        instruction = f.instruction;
        place = f.place ∙ at;
        there = f.there;
        raw = f.raw;
        rejected =
            subst (λ n. verify_instruction context code n f.instruction ≡ some issue.message) at
              f.rejected;
      }

  Found-here :
      (index : ℕ) (i : Instruction) (rest : Code) (m : Option Message)
      (issue : BytecodeVerificationIssue)
      → verify_instruction context code index i ≡ m
      → issue_at index i m (verify_from context code (suc index) rest) ≡ some issue
      → (verify_from context code (suc index) rest ≡ some issue
          → Found context code rest (suc index) issue)
      → Found context code (i ∷ rest) index issue
  unfolding issue_at
  Found-here index i rest none issue v e later = Found-next (later e)
  Found-here index i rest (some m) issue v e later =
      let at : index ≡ index + 0 = omega arith in
      let place : index ≡ issue.instruction_index = ground arith in
      let raw : i.op ≡ issue.raw_opcode = ground arith in
      let message : m ≡ issue.message = ground arith in
      record {
        offset = 0;
        instruction = i;
        place = sym place ∙ at;
        there = refl;
        raw = raw;
        rejected =
            subst (λ n. verify_instruction context code n i ≡ some issue.message) at
              (v ∙ ap some message);
      }

  verify_from-some :
      (index : ℕ) (rest : Code) (issue : BytecodeVerificationIssue)
      → verify_from context code index rest ≡ some issue
      → Found context code rest index issue
  unfolding verify_from
  verify_from-some index [] issue e = absurd (grind arith)
  verify_from-some index (i ∷ rest) issue e =
      Found-here index i rest (verify_instruction context code index i) issue refl e
        (verify_from-some (suc index) rest issue)

  issue_at-some :
      (index : ℕ) (i : Instruction) (m : Option Message) (rest : Option BytecodeVerificationIssue)
      (issue : BytecodeVerificationIssue)
      → issue_at index i m rest ≡ some issue
      → ((m ≡ none) × (rest ≡ some issue)) ⊎ (index ≡ issue.instruction_index)
  unfolding issue_at
  issue_at-some index i none rest issue e = inl (refl, e)
  issue_at-some index i (some m) rest issue e = inr (ground arith)

  earlier_ok :
      (index k : ℕ) (rest : Code) (issue : BytecodeVerificationIssue) (i : Instruction)
      → verify_from context code index rest ≡ some issue
      → get_elem? rest k ≡ some i
      → index + k < issue.instruction_index
      → verify_instruction context code (index + k) i ≡ none
  unfolding verify_from
  earlier_ok index k [] issue i e g h = absurd (grind arith)
  earlier_ok index zero (j ∷ rest) issue i e g h = elim (issue_at-some index j _ _ issue e) [
    | inl (accepted, later) ↦
        let same : j ≡ i = cc in
        let at : index ≡ index + 0 = omega arith in
        subst (λ n. verify_instruction context code n i ≡ none) at (rw same at accepted)
    | inr here ↦ absurd (omega arith)
  ]
  earlier_ok index (suc k) (j ∷ rest) issue i e g h = elim (issue_at-some index j _ _ issue e) [
    | inl (accepted, later) ↦
        let at : suc index + k ≡ index + suc k = omega arith in
        subst (λ n. verify_instruction context code n i ≡ none) at
          (earlier_ok (suc index) k rest issue i later g (omega arith))
    | inr here ↦ absurd (omega arith)
  ]

-- If the verifier accepts the code, its checks accept every instruction of the code at its index.
pub verify_bytecode-none :
    (context : BytecodeVerificationContext) (code : Code) (k : ℕ) (i : Instruction)
    → verify_bytecode code context ≡ none
    → get_elem? code k ≡ some i
    → verify_instruction context code k i ≡ none
unfolding verify_bytecode
verify_bytecode-none context code k i e g =
    let at : 0 + k ≡ k = omega arith in
    subst (λ n. verify_instruction context code n i ≡ none) at
      (verify_from-none context code 0 k code i e g)

-- If the verifier reports an issue, the issue is about an instruction of the code: the one at its index, with
-- its raw opcode, which the checks reject with its message.
pub verify_bytecode-some :
    (context : BytecodeVerificationContext) (code : Code) (issue : BytecodeVerificationIssue)
    → verify_bytecode code context ≡ some issue
    → Found context code code 0 issue
unfolding verify_bytecode
verify_bytecode-some context code issue e = verify_from-some context code 0 code issue e

-- If the verifier reports an issue, its checks accept every instruction before the one that the issue
-- is about.
pub verify_bytecode-first :
    (context : BytecodeVerificationContext) (code : Code) (issue : BytecodeVerificationIssue)
    (k : ℕ) (i : Instruction)
    → verify_bytecode code context ≡ some issue
    → get_elem? code k ≡ some i
    → k < issue.instruction_index
    → verify_instruction context code k i ≡ none
unfolding verify_bytecode
verify_bytecode-first context code issue k i e g h =
    let at : 0 + k ≡ k = omega arith in
    subst (λ n. verify_instruction context code n i ≡ none) at
      (earlier_ok context code 0 k code issue i e g (omega arith))
