-- ===== src/Fixtures/Drift/Detected.antt =====
-- What the authority checker makes of the synthetic fixture, which expects it to fire.
use ciel_sol.Base.{
  ℕ, zero, suc, ◌≤◌, ◌≡◌, refl, Bool, true, false, Bool-cases, some, List, [], ◌∷◌, get_elem?, All,
  if◌then◌else◌, inl, inr, subst, arith,
}
use ciel_sol.Checkers.Json.{Pubkey}
use ciel_sol.Checkers.Types.{SimulationTrace, CompiledInstruction, CpiCall, severity_u8}
use ciel_sol.Checkers.Registry.{ProgramRegistry, spl_token_program_id, with_mainnet_defaults}
use ciel_sol.Checkers.Authority.Match.{match_call, match_spl_token}
use ciel_sol.Checkers.Authority.Check.{check}
use ciel_sol.Checkers.Authority.Refine.{matched}
use ciel_sol.Checkers.Authority.Handoff.{check-severity_bounds}
use ciel_sol.Checkers.Authority.Passed.{authority-passed_iff}
use ciel_sol.Fork.Executor.{Vm, execute_transaction}
use ciel_sol.Fork.Executor.Calls.{key_at, call_of}
use ciel_sol.Fork.Executor.Laws.{get_elem?-cpi_graph}
use ciel_sol.Pipeline.Verdict.{context_of}
use ciel_sol.Signer.Attestation.{Bytes}
use ciel_sol.Fixtures.Drift.{
  Instruction, Sdk, attacker, set_authority_ix, fixture_instructions, generate_drift_fixture,
}

-- A compiled instruction that stands for another among the keys of a transaction.
pub record StandsFor (keys : List Pubkey) (c : CompiledInstruction) (ix : Instruction)
    : Type 0 where
  pub same_program : key_at keys c.program_id_index ≡ ix.program_id
  pub same_bytes : c.bytes ≡ ix.bytes

-- Compiling a message and signing it keep the program and the data of each instruction, in order.
pub record IsCompiler (sdk : Sdk) : Type 0 where
  pub compiled :
      (ixs : List Instruction) (payer : Pubkey) (signers : List Pubkey) (blockhash : Bytes) (i : ℕ)
      (ix : Instruction)
      → get_elem? ixs i ≡ some ix
      → let tx = sdk.partial_sign signers blockhash (sdk.message ixs payer) in
        (c : CompiledInstruction) × ((get_elem? tx.instructions i ≡ some c)
          × StandsFor tx.account_keys c ix)

unmatched_at :
    (registry : ProgramRegistry) (calls : List CpiCall) (i : ℕ) (call : CpiCall)
    → All (λ c. matched registry c ≡ false) calls
    → get_elem? calls i ≡ some call
    → matched registry call ≡ false
unmatched_at registry [] i call h e = cc
unmatched_at registry (c ∷ calls) zero call h e =
    let q : c ≡ call = cc in subst (λ x. matched registry x ≡ false) q h.0
unmatched_at registry (c ∷ calls) (suc i) call h e = unmatched_at registry calls i call h.1 e

matched-set_authority :
    (registry : ProgramRegistry) (call : CpiCall) (bytes : Bytes)
    → call.program_id ≡ spl_token_program_id
    → call.bytes ≡ 6 ∷ bytes
    → matched registry call ≡ true
unfolding match_call match_spl_token
matched-set_authority registry call bytes p b = rw (p, b) refl

at_least_one : (b : Bool) (n : ℕ) → (if b then 3 else 1) ≤ n → 1 ≤ n
at_least_one b n h = ground arith

module _ (sdk : Sdk) (h : IsCompiler sdk) {Svm V3 : Type 0} (vm : Vm Svm V3) (svm : Svm) where
  -- Whatever LiteSVM makes of the transaction of the fixture, the authority checker does not pass
  -- the trace that the executor returns for it, and reports at least Low, where the SDK keeps the
  -- program and the data of each instruction.
  pub check-generate_drift_fixture :
      (is_alphanumeric : ℕ → Bool) (trace : SimulationTrace) (slot : ℕ)
      → execute_transaction vm svm (generate_drift_fixture sdk).transaction ≡ inr trace
      → let ctx = context_of trace (generate_drift_fixture sdk).transaction slot in
        ((check is_alphanumeric ctx).passed ≡ false)
        × (1 ≤ severity_u8 (check is_alphanumeric ctx).severity)
  unfolding generate_drift_fixture
  check-generate_drift_fixture is_alphanumeric trace slot e =
      let tx = (generate_drift_fixture sdk).transaction in
      let ctx = context_of trace tx slot in
      let (c, (found, stands)) =
        h.compiled (fixture_instructions sdk) (attacker sdk) _ _ 1 (set_authority_ix sdk) refl in
      let call = call_of tx.account_keys 1 1 c in
      let at_one = get_elem?-cpi_graph vm svm tx trace 1 c e found in
      let fires =
        matched-set_authority with_mainnet_defaults call _ stands.same_program stands.same_bytes in
      (
        elim (Bool-cases (check is_alphanumeric ctx).passed) [
          | inr failed ↦ failed
          | inl passed ↦
              let silent =
                unmatched_at with_mainnet_defaults trace.cpi_graph 1 call
                  ((authority-passed_iff is_alphanumeric ctx).0.0 passed) at_one in
              cc
        ],
        at_least_one _ (severity_u8 (check is_alphanumeric ctx).severity)
            (check-severity_bounds is_alphanumeric ctx 1 call at_one fires),
      )
