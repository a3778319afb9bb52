-- ===== src/Examples/Drift/Compiled.antt =====
-- A compiler that puts the payer and then the program of each instruction into the keys.
use ciel_sol.Base.{
  ℕ, zero, suc, ◌+◌, ◌≤◌, ◌≡◌, refl, false, none, some, List, [], ◌∷◌, get_elem?, inr, arith, ap,
  ◌∙◌,
}
use ciel_sol.Checkers.Json.{Pubkey}
use ciel_sol.Checkers.Types.{SimulationTrace, Transaction, CompiledInstruction, severity_u8}
use ciel_sol.Checkers.Authority.Check.{check}
use ciel_sol.Fork.Executor.{Vm, Meta, failed, trace_of, execute_transaction}
use ciel_sol.Fork.Executor.Calls.{key_at}
use ciel_sol.Pipeline.Verdict.{context_of}
use ciel_sol.Fixtures.Drift.{Instruction, Sdk, generate_drift_fixture}
use ciel_sol.Fixtures.Drift.Detected.{IsCompiler, check-generate_drift_fixture}
use ciel_sol.Examples.Data.{alphanumeric}

abbrev compile_from : ℕ → List Instruction → List CompiledInstruction
compile_from n [] = []
compile_from n (ix ∷ ixs) =
    record { program_id_index = n; accounts = []; bytes = ix.bytes } ∷ compile_from (suc n) ixs

abbrev programs : List Instruction → List Pubkey
programs [] = []
programs (ix ∷ ixs) = ix.program_id ∷ programs ixs

abbrev sdk : Sdk
sdk = record {
  keypair_from_hash = λ phrase. 7;
  message = λ ixs payer. record {
    signatures = [];
    account_keys = payer ∷ programs ixs;
    instructions = compile_from 1 ixs;
  };
  partial_sign = λ signers blockhash tx. tx;
  base58 = λ bytes. "4vJ9JU1bJJE96FWSJKvHsmmFADCg4gpZQff4P3bkLKi";
  name_bytes = λ name. [];
}

abbrev compiled_as : ℕ → Instruction → CompiledInstruction
compiled_as n ix = record { program_id_index = n; accounts = []; bytes = ix.bytes }

get_elem?-compile_from :
    (ixs : List Instruction) (n i : ℕ) (ix : Instruction)
    → get_elem? ixs i ≡ some ix
    → get_elem? (compile_from n ixs) i ≡ some (compiled_as (i + n) ix)
get_elem?-compile_from [] n i ix e = cc
get_elem?-compile_from (j ∷ ixs) n zero ix e =
    let q : j ≡ ix = cc in rw q (ap (λ k. some (compiled_as k ix)) (omega arith))
get_elem?-compile_from (j ∷ ixs) n (suc i) ix e =
    get_elem?-compile_from ixs (suc n) i ix e ∙ ap (λ k. some (compiled_as k ix)) (omega arith)

get_elem?-programs :
    (ixs : List Instruction) (i : ℕ) (ix : Instruction)
    → get_elem? ixs i ≡ some ix
    → get_elem? (programs ixs) i ≡ some ix.program_id
get_elem?-programs [] i ix e = cc
get_elem?-programs (j ∷ ixs) zero ix e = let q : j ≡ ix = cc in rw q refl
get_elem?-programs (j ∷ ixs) (suc i) ix e = get_elem?-programs ixs i ix e

key_at-suc :
    (keys : List Pubkey) (payer k : Pubkey) (i j : ℕ)
    → j ≡ suc i
    → get_elem? keys i ≡ some k
    → key_at (payer ∷ keys) j ≡ k
key_at-suc keys payer k i j h e = rw (h, e) refl

sdk-IsCompiler : IsCompiler sdk
sdk-IsCompiler = record {
  compiled = λ ixs payer signers blockhash i ix e. (
    compiled_as (i + 1) ix,
    (
      get_elem?-compile_from ixs 1 i ix e,
      record {
        same_program =
            key_at-suc (programs ixs) payer ix.program_id i (i + 1) (omega arith)
              (get_elem?-programs ixs i ix e);
        same_bytes = refl;
      },
    ),
  );
}

abbrev info : Meta
info = record { inner_instructions = []; logs = []; compute_units_consumed = 0; fee = 5000 }

-- A machine on which each transaction fails.
abbrev vm : Vm ℕ ℕ
vm = record {
  get_account = λ slot k. none;
  convert = λ tx. inr 0;
  simulate_transaction = λ slot v3. failed "InstructionError" info;
}

abbrev tx : Transaction
tx = (generate_drift_fixture sdk).transaction

abbrev trace : SimulationTrace
trace = trace_of vm 350 tx (failed "InstructionError" info)

executed : execute_transaction vm 350 tx ≡ inr trace
unfolding execute_transaction
executed = refl

check-generate_drift_fixture_example :
    ((check alphanumeric (context_of trace tx 350)).passed ≡ false)
    × (1 ≤ severity_u8 (check alphanumeric (context_of trace tx 350)).severity)
check-generate_drift_fixture_example =
    check-generate_drift_fixture sdk sdk-IsCompiler vm 350 alphanumeric trace 350 executed
