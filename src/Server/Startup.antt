-- ===== src/Server/Startup.antt =====
-- crates/ciel-server/src/main.rs: what the server starts with. The environment, the files and the
-- answers of the providers and of the database are arguments; a panic is `none`.
pub mod Laws
use ciel_sol.Base.{
  ℕ, ◌*◌, ◌==◌, Bool, true, false, Option, none, some, List, [], ◌∷◌, String, length, is_some, not,
  if◌then◌else◌, ◌⊎◌, inl, inr, replicate,
}
use ciel_sol.Checkers.Results.{Checker}
use ciel_sol.Checkers.Stubs.{all_stub_checkers}
use ciel_sol.Checkers.Types.{Transaction}
use ciel_sol.Fork.Staleness.{StalenessConfig, default_config, StalenessTracker, new, record_update}
use ciel_sol.Signer.Attestation.{Bytes}
use ciel_sol.Signer.Keys.{Ed25519, CielSigner, from_bytes, from_keypair_bytes}
use ciel_sol.Pipeline.Verdict.{Result, VerdictResponse, Env, Run, VerdictPipeline, evaluate_raw_tx}

-- What a connection to the database leads to.
pub data Connection : Type 0 where
  connected : Connection
  refused : String → Connection
  timed_out : Connection

abbrev pub migrated : Option String → Bool
migrated none = true
migrated (some e) = false

abbrev pub pool_of : Connection → Option String → Bool
pool_of connected migration_error = migrated migration_error
pool_of (refused e) migration_error = false
pool_of timed_out migration_error = false

-- Whether there is a pool.
unfoldable pub init_database : Option String → (String → Connection) → Option String → Bool
init_database none connect migration_error = false
init_database (some database_url) connect migration_error =
    pool_of (connect database_url) migration_error

-- What the process finds when it starts.
pub record Startup (Sim : Type 0) : Type 0 where
  pub helius_api_key : Option String
  pub fork_sim : String ⊎ Sim  -- `ForkSimulator::new`
  pub offline_fork : Sim  -- `ForkSimulator::new_offline`
  pub signing_key_path : Option String
  pub read_keypair : String → Option Bytes  -- the file, parsed as a JSON array
  pub database_url : Option String
  pub connect : String → Connection
  pub migration_error : Option String
  pub now : ℕ

abbrev pub relaxed_config : StalenessConfig
relaxed_config = record {
  warn_threshold = 3600 * 1000000000;
  timeout_threshold = 7200 * 1000000000;
}

abbrev pub keypair_signer : Ed25519 → Option Bytes → Option CielSigner
keypair_signer lib none = none
keypair_signer lib (some bytes) = if length bytes == 64 then from_keypair_bytes lib bytes else none

-- The shared state of the handlers, and whether verdicts are logged and outcomes captured.
pub record Server (Sim : Type 0) : Type 0 where
  pub pipeline : VerdictPipeline Sim
  pub has_db : Bool

module _ {Sim : Type 0} where
  abbrev pub is_offline : Startup Sim → Bool
  is_offline s = not (is_some s.helius_api_key)

  -- 4.
  abbrev pub fork_of : Sim → String ⊎ Sim → Sim
  fork_of offline (inl e) = offline
  fork_of offline (inr fork) = fork

  -- 5.
  unfoldable pub staleness_of : Startup Sim → StalenessTracker
  staleness_of s =
      record_update (new s.now (if is_offline s then relaxed_config else default_config)) s.now 0

  -- 6.
  abbrev pub signer_of : Ed25519 → Startup Sim → Option String → Option CielSigner
  signer_of lib s none = some (from_bytes (replicate 32 42))
  signer_of lib s (some path) = keypair_signer lib (s.read_keypair path)

  -- `VerdictPipeline::new`; the pool is kept beside the pipeline.
  unfoldable pub new_pipeline :
      Sim → List Checker → CielSigner → StalenessTracker → VerdictPipeline Sim
  new_pipeline fork checkers signer staleness = record {
    fork = record { poisoned = false; sim = fork };
    checkers = checkers;
    signer = signer;
    staleness = staleness;
  }

  abbrev pub start_with : Startup Sim → Option CielSigner → Option (Server Sim)
  start_with s none = none
  start_with s (some signer) = some (record {
    pipeline =
        new_pipeline (fork_of s.offline_fork s.fork_sim) all_stub_checkers signer (staleness_of s);
    has_db = init_database s.database_url s.connect s.migration_error;
  })

  -- Steps 4 to 10 of `main`.
  unfoldable pub start : Ed25519 → Startup Sim → Option (Server Sim)
  start lib s = start_with s (signer_of lib s s.signing_key_path)

  -- The pipeline after calls that come one after the other.
  unfoldable pub served :
      Env Sim → VerdictPipeline Sim → List (Run × Transaction) → VerdictPipeline Sim
  served env p [] = p
  served env p ((run, tx) ∷ calls) = served env (evaluate_raw_tx env p run tx).1 calls
