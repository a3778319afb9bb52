-- ===== src/Examples/Server.antt =====
-- The server: its start, its interfaces, and what it logs.
use ciel_sol.Base.{ℕ, ◌-◌, ◌≡◌, refl, true, false, none, some, [], ◌∷◌, map, replicate, inl, inr}
use ciel_sol.Base.Int.{◌-ℤ◌}
use ciel_sol.Checkers.Types.{low, Transaction}
use ciel_sol.Checkers.Results.{run_checkers, run_one, collect, put}
use ciel_sol.Checkers.Stubs.{all_stub_checkers}
use ciel_sol.Fork.Staleness.{state, time_since_last_update, new, record_update}
use ciel_sol.Signer.Attestation.{approve}
use ciel_sol.Signer.Keys.{from_bytes}
use ciel_sol.Pipeline.Capture.{Services, Status, default_capture, capture_cycle}
use ciel_sol.Pipeline.Float.{round, round53, sub, clamp}
use ciel_sol.Pipeline.Log.{logged, insert_verdict}
use ciel_sol.Pipeline.Log.Laws.{entries_for, logged-entries_for, settled_row, logged-captured}
use ciel_sol.Pipeline.Score.{score_to_verdict, compute_safety_score, subtract_all}
use ciel_sol.Pipeline.Verdict.{ok, VerdictResponse, respond, downgrade, results_of, evaluate_raw_tx}
use ciel_sol.Server.Startup.{
  connected, Startup, Server, is_offline, start, staleness_of, new_pipeline, served, init_database,
}
use ciel_sol.Server.Startup.Laws.{verdict_after, served-verdict}
use ciel_sol.Server.Rest.{WireLib, VerdictRequestJson, handle_verdict}
use ciel_sol.Server.Rest.Answers.{http_status, answer_to, asked, handle_verdict-answers}
use ciel_sol.Server.Grpc.{raw_tx, evaluate_inner}
use ciel_sol.Server.Agree.{AgreeWith, handle_verdict-evaluate_inner}
use ciel_sol.Examples.Calls.{env, run, pipeline}
use ciel_sol.Examples.Data.{transaction, trace_of}

abbrev startup : Startup ℕ
startup = record {
  helius_api_key = none;
  fork_sim = inl "no key";
  offline_fork = 350;
  signing_key_path = none;
  read_keypair = λ path. none;
  database_url = some "postgres://ciel";
  connect = λ url. connected;
  migration_error = none;
  now = 1000;
}

abbrev server : Server ℕ
server = record {
  pipeline =
      new_pipeline 350 all_stub_checkers (from_bytes (replicate 32 42)) (staleness_of startup);
  has_db = true;
}

started : start env.ed25519 startup ≡ some server
unfolding start init_database
started = refl

-- The second call of the server, whose fork is as at first.
abbrev stub_reply : VerdictResponse
stub_reply =
    respond env server.pipeline run (replicate 32 7) 350 none
      (results_of server.pipeline run (trace_of [] []) transaction 350)

stub_replied :
    (evaluate_raw_tx env (served env server.pipeline ((run, transaction) ∷ [])) run transaction).0
    ≡ ok stub_reply
unfolding served evaluate_raw_tx state time_since_last_update new_pipeline staleness_of
    record_update new
stub_replied = refl

served-verdict_example :
    stub_reply.verdict ≡ verdict_after (is_offline startup) (run.now - startup.now)
served-verdict_example =
    served-verdict env.ed25519 startup server env ((run, transaction) ∷ []) run transaction
      stub_reply started (refl, (refl, (refl, (refl, (refl, (refl, (refl, tt))))))) refl
      stub_replied

abbrev signed_tx : Transaction
signed_tx = record transaction { signatures = replicate 64 9 ∷ [] }

logged-entries_for_example :
    logged env (pipeline low) run signed_tx true
    ≡ entries_for signed_tx (evaluate_raw_tx env (pipeline low) run signed_tx).0
logged-entries_for_example = logged-entries_for env run signed_tx (pipeline low)

abbrev signed_reply : VerdictResponse
signed_reply =
    respond env (pipeline low) run (replicate 32 7) 350 none
      (results_of (pipeline low) run (trace_of [] []) signed_tx 350)

signed_replied : (evaluate_raw_tx env (pipeline low) run signed_tx).0 ≡ ok signed_reply
unfolding evaluate_raw_tx state time_since_last_update
signed_replied = refl

signed_approved : signed_reply.verdict ≡ approve
unfolding respond downgrade score_to_verdict compute_safety_score subtract_all sub round round53
    clamp run_checkers run_one collect put ◌-ℤ◌
signed_approved = refl

abbrev status : Status
status = record { slot = 352; failed = false }

abbrev services : Services
services = record {
  get_status = λ signature. inr (some status);
  fetch_failure = none;
  update_failure = λ id. none;
}

logged-captured_example :
    capture_cycle services default_capture 9000000000
      (map (insert_verdict 1 2000000000) (logged env (pipeline low) run signed_tx true))
    ≡ (none, settled_row 1 2000000000 (replicate 64 9) status ∷ [])
logged-captured_example =
    logged-captured services 9000000000 1 2000000000 (replicate 64 9) status env (pipeline low) run
      signed_tx signed_reply signed_replied signed_approved refl refl refl refl refl

abbrev wire_lib : WireLib
wire_lib = record {
  base64_encode = λ bytes. "AQ==";
  base64_decode = λ s. inr (1 ∷ []);
  deserialize_tx = λ bytes. inr transaction;
  json_string = λ fields. "{}";
}

abbrev request : VerdictRequestJson
request = record { tx = some "AQ=="; intent = none; nl_intent = none }

handle_verdict-answers_example :
    (
      http_status (handle_verdict wire_lib env (pipeline low) run request).0,
      (handle_verdict wire_lib env (pipeline low) run request).1,
    )
    ≡ answer_to wire_lib env (pipeline low) run (asked wire_lib request)
handle_verdict-answers_example = handle_verdict-answers wire_lib env (pipeline low) run request

handle_verdict-evaluate_inner_example :
    AgreeWith wire_lib env
      (pipeline low)
      run
      (handle_verdict wire_lib env (pipeline low) run request)
      (evaluate_inner wire_lib env (pipeline low) run (some (raw_tx (1 ∷ []))))
handle_verdict-evaluate_inner_example =
    handle_verdict-evaluate_inner wire_lib env (pipeline low) run "AQ==" none none (1 ∷ []) refl
