-- ===== src/Server/Grpc.antt =====
-- crates/ciel-server/src/grpc.rs: `VerdictService.Evaluate`.
use ciel_sol.Base.{ℕ, Bool, false, Option, none, some, List, [], ◌∷◌, String, map, ◌⊎◌, inl, inr}
use ciel_sol.Base.Int.{pos}
use ciel_sol.Checkers.Json.{lit, Piece}
use ciel_sol.Checkers.Types.{Flag, Transaction}
use ciel_sol.Checkers.Results.{CheckerStatus, completed, timed_out}
use ciel_sol.Signer.Attestation.{Bytes}
use ciel_sol.Pipeline.Float.{F64}
use ciel_sol.Pipeline.Float.Single.{as_f32}
use ciel_sol.Pipeline.Log.{verdict_to_str}
use ciel_sol.Pipeline.Verdict.{
  Result, ok, err, VerdictResponse, Env, Run, VerdictPipeline, evaluate_raw_tx,
}
use ciel_sol.Server.Error.{Message, show_error}
use ciel_sol.Server.Metrics.{record_verdict}
use ciel_sol.Server.Rest.{WireLib, severity_debug, Handled}

-- The three kinds of `tonic::Status` that the service returns.
pub data Status : Type 0 where
  invalid_argument : Message → Status
  internal : Message → Status
  unimplemented : Message → Status

pub data Input : Type 0 where
  raw_tx : Bytes → Input
  intent : Bytes → Input  -- an `IntentRequest`, which nothing reads
  nl_intent : String → Input

pub record FlagProto : Type 0 where
  pub code : String
  pub message : List Piece
  pub data_json : String

pub record CheckerDetail : Type 0 where
  pub checker_name : String
  pub passed : Bool
  pub severity : String
  pub flags : List FlagProto
  pub details : List Piece

pub record ResponseProto : Type 0 where
  pub attestation : Bytes
  pub signature : Bytes
  pub verdict : String
  pub safety_score : F64
  pub optimality_score : F64
  pub rationale : Option String
  pub checker_details : List CheckerDetail
  pub latency_ms : ℕ

module _ (lib : WireLib) where
  abbrev pub flag_proto : Flag → FlagProto
  flag_proto f = record { code = f.code; message = f.message; data_json = lib.json_string f.fields }

  abbrev pub detail_proto : String × CheckerStatus → CheckerDetail
  detail_proto (name, completed output) = record {
    checker_name = name;
    passed = output.passed;
    severity = severity_debug output.severity;
    flags = map flag_proto output.flags;
    details = output.details;
  }
  detail_proto (name, timed_out) = record {
    checker_name = name;
    passed = false;
    severity = "Critical";
    flags = [];
    details = lit "checker timed out" ∷ [];
  }

  unfoldable pub pipeline_to_proto : VerdictResponse → ResponseProto
  pipeline_to_proto r = record {
    attestation = r.attestation_bytes;
    signature = r.signature_bytes;
    verdict = verdict_to_str r.verdict;
    safety_score = as_f32 r.safety_score;
    optimality_score = pos 0;
    rationale = none;
    checker_details = map detail_proto r.checker_results.outputs;
    latency_ms = r.timing.total_ms;
  }

  module _ {Sim : Type 0} (env : Env Sim) (p : VerdictPipeline Sim) (run : Run) where
    abbrev pub answer_proto :
        Result VerdictResponse × VerdictPipeline Sim → Handled Status ResponseProto Sim
    answer_proto (err e, q) = (inl (internal (lit "pipeline error: " ∷ show_error e)), ([], q))
    answer_proto (ok r, q) = (inr (pipeline_to_proto r), (record_verdict r "raw_tx", q))

    abbrev pub proto_on_tx : String ⊎ Transaction → Handled Status ResponseProto Sim
    proto_on_tx (inl e) =
        (inl (invalid_argument (lit "invalid transaction: " ∷ lit e ∷ [])), ([], p))
    proto_on_tx (inr tx) = answer_proto (evaluate_raw_tx env p run tx)

    unfoldable pub evaluate_inner : Option Input → Handled Status ResponseProto Sim
    evaluate_inner none = (
      inl (invalid_argument (lit "request must contain raw_tx, intent, or nl_intent" ∷ [])),
      ([], p),
    )
    evaluate_inner (some (raw_tx bytes)) = proto_on_tx (lib.deserialize_tx bytes)
    evaluate_inner (some (intent x)) =
        (inl (unimplemented (lit "intent evaluation not yet implemented" ∷ [])), ([], p))
    evaluate_inner (some (nl_intent x)) = (
      inl (unimplemented (lit "natural language intent evaluation not yet implemented" ∷ [])),
      ([], p),
    )
