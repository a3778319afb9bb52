-- ===== src/Server/Agree.antt =====
-- The two interfaces give the same verdicts.
use ciel_sol.Base.{◌≡◌, refl, Option, some, List, [], ◌∷◌, String, map, ◌⊎◌, inl, inr, ap₂}
use ciel_sol.Checkers.Json.{Fields, lit}
use ciel_sol.Checkers.Types.{Flag, Transaction}
use ciel_sol.Checkers.Results.{CheckerStatus, completed, timed_out}
use ciel_sol.Signer.Attestation.{Bytes}
use ciel_sol.Pipeline.Float.Single.{as_f32}
use ciel_sol.Pipeline.Verdict.{
  PipelineError, Result, ok, err, VerdictResponse, Env, Run, VerdictPipeline, evaluate_raw_tx,
}
use ciel_sol.Server.Error.{ServerError, pipeline, invalid_request, Message, show_error}
use ciel_sol.Server.Rest.{
  Handled, json_on_tx, answer_json, WireLib, FlagJson, CheckerDetailJson, VerdictResponseJson,
  flag_json, detail_json, pipeline_response_to_json, handle_verdict,
}
use ciel_sol.Server.Grpc.{
  proto_on_tx, answer_proto, Status, invalid_argument, internal, raw_tx, FlagProto, CheckerDetail,
  ResponseProto, flag_proto, detail_proto, pipeline_to_proto, evaluate_inner,
}

module _ (lib : WireLib) where
  -- The detail of gRPC for one of REST: the data of a flag becomes a text.
  abbrev flag_of_json : FlagJson → FlagProto
  flag_of_json f = record {
    code = f.code;
    message = f.message;
    data_json = lib.json_string f.fields;
  }

  abbrev detail_of_json : CheckerDetailJson → CheckerDetail
  detail_of_json d = record {
    checker_name = d.checker_name;
    passed = d.passed;
    severity = d.severity;
    flags = map flag_of_json d.flags;
    details = d.details;
  }

  -- The two answers have the same verdict, the same bytes, the same details and latency, and gRPC's
  -- score is the other's rounded to f32.
  pub record IsSame (j : VerdictResponseJson) (q : ResponseProto) : Type 0 where
    pub same_verdict : j.verdict ≡ q.verdict
    pub same_attestation : j.attestation ≡ lib.base64_encode q.attestation
    pub same_signature : j.signature ≡ lib.base64_encode q.signature
    pub same_details : map detail_of_json j.checker_details ≡ q.checker_details
    pub same_latency : j.latency_ms ≡ q.latency_ms
    pub rounded_score : as_f32 j.safety_score ≡ q.safety_score

  pub data Agree : ServerError ⊎ VerdictResponseJson → Status ⊎ ResponseProto → Type 0 where
    both_answer : (j : VerdictResponseJson) (q : ResponseProto) → IsSame j q → Agree (inr j) (inr q)
    both_refuse : (m : Message) → Agree (inl (invalid_request m)) (inl (invalid_argument m))
    both_fail :
        (e : PipelineError)
        → Agree (inl (pipeline e)) (inl (internal (lit "pipeline error: " ∷ show_error e)))

  flags-same : (fs : List Flag) → map flag_of_json (map flag_json fs) ≡ map (flag_proto lib) fs
  flags-same [] = refl
  flags-same (f ∷ fs) = ap₂ ◌∷◌ refl (flags-same fs)

  details-same :
      (m : List (String × CheckerStatus))
      → map detail_of_json (map detail_json m) ≡ map (detail_proto lib) m
  details-same [] = refl
  details-same ((n, completed o) ∷ m) = rw (flags-same o.flags, details-same m) refl
  details-same ((n, timed_out) ∷ m) = ap₂ ◌∷◌ refl (details-same m)

  response-IsSame :
      (r : VerdictResponse) → IsSame (pipeline_response_to_json lib r) (pipeline_to_proto lib r)
  unfolding pipeline_response_to_json pipeline_to_proto
  response-IsSame r = record {
    same_verdict = refl;
    same_attestation = refl;
    same_signature = refl;
    same_details = details-same r.checker_results.outputs;
    same_latency = refl;
    rounded_score = refl;
  }

  module _ {Sim : Type 0} (env : Env Sim) (p : VerdictPipeline Sim) (run : Run) where
    abbrev pub AgreeWith :
        Handled ServerError VerdictResponseJson Sim → Handled Status ResponseProto Sim → Type 0
    AgreeWith x y = Agree x.0 y.0 × (x.1 ≡ y.1)

    answer-agrees :
        (x : Result VerdictResponse × VerdictPipeline Sim)
        → AgreeWith (answer_json lib env p run x) (answer_proto lib env p run x)
    answer-agrees (err e, q) = (both_fail e, refl)
    answer-agrees (ok r, q) = (
      both_answer (pipeline_response_to_json lib r) (pipeline_to_proto lib r) (response-IsSame r),
      refl,
    )

    tx-agrees :
        (x : String ⊎ Transaction)
        → AgreeWith (json_on_tx lib env p run x) (proto_on_tx lib env p run x)
    tx-agrees (inl e) = (both_refuse _, refl)
    tx-agrees (inr tx) = answer-agrees (evaluate_raw_tx env p run tx)

    -- For the same transaction bytes, base64-encoded in a REST request with or without intents, and
    -- as they are in a gRPC request, the two interfaces both give an answer, with the same verdict,
    -- attestation, signature, details and latency and a score that gRPC rounds to f32, or both
    -- refuse the bytes with the same message, or both report the same failure of the pipeline; and
    -- they record the same metrics and leave the same pipeline.
    pub handle_verdict-evaluate_inner :
        (tx_b64 : String) (intent : Option Fields) (nl : Option String) (bytes : Bytes)
        → lib.base64_decode tx_b64 ≡ inr bytes
        → let rest =
            handle_verdict lib env p run
              (record { tx = some tx_b64; intent = intent; nl_intent = nl }) in
          let grpc = evaluate_inner lib env p run (some (raw_tx bytes)) in AgreeWith rest grpc
    unfolding handle_verdict evaluate_inner
    handle_verdict-evaluate_inner tx_b64 intent nl bytes h =
        rw h (tx-agrees (lib.deserialize_tx bytes))
