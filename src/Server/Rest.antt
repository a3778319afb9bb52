-- ===== src/Server/Rest.antt =====
-- crates/ciel-server/src/rest.rs: `POST /v1/verdict`. Base64 and bincode are parameters, as are the
-- texts of their errors; the `Json` extractor has decoded the body, and where it cannot it answers
-- itself, with a 4xx status.
pub mod Answers
use ciel_sol.Base.{
  ℕ, ◌+◌, ◌/◌, ◌%◌, Bool, false, Option, none, some, List, [], ◌∷◌, String, map, is_some, ltb,
  if◌then◌else◌, ◌⊎◌, inl, inr,
}
use ciel_sol.Checkers.Json.{lit, Piece, Text, Fields}
use ciel_sol.Checkers.Types.{
  Severity, low, medium, high, critical, Flag, CheckerOutput, Transaction,
}
use ciel_sol.Checkers.Results.{CheckerStatus, completed, timed_out}
use ciel_sol.Signer.Attestation.{Bytes}
use ciel_sol.Pipeline.Float.{F64}
use ciel_sol.Pipeline.Log.{verdict_to_str}
use ciel_sol.Pipeline.Verdict.{
  Result, ok, err, VerdictResponse, PipelineTiming, Env, Run, VerdictPipeline, evaluate_raw_tx,
}
use ciel_sol.Server.Error.{
  ServerError, pipeline, invalid_request, base64_decode, not_implemented, Message,
}
use ciel_sol.Server.Metrics.{Event, record_verdict}

-- The libraries behind both interfaces.
pub record WireLib : Type 0 where
  pub base64_encode : Bytes → String
  pub base64_decode : String → String ⊎ Bytes
  pub deserialize_tx : Bytes → String ⊎ Transaction  -- `bincode::deserialize`
  pub json_string : Fields → String  -- `serde_json::to_string(..).unwrap_or_default()`

-- A value of `intent` is any JSON, which nothing reads.
pub record VerdictRequestJson : Type 0 where
  pub tx : Option String
  pub intent : Option Fields
  pub nl_intent : Option String

pub record FlagJson : Type 0 where
  pub code : String
  pub message : List Piece
  pub fields : Fields  -- `data`

pub record CheckerDetailJson : Type 0 where
  pub checker_name : String
  pub passed : Bool
  pub severity : String
  pub flags : List FlagJson
  pub details : List Piece

pub record TimingJson : Type 0 where
  pub total_ms : ℕ
  pub fork_sim_ms : ℕ
  pub checkers_ms : ℕ
  pub scoring_ms : ℕ
  pub signing_ms : ℕ

pub record VerdictResponseJson : Type 0 where
  pub verdict : String
  pub safety_score : F64
  pub attestation : String
  pub signature : String
  pub slot : ℕ
  pub tx_hash : Text
  pub checker_outputs_hash : Text
  pub checker_details : List CheckerDetailJson
  pub latency_ms : ℕ
  pub timing : TimingJson
  pub downgrade_reason : Option String

abbrev pub hex_digit : ℕ → ℕ
hex_digit n = if ltb n 10 then 48 + n else 87 + n

-- `{b:02x}` for each byte
unfoldable pub to_hex : Bytes → Text
to_hex [] = []
to_hex (b ∷ bytes) = hex_digit (b / 16) ∷ hex_digit (b % 16) ∷ to_hex bytes

-- `format!("{:?}", severity)`
abbrev pub severity_debug : Severity → String
severity_debug Severity.none = "None"
severity_debug low = "Low"
severity_debug medium = "Medium"
severity_debug high = "High"
severity_debug critical = "Critical"

abbrev pub flag_json : Flag → FlagJson
flag_json f = record { code = f.code; message = f.message; fields = f.fields }

abbrev pub detail_json : String × CheckerStatus → CheckerDetailJson
detail_json (name, completed output) = record {
  checker_name = name;
  passed = output.passed;
  severity = severity_debug output.severity;
  flags = map flag_json output.flags;
  details = output.details;
}
detail_json (name, timed_out) = record {
  checker_name = name;
  passed = false;
  severity = "Critical";
  flags = [];
  details = lit "checker timed out" ∷ [];
}

abbrev timing_json : PipelineTiming → TimingJson
timing_json t = record {
  total_ms = t.total_ms;
  fork_sim_ms = t.fork_sim_ms;
  checkers_ms = t.checkers_ms;
  scoring_ms = t.scoring_ms;
  signing_ms = t.signing_ms;
}

unfoldable pub pipeline_response_to_json : WireLib → VerdictResponse → VerdictResponseJson
pipeline_response_to_json lib r = record {
  verdict = verdict_to_str r.verdict;
  safety_score = r.safety_score;
  attestation = lib.base64_encode r.attestation_bytes;
  signature = lib.base64_encode r.signature_bytes;
  slot = r.slot;
  tx_hash = to_hex r.tx_hash;
  checker_outputs_hash = to_hex r.checker_outputs_hash;
  checker_details = map detail_json r.checker_results.outputs;
  latency_ms = r.timing.total_ms;
  timing = timing_json r.timing;
  downgrade_reason = r.downgrade_reason;
}

-- What a handler returns: an answer or an error, what it records, and the pipeline after it.
abbrev pub Handled : Type 0 → Type 0 → Type 0 → Type 0
Handled E A Sim = (E ⊎ A) × (List Event × VerdictPipeline Sim)

module _ {Sim : Type 0} (lib : WireLib) (env : Env Sim) (p : VerdictPipeline Sim) (run : Run) where
  abbrev pub answer_json :
      Result VerdictResponse × VerdictPipeline Sim → Handled ServerError VerdictResponseJson Sim
  answer_json (err e, q) = (inl (pipeline e), ([], q))
  answer_json (ok r, q) = (inr (pipeline_response_to_json lib r), (record_verdict r "raw_tx", q))

  abbrev pub json_on_tx : String ⊎ Transaction → Handled ServerError VerdictResponseJson Sim
  json_on_tx (inl e) = (inl (invalid_request (lit "invalid transaction: " ∷ lit e ∷ [])), ([], p))
  json_on_tx (inr tx) = answer_json (evaluate_raw_tx env p run tx)

  abbrev json_on_bytes : String ⊎ Bytes → Handled ServerError VerdictResponseJson Sim
  json_on_bytes (inl e) = (inl (base64_decode (lit e ∷ [])), ([], p))
  json_on_bytes (inr tx_bytes) = json_on_tx (lib.deserialize_tx tx_bytes)

  -- The dispatch on the fields of the request.
  abbrev pub dispatch_json :
      Option String → Bool → Bool → Handled ServerError VerdictResponseJson Sim
  dispatch_json (some tx_b64) intent nl_intent = json_on_bytes (lib.base64_decode tx_b64)
  dispatch_json none intent nl_intent =
      if intent
      then (inl (not_implemented (lit "intent evaluation not yet implemented" ∷ [])), ([], p))
      else if nl_intent
      then (
        inl (not_implemented (lit "natural language intent evaluation not yet implemented" ∷ [])),
        ([], p),
      )
      else (
        inl (invalid_request (lit "request must contain 'tx', 'intent', or 'nl_intent'" ∷ [])),
        ([], p),
      )

  unfoldable pub handle_verdict : VerdictRequestJson → Handled ServerError VerdictResponseJson Sim
  handle_verdict req = dispatch_json req.tx (is_some req.intent) (is_some req.nl_intent)
