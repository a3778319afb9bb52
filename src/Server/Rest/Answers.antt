-- ===== src/Server/Rest/Answers.antt =====
-- Which request gets which status.
use ciel_sol.Base.{
  ℕ, ◌≡◌, Bool, Option, none, some, List, [], String, is_some, if◌then◌else◌, arith, ◌⊎◌, inl, inr,
  ◌||◌,
}
use ciel_sol.Checkers.Types.{Transaction}
use ciel_sol.Signer.Attestation.{Bytes}
use ciel_sol.Pipeline.Verdict.{
  Result, ok, err, VerdictResponse, Env, Run, VerdictPipeline, build_timeout_response,
  evaluate_raw_tx,
}
use ciel_sol.Pipeline.Verdict.Errors.{is_ok}
use ciel_sol.Server.Error.{ServerError, into_response}
use ciel_sol.Server.Metrics.{Event, record_verdict}
use ciel_sol.Server.Rest.{WireLib, VerdictRequestJson, VerdictResponseJson, handle_verdict}

-- What a request asks for.
pub data Asked : Type 0 where
  evaluation : Transaction → Asked
  unreadable : Asked
  unsupported : Asked
  nothing : Asked

abbrev asked_tx : String ⊎ Transaction → Asked
asked_tx (inl e) = unreadable
asked_tx (inr tx) = evaluation tx

abbrev asked_bytes : WireLib → String ⊎ Bytes → Asked
asked_bytes lib (inl e) = unreadable
asked_bytes lib (inr bytes) = asked_tx (lib.deserialize_tx bytes)

abbrev asked_fields : WireLib → Option String → Bool → Asked
asked_fields lib (some tx) intents = asked_bytes lib (lib.base64_decode tx)
asked_fields lib none intents = if intents then unsupported else nothing

-- A transaction comes before an intent of either kind.
abbrev pub asked : WireLib → VerdictRequestJson → Asked
asked lib req = asked_fields lib req.tx (is_some req.intent || is_some req.nl_intent)

abbrev pub http_status : ServerError ⊎ VerdictResponseJson → ℕ
http_status (inl e) = (into_response e).0
http_status (inr r) = 200

abbrev recorded : Result VerdictResponse → List Event
recorded (err e) = []
recorded (ok r) = record_verdict r "raw_tx"

module _ {Sim : Type 0} (lib : WireLib) (env : Env Sim) (p : VerdictPipeline Sim) (run : Run) where
  -- The status, the events and the pipeline that a request gives.
  abbrev pub answer_to : Asked → ℕ × (List Event × VerdictPipeline Sim)
  answer_to (evaluation tx) =
      let done = evaluate_raw_tx env p run tx in
      (if is_ok done.0 then 200 else 500, (recorded done.0, done.1))
  answer_to unreadable = (400, ([], p))
  answer_to unsupported = (501, ([], p))
  answer_to nothing = (400, ([], p))

  -- Each request that the `Json` extractor decodes and hands to the handler of `POST /v1/verdict`
  -- is answered with 200 where it holds a transaction that can be read and evaluated, 500 where the
  -- evaluation fails, 400 where the transaction cannot be read or the request holds nothing, and
  -- 501 where it holds an intent and no transaction; no answer is 504. Metrics are recorded for a
  -- verdict alone, and only an evaluation changes the pipeline.
  pub handle_verdict-answers :
      (req : VerdictRequestJson)
      → (http_status (handle_verdict lib env p run req).0, (handle_verdict lib env p run req).1)
        ≡ answer_to (asked lib req)
  unfolding handle_verdict into_response evaluate_raw_tx build_timeout_response
  handle_verdict-answers req = ground arith
