-- ===== src/Server/Error.antt =====
-- crates/ciel-server/src/lib.rs: the errors of the server and their HTTP answers. A message is the
-- list of its pieces.
use ciel_sol.Base.{ℕ, List, [], ◌∷◌, String}
use ciel_sol.Checkers.Json.{Piece, lit, num}
use ciel_sol.Pipeline.Verdict.{PipelineError, fork_sim, signer_error, deadline, deserialization}

abbrev pub Message : Type 0
Message = List Piece

pub data ServerError : Type 0 where
  pipeline : PipelineError → ServerError
  invalid_request : Message → ServerError
  base64_decode : Message → ServerError
  not_implemented : Message → ServerError

-- The status, and the code and the message of the body.
abbrev pub HttpError : Type 0
HttpError = ℕ × (String × Message)

unfoldable pub into_response : ServerError → HttpError
into_response (invalid_request msg) = (400, ("INVALID_REQUEST", msg))
into_response (base64_decode msg) = (400, ("INVALID_REQUEST", msg))
into_response (pipeline (deadline elapsed_ms)) =
    (504, ("TIMEOUT", lit "verdict pipeline timed out after " ∷ num elapsed_ms ∷ lit "ms" ∷ []))
into_response (pipeline e) = (500, ("PIPELINE_ERROR", lit "verdict pipeline failed" ∷ []))
into_response (not_implemented msg) = (501, ("NOT_IMPLEMENTED", msg))

-- `PipelineError`'s `Display`
abbrev pub show_error : PipelineError → Message
show_error (fork_sim e) = lit "fork simulation failed: " ∷ lit e ∷ []
show_error (signer_error e) = lit "signer error: " ∷ lit e ∷ []
show_error (deadline elapsed_ms) = lit "pipeline timed out after " ∷ num elapsed_ms ∷ lit "ms" ∷ []
show_error (deserialization e) = lit "transaction serialization failed: " ∷ lit e ∷ []
