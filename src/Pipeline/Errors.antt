-- ===== src/Pipeline/Errors.antt =====
-- verifier/pipeline: the errors of the package. A wrapped one has the text that follows its sentinel.
use Prim.Native.String
use zero_trust_service.Common.{String}

pub data PipelineError : Type 0 where
  node_not_found : PipelineError
  invalid_pipeline unsupported_pipeline : String → PipelineError
  strategy_on : String → PipelineError → PipelineError

-- `err.Error()`.
unfoldable pub pipeline_error_text : PipelineError → String
pipeline_error_text node_not_found = "pipeline: step not found"
pipeline_error_text (invalid_pipeline rest) =
    String.◌++◌ "pipeline: invalid or unparseable YAML" rest
pipeline_error_text (unsupported_pipeline rest) = String.◌++◌ "pipeline: unsupported construct" rest
pipeline_error_text (strategy_on fqn e) =
    String.◌++◌ "strategy on " (String.◌++◌ fqn (String.◌++◌ ": " (pipeline_error_text e)))
