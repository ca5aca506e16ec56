-- ===== src/Tests/Samples.antt =====
-- Requests, contexts, states and verifiers for the tests of the service.
use zero_trust_service.Common.{ℕ, pos, ◌+◌, String, false, none, some, [], ◌∷◌}
use zero_trust_service.Json.{Json, str, arr, obj, nil, cons, end, field}
use zero_trust_service.Fault.{message}
use zero_trust_service.Types.{TaskDetails, TaskPackage, VerifyRequest, Bytes}
use zero_trust_service.State.{State}
use zero_trust_service.Verifier.{Context, Interface}

abbrev pub details : String → Bytes → TaskDetails
details type raw = record {
  parked = false;
  async = false;
  task_type = type;
  parameters = raw;
  timeout = pos 0;
  expression_functor_token = pos 0;
  expressions = [];
}

abbrev pub package_of : String → String → String → Bytes → TaskPackage
package_of id account type raw = record {
  task_id = id;
  account_id = account;
  delegate_id = "d1";
  delegate_instance_id = "";
  git_ops_agent_id = "";
  runner_response = false;
  task_details = some (details type raw);
  task_data_v2 = none;
  encryption_configs = [];
  secret_details = [];
  secrets = [];
  execution_capabilities = [];
  log_abstractions = [];
  should_skip_open_stream = false;
  base_log_key = "";
  zts_metadata = none;
  is_aborted = false;
}

abbrev pub request_of : String → String → String → Bytes → VerifyRequest
request_of id account type raw = record { task_package = some (package_of id account type raw) }

abbrev pub shell_request : VerifyRequest
shell_request = request_of "t1" "acme" "SHELL" (1 ∷ [])

abbrev pub plain_context : Context
plain_context = record { tracker = none; holder = none; raw_payload = none }

-- The clock shows 10, 11, 12 and so on; `own` counts the calls of the verifiers below.
abbrev pub start : State ℕ
start = record {
  trackers = [];
  emitted = [];
  written = [];
  clock = λ n. n + 10;
  readings = 0;
  own = 0;
}

-- Verifiers that count their calls.
abbrev pub counts : Interface (State ℕ)
counts ctx req s = (none, record s { own = s.own + 1 })

abbrev pub denies : Interface (State ℕ)
denies ctx req s = (some (message "no"), record s { own = s.own + 1 })

abbrev pub quote : String → String
quote s = s

-- A decoded parameter list that names the images "repo/app:1" and "alpine".
abbrev pub image_parameters : Json
image_parameters = arr (
    cons
      (obj (
        field "imageDetails" (obj (field "name" (str "repo/app:1") end))
          (field "stepInfo" (obj (field "image" (str "alpine") end)) end)))
      nil)
