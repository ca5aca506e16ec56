-- ===== src/Fault.antt =====
-- Go errors: a plain message of `fmt.Errorf` or `errors.New`, a sentinel value that `errors.Is`
-- looks for, or a wrapped error with the text before and after the place of its `%w`.
use Prim.Native.String.{◌++◌}
use zero_trust_service.Common.{String, Option, none, some}

-- resolver/errors.go.
pub data Sentinel : Type 0 where
  not_found template_not_found max_depth invalid_template_ref no_loader invalid_yaml : Sentinel

pub sentinel_text : Sentinel → String
sentinel_text Sentinel.not_found = "file not found"
sentinel_text Sentinel.template_not_found = "template not found"
sentinel_text Sentinel.max_depth = "max template recursion depth exceeded"
sentinel_text Sentinel.invalid_template_ref = "invalid template reference"
sentinel_text Sentinel.no_loader = "no resource loader configured"
sentinel_text Sentinel.invalid_yaml = "invalid YAML"

pub data Error : Type 0 where
  message : String → Error
  sentinel : Sentinel → Error
  wrapped : String → Error → String → Error

-- `err.Error()`.
unfoldable pub error_text : Error → String
unfolding sentinel_text
error_text (Error.message s) = s
error_text (Error.sentinel s) = sentinel_text s
error_text (Error.wrapped before e after) = before ++ error_text e ++ after

-- `errors.Is(err, sentinel)` for the sentinel that the error wraps, if any.
unfoldable pub error_root : Error → Option Sentinel
error_root (Error.message s) = none
error_root (Error.sentinel s) = some s
error_root (Error.wrapped before e after) = error_root e

-- A value with an error, of which the code returns one.
pub data Result {ℓ} (A : Type ℓ) : Type ℓ where
  ok : A → Result A
  err : Error → Result A
