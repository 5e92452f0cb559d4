-- ===== src/ReadCost.antt =====
-- crates/lumenqraph-api/src/read_cost_limit.rs: the limits on the size of a call request. The
-- rendering of the arguments as JSON is a parameter.
mod Examples
pub mod Limits
use lumenqraph.Base.{ℕ, ◌*◌, Bool, ◌&&◌, List, length, ltb, if◌then◌else◌, ◌++◌}
use lumenqraph.Base.Str.{Str, lit}
use lumenqraph.Base.Decimal.{decimal}
use lumenqraph.Base.Result.{Result, ok, err}

abbrev pub max_read_request_size : ℕ
max_read_request_size = 256 * 1024

abbrev pub max_args_size_default : ℕ
max_args_size_default = 128 * 1024

pub record ReadCostLimitConfig : Type 0 where
  pub max_request_size : ℕ
  pub max_args_size : ℕ

-- `ReadCostLimitConfig::default()`.
abbrev pub default_config : ReadCostLimitConfig
default_config = record {
  max_request_size = max_read_request_size;
  max_args_size = max_args_size_default;
}

pub data CostError : Type 0 where
  request_too_large args_too_large : (size limit : ℕ) → CostError

unfoldable pub http_status : CostError → ℕ
http_status (request_too_large size limit) = 413
http_status (args_too_large size limit) = 400

unfoldable pub message : CostError → Str
message (request_too_large size limit) =
    lit "request body too large: "
    ++ decimal size
    ++ lit " bytes (limit: "
    ++ decimal limit
    ++ lit " bytes)"
message (args_too_large size limit) =
    lit "args field too large: "
    ++ decimal size
    ++ lit " bytes (limit: "
    ++ decimal limit
    ++ lit " bytes)"

-- `to_json` is `serde_json::to_string` with its default for an error.
unfoldable pub check_args :
    {Json : Type 0} → (Json → Str) → Json → ReadCostLimitConfig → Result CostError (Unit {0})
check_args to_json args config =
    if ltb 0 config.max_args_size && ltb config.max_args_size (length (to_json args))
    then err (args_too_large (length (to_json args)) config.max_args_size)
    else ok tt

unfoldable pub validate_call_request :
    {Json : Type 0} → (Json → Str) → ℕ → Json → ReadCostLimitConfig → Result CostError (Unit {0})
validate_call_request to_json body_bytes args config =
    if ltb 0 config.max_request_size && ltb config.max_request_size body_bytes
    then err (request_too_large body_bytes config.max_request_size)
    else check_args to_json args config
