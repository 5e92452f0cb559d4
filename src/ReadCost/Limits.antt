-- ===== src/ReadCost/Limits.antt =====
-- Which requests are accepted.
use lumenqraph.Base.{ℕ, ◌≤◌, ◌≡◌, ◌≢◌, ◌↔◌, length, arith}
use lumenqraph.Base.Str.{Str}
use lumenqraph.Base.Result.{ok}
use lumenqraph.ReadCost.{ReadCostLimitConfig, check_args, validate_call_request}

-- A size is within a limit, where 0 is no limit.
abbrev pub IsWithinLimit : ℕ → ℕ → Type 0
IsWithinLimit size limit = limit ≢ 0 → size ≤ limit

-- A request is accepted exactly when its body and its arguments are within their limits, where a
-- limit of 0 is none.
validate_call_request_iff :
    {Json : Type 0} (to_json : Json → Str) (body_bytes : ℕ) (args : Json)
    (config : ReadCostLimitConfig)
    → (validate_call_request to_json body_bytes args config ≡ ok tt) ↔ (
        IsWithinLimit body_bytes config.max_request_size
        × IsWithinLimit (length (to_json args)) config.max_args_size)
unfolding validate_call_request check_args
validate_call_request_iff to_json body_bytes args config =
    (λ e. (λ h. ground (arith, e, h), λ h. ground (arith, e, h)), λ (b, a). ground (arith, b, a))
