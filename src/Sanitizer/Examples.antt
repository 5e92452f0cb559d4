-- ===== src/Sanitizer/Examples.antt =====
-- Messages of a simulation, and the theorems at them.
use lumenqraph.Base.{
  ℕ, ◌≤◌, ◌≡◌, refl, Bool, true, false, not, Option, none, some, [], length, all, arith,
}
use lumenqraph.Base.Str.{lit}
use lumenqraph.Base.Text.{Text, take_while}
use lumenqraph.Base.Decimal.{is_digit}
use lumenqraph.Sanitizer.{
  sanitize_simulation_error, parse_contract_error_code, find_after, contract_error,
}
use lumenqraph.Sanitizer.Messages.{is_clean, IsStrkeys, sanitize_simulation_error-IsClean}
use lumenqraph.Sanitizer.Codes.{parse_contract_error_code-printed}

-- No text is a strkey.
abbrev no_strkey : Text → Bool
no_strkey tok = false

no_strkey-IsStrkeys : IsStrkeys no_strkey
no_strkey-IsStrkeys tok h = cc

abbrev raw : Text
raw = lit "see  https://10.0.0.1/rpc: Error(Contract, #41) AAAA+BBB="

raw_sanitized :
    sanitize_simulation_error no_strkey raw
    ≡ lit "see [redacted:url] Error(Contract, #41) [redacted:blob]"
unfolding sanitize_simulation_error lumenqraph.Sanitizer.truncated lumenqraph.Base.Text.trim
    lumenqraph.Sanitizer.redact_internal_detail lumenqraph.Base.Str.join
    lumenqraph.Base.Text.split_whitespace lumenqraph.Sanitizer.redact lumenqraph.Sanitizer.is_url
    lumenqraph.Sanitizer.is_public_identifier all lumenqraph.Sanitizer.looks_like_base64
    lumenqraph.Base.any
raw_sanitized = refl

sanitize_simulation_error-IsClean_example :
    let message = sanitize_simulation_error no_strkey raw in
    (length message ≤ 256) × (all is_clean message ≡ true)
sanitize_simulation_error-IsClean_example =
    sanitize_simulation_error-IsClean no_strkey no_strkey-IsStrkeys raw

first_error : find_after contract_error (lit "HostError: Error(Contrac") ≡ none
unfolding find_after lumenqraph.Base.Text.starts_with
first_error = refl

no_digit : take_while is_digit (lit ") in f") ≡ []
unfolding take_while
no_digit = refl

parse_contract_error_code-printed_example :
    parse_contract_error_code (lit "HostError: Error(Contract, #41) in f") ≡ some 41
unfolding lumenqraph.Base.Decimal.decimal
parse_contract_error_code-printed_example =
    parse_contract_error_code-printed (lit "HostError: ") (lit ") in f") 41 (omega arith)
      first_error no_digit
