-- ===== src/Sanitizer.antt =====
-- crates/lumenqraph-core/src/sanitize.rs: the error messages of a simulation, as a client sees
-- them. A message is the list of its characters; the strkeys of the stellar_strkey crate are a
-- parameter.
mod Examples
pub mod Messages
pub mod Codes
use lumenqraph.Base.{
  ℕ, ◌-◌, ◌^◌, Bool, true, false, not, ◌&&◌, ◌||◌, Option, none, some, List, [], ◌∷◌, ◌++◌, map,
  length, take, drop, all, any, is_nil, ltb, leb, ◌==◌, if◌then◌else◌,
}
use lumenqraph.Base.Str.{lit, join}
use lumenqraph.Base.Decimal.{is_digit, parse_digits}
use lumenqraph.Base.Chain.{◌>>=◌}
use lumenqraph.Base.Text.{
  Text, is_control, is_whitespace, filter, starts_with, drop_while, take_while, trim,
  split_whitespace,
}

abbrev pub max_simulation_error_len : ℕ
max_simulation_error_len = 256

abbrev pub url_start : Text
url_start = lit "http://"

abbrev pub secure_url_start : Text
secure_url_start = lit "https://"

abbrev pub redacted_url : Text
redacted_url = lit "[redacted:url]"

abbrev pub redacted_blob : Text
redacted_blob = lit "[redacted:blob]"

abbrev pub is_ascii_uppercase : ℕ → Bool
is_ascii_uppercase c = leb b'A' c && leb c b'Z'

abbrev pub is_ascii_lowercase : ℕ → Bool
is_ascii_lowercase c = leb b'a' c && leb c b'z'

abbrev pub is_ascii_alphabetic : ℕ → Bool
is_ascii_alphabetic c = is_ascii_uppercase c || is_ascii_lowercase c

unfoldable pub looks_like_base64 : Text → Bool
looks_like_base64 tok =
    any (λ c. c == b'+') tok
    || any (λ c. c == b'/') tok
    || any (λ c. c == b'=') tok
    || not (ltb (length tok) 16)
      && any is_ascii_uppercase tok
      && any is_ascii_lowercase tok
      && any is_digit tok

-- The test on the first character, and on those that follow.
abbrev pub is_identifier : Text → Bool
is_identifier [] = false
is_identifier (c ∷ cs) =
    is_ascii_alphabetic c && all (λ d. is_ascii_alphabetic d || is_digit d || d == b'_') cs

unfoldable pub is_url : Text → Bool
unfolding starts_with
is_url tok = starts_with url_start tok || starts_with secure_url_start tok

-- The end of `sanitize_simulation_error`: the cut, with an ellipsis.
unfoldable pub truncated : Text → Text
truncated t =
    if leb (length t) max_simulation_error_len
    then t
    else take (max_simulation_error_len - 1) t ++ 0x2026 ∷ []

module _ (is_strkey : Text → Bool) where
  unfoldable pub is_public_identifier : Text → Bool
  is_public_identifier tok = is_strkey tok || leb (length tok) 64 && is_identifier tok

  -- What a token is replaced with.
  unfoldable pub redact : Text → Text
  redact tok =
      if is_url tok
      then redacted_url
      else if is_public_identifier tok
      then tok
      else if looks_like_base64 tok || ltb 64 (length tok)
      then redacted_blob
      else tok

  unfoldable pub redact_internal_detail : Text → Text
  redact_internal_detail s = join (b' ' ∷ []) (map redact (split_whitespace s))

  unfoldable pub sanitize_simulation_error : Text → Text
  sanitize_simulation_error raw =
      let cleaned = filter (λ c. not (is_control c)) raw in
      let collapsed = join (b' ' ∷ []) (split_whitespace cleaned) in
      truncated (trim (redact_internal_detail collapsed))

-- `find`, with the text behind the match.
unfoldable pub find_after : Text → Text → Option Text
find_after pattern [] = if is_nil pattern then some [] else none
find_after pattern (c ∷ cs) =
    let later = find_after pattern cs in
    if starts_with pattern (c ∷ cs) then some (drop (length pattern) (c ∷ cs)) else later

-- `strip_prefix('#')`.
abbrev pub strip_hash : Text → Option Text
strip_hash [] = none
strip_hash (c ∷ cs) = if c == b'#' then some cs else none

-- `parse::<u32>` of a text that has digits only.
abbrev pub parse_u32 : Text → Option ℕ
parse_u32 [] = none
parse_u32 (c ∷ cs) = do n ← parse_digits 0 (c ∷ cs); if ltb n (2 ^ 32) then some n else none

abbrev pub contract_error : Text
contract_error = lit "Error(Contract"

unfoldable pub parse_contract_error_code : Text → Option ℕ
parse_contract_error_code text = do
  after ← find_after contract_error text
  number ← strip_hash (drop_while (λ c. is_whitespace c || c == b',') after)
  parse_u32 (take_while is_digit number)
