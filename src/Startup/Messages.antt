-- ===== src/Startup/Messages.antt =====
-- crates/cory/src/main.rs: the API token as text, and the message of a connection that fails.
pub mod RoundTrip
use cory.Base.{ℕ, ◌+◌, ◌/◌, ◌%◌, Option, none, some, List, [], ◌∷◌, ◌++◌, ltb, ◌||◌, if◌then◌else◌}
use cory.Base.Text.{Text, text, contains_text}

abbrev pub hex_digit : ℕ → ℕ
hex_digit n = if ltb n 10 then 48 + n else 87 + n

-- `{b:02x}` for each byte
unfoldable pub hex_encode : List ℕ → Text
hex_encode [] = []
hex_encode (b ∷ bytes) = hex_digit (b / 16) ∷ hex_digit (b % 16) ∷ hex_encode bytes

-- The advice for an error, if there is some.
pub hint_of : Text → Option Text
hint_of source_error =
    if contains_text (text "Could not resolve host") source_error
      || contains_text (text "dns error") source_error
    then some
        (text "hint: hostname resolution failed; verify the endpoint hostname and your DNS/network")
    else if contains_text (text "tls") source_error
        || (contains_text (text "certificate") source_error
            || contains_text (text "SSL") source_error)
    then some (
        text
          "hint: TLS handshake failed; verify certificate trust and that the endpoint uses HTTPS")
    else if contains_text (text "401") source_error || contains_text (text "403") source_error
    then some (
        text
          "hint: authentication failed; verify token-in-URL, --rpc-user/--rpc-pass, or --rpc-cookie-file")
    else if contains_text (text "404") source_error
    then some (text "hint: endpoint path is invalid; verify the full RPC URL including token path")
    else if contains_text (text "cookie") source_error
        || contains_text (text "both rpc user and rpc pass must be set together") source_error
    then some (text "hint: use --rpc-user/--rpc-pass together, or provide --rpc-cookie-file")
    else if contains_text (text "error sending request for url") source_error
    then some (
        text
          "hint: request could not be sent; verify URL format, network access, and endpoint reachability")
    else none

-- lines.join("\n")
abbrev pub with_line : Text → Option Text → Text
with_line message none = message
with_line message (some line) = message ++ (10 ∷ line)

pub format_rpc_connect_error : Text → Text → Text
format_rpc_connect_error connection source_error =
    with_line
      (with_line (text "could not connect to RPC endpoint `" ++ (connection ++ text "`"))
        (some (text "RPC error: " ++ source_error)))
      (hint_of source_error)
