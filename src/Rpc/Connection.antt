-- ===== src/Rpc/Connection.antt =====
-- crates/cory-core/src/rpc/http_adapter/connection.rs: credentials and the address of the node.
-- The parser of URLs and the reading of files are parameters; a path is its text.
use cory.Base.{Option, none, some, ◌++◌, ◌⊎◌, inl, inr, ◌||◌, ◌==◌, if◌then◌else◌}
use cory.Base.Text.{Text, text, text_eq, trim, is_empty, lines, first, split_once}
use cory.Error.{Result, ok, ◌>>=◌}
use cory.Rpc.Parsing.{invalid, checked, required}

abbrev pub Auth : Type 0
Auth = Option (Text × Text)

-- Option::filter by `!is_empty()`
abbrev pub non_empty : Option Text → Option Text
non_empty none = none
non_empty (some s) = if is_empty s then none else some s

abbrev pub trimmed : Option Text → Option Text
trimmed none = none
trimmed (some s) = some (trim s)

unfoldable pub cookie_parts : Text → Text × Text → Result Auth
cookie_parts cookie_file (cookie_user, cookie_pass) =
    if is_empty cookie_user || is_empty cookie_pass
    then invalid (
        text "rpc cookie file "
        ++ cookie_file
        ++ text " must contain non-empty `username:password`")
    else ok (some (cookie_user, cookie_pass))

-- The content of the cookie file.
unfoldable pub cookie_auth : Text → Text → Result Auth
unfolding cookie_parts
cookie_auth cookie_file content = do
  line ←
      required (text "rpc cookie file " ++ cookie_file ++ text " is empty")
        (non_empty (trimmed (first (lines content))))
  parts ←
      required (text "rpc cookie file " ++ cookie_file ++ text " must contain `username:password`")
        (split_once 58 line)
  cookie_parts cookie_file parts

module _ (read_to_string : Text → Text ⊎ Text) where
  unfoldable pub file_auth : Option Text → Result Auth
  unfolding cookie_auth
  file_auth none = ok none
  file_auth (some cookie_file) = do
    content ←
        checked (text "failed to read rpc cookie file " ++ cookie_file ++ text ": ")
          (read_to_string cookie_file)
    cookie_auth cookie_file content

  unfoldable pub resolve_auth : Option Text → Option Text → Option Text → Result Auth
  unfolding file_auth
  resolve_auth (some u) (some p) cookie_file = ok (some (u, p))
  resolve_auth (some u) none cookie_file =
      invalid (text "both rpc user and rpc pass must be set together")
  resolve_auth none (some p) cookie_file =
      invalid (text "both rpc user and rpc pass must be set together")
  resolve_auth none none cookie_file = file_auth cookie_file

-- `scheme_of` is the scheme of a URL, or the message of the parser's error.
unfoldable pub parse_connection : (Text → Text ⊎ Text) → Text → Result Text
parse_connection scheme_of connection = checked_scheme (scheme_of connection)
  where
    checked_scheme : Text ⊎ Text → Result Text
    checked_scheme (inl message) = invalid (
        text "invalid connection `"
        ++ connection
        ++ text "`: expected HTTP(S) URL ("
        ++ message
        ++ text ")")
    checked_scheme (inr scheme) =
        if scheme == text "http" || scheme == text "https"
        then ok connection
        else invalid
            (text "unsupported connection scheme `" ++ scheme ++ text "`; expected http or https")
