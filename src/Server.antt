-- ===== src/Server.antt =====
-- crates/cory/src/server: the errors of the handlers (error.rs), the token check (auth.rs), and the
-- handlers in the modules below.
pub mod Limits
pub mod Token
pub mod History
pub mod Enrichment
pub mod Graph
pub mod Labels
pub mod StaticFiles
pub mod Router
pub mod Service
pub mod Tests
use cory.Base.{ℕ, Bool, not, Option, none, some, List, ◌==◌, if◌then◌else◌, ◌++◌}
use cory.Base.Text.{Text, text, text_eq}
use cory.Error.{CoreError}
use cory.Labels.{LabelStoreError}

pub data AppError : Type 0 where
  bad_request unauthorized not_found conflict bad_gateway internal : Text → AppError

-- Result<A, AppError>
pub data Reply (A : Type 0) : Type 0 where
  ok : A → Reply A
  err : AppError → Reply A

-- The status of IntoResponse.
pub status : AppError → ℕ
status (AppError.bad_request m) = 400
status (AppError.unauthorized m) = 401
status (AppError.not_found m) = 404
status (AppError.conflict m) = 409
status (AppError.bad_gateway m) = 502
status (AppError.internal m) = 500

-- `to_string` of the errors of the library, and of the error of `HeaderValue::from_str` where it refuses
-- a value.
pub record Messages : Type 0 where
  pub of_core : CoreError → Text
  pub of_store : LabelStoreError → Text
  pub of_header : Text → Option Text

pub map_label_store_error : Messages → LabelStoreError → AppError
map_label_store_error show (LabelStoreError.duplicate_file_id name) =
    AppError.conflict (text "label file already exists: " ++ name)
map_label_store_error show (LabelStoreError.file_not_found file_id) =
    AppError.not_found (text "label file not found: " ++ file_id)
map_label_store_error show (LabelStoreError.core e) = AppError.bad_request (show.of_core e)
map_label_store_error show e = AppError.bad_request (show.of_store e)

token_or_empty : Option Text → Text
token_or_empty none = text ""
token_or_empty (some token) = token

-- The header `x-api-token`, if it is there and is text.
unfoldable pub check_auth : Text → Option Text → Reply (Unit {0})
unfolding token_or_empty
check_auth expected_token header =
    if not (token_or_empty header == expected_token)
    then err (AppError.unauthorized (text "invalid or missing X-API-Token"))
    else ok tt
