-- ===== src/Server/Labels/Safety.antt =====
-- The handlers of crates/cory/src/server/labels.rs keep the label store well-formed, and do nothing
-- without the token.
use cory.Base.{[], ◌≡◌, refl, Option, some, ◌⊎◌, inl, inr, ◌≢◌}
use cory.Base.Text.{Text, text}
use cory.Labels.Jsonl.{Json}
use cory.Labels.Store.{FileSystem, LabelStore}
use cory.Labels.Store.WellFormed.{IsWellFormed, Safe, Safe-same}
use cory.Labels.Store.Operations.Invariant.{
  create-Safe, import_file-Safe, replace-Safe, remove_file-Safe, set_one-Safe, delete_one-Safe,
}
use cory.Server.{AppError, Reply, ok, err, Messages, check_auth}
use cory.Server.Token.{check_auth-unauthorized}
use cory.Server.Labels.{
  LabelRequest, list_label_files, create_or_import_local_label_file,
  upsert_or_replace_local_label_file, delete_local_label_file, delete_local_label_entry,
  export_local_label_file, create, import_file, upsert, replace, create_or_import,
  upsert_or_replace, serve, guarded, handle_label_request, CreateOrImportLabelFileRequest,
  UpsertOrReplaceLabelFileRequest,
}

module _ (show : Messages) (json : Json) {D : Type 0} (fs : FileSystem D) (s : LabelStore) (d : D)
    (h : IsWellFormed s) where
  create_or_import-Safe :
      (req : Text ⊎ CreateOrImportLabelFileRequest)
      → Safe s (create_or_import show json fs req (s, d)).1.0
  unfolding create_or_import
  create_or_import-Safe (inl rejection) = Safe-same s h
  create_or_import-Safe (inr (create name)) = create-Safe s h name
  create_or_import-Safe (inr (import_file name content)) = import_file-Safe s h json name content

  upsert_or_replace-Safe :
      (id : Text) (req : Text ⊎ UpsertOrReplaceLabelFileRequest)
      → Safe s (upsert_or_replace show json fs id req (s, d)).1.0
  unfolding upsert_or_replace
  upsert_or_replace-Safe id (inl rejection) = Safe-same s h
  upsert_or_replace-Safe id (inr (upsert t ref_id label)) =
      set_one-Safe s h json fs d id t ref_id label
  upsert_or_replace-Safe id (inr (replace content)) = replace-Safe s h json id content

  serve-Safe : (req : LabelRequest) → Safe s (serve show json fs req (s, d)).1.0
  unfolding serve
  serve-Safe list_label_files = Safe-same s h
  serve-Safe (create_or_import_local_label_file req) = create_or_import-Safe req
  serve-Safe (upsert_or_replace_local_label_file id req) = upsert_or_replace-Safe id req
  serve-Safe (delete_local_label_file id) = remove_file-Safe s h id
  serve-Safe (delete_local_label_entry id t ref_id) = delete_one-Safe s h json fs d id t ref_id
  serve-Safe (export_local_label_file id) = Safe-same s h

  guarded-Safe :
      (r : Reply (Unit {0})) (req : LabelRequest) → Safe s (guarded show json fs r req (s, d)).1.0
  unfolding guarded
  guarded-Safe (err e) req = Safe-same s h
  guarded-Safe (ok u) req = serve-Safe req

  -- A request to the label routes, whatever its token and body are, leaves a well-formed store
  -- well-formed and the files that were loaded read-only as they are.
  pub handle_label_request-Safe :
      (api_token : Text) (header : Option Text) (req : LabelRequest)
      → Safe s (handle_label_request show json fs api_token header req (s, d)).1.0
  unfolding handle_label_request
  handle_label_request-Safe api_token header req = guarded-Safe (check_auth api_token header) req

-- Where the server has a token that is not empty, a request to the label routes whose token is
-- missing or is not the server's one is refused as unauthorized, and leaves the store and the disk as
-- they are.
pub handle_label_request-unauthorized :
    (show : Messages) (json : Json) {D : Type 0} (fs : FileSystem D) (sd : LabelStore × D)
    (api_token : Text) (header : Option Text) (req : LabelRequest)
    → [] ≢ api_token
    → header ≢ some api_token
    → handle_label_request show json fs api_token header req sd
      ≡ (err (AppError.unauthorized (text "invalid or missing X-API-Token")), sd)
unfolding handle_label_request guarded
handle_label_request-unauthorized show json fs sd api_token header req set other =
    rw (check_auth-unauthorized api_token header set other) refl
