-- ===== src/Server/Labels.antt =====
-- crates/cory/src/server/labels.rs: the handlers over the label store. A request body that axum
-- rejects is its message.
pub mod Safety
pub mod Archive
mod Tests
use cory.Base.{ℕ, Bool, Option, none, some, List, [], ◌∷◌, ◌++◌, ◌⊎◌, inl, inr, length}
use cory.Base.Text.{Text, text}
use cory.Labels.{Bip329Type, LabelFile, LabelFileKind, StoreResult}
use cory.Labels.Jsonl.{Json}
use cory.Labels.Store.{
  FileSystem, LabelStore, list_files, get_file, create_browser_file, import_browser_file,
  replace_browser_file_content, remove_browser_file, set_label, delete_label, export_file,
}
use cory.Server.{AppError, Reply, ok, err, Messages, map_label_store_error, check_auth}

pub record LabelFileSummary : Type 0 where
  pub id : Text
  pub name : Text
  pub kind : LabelFileKind
  pub editable : Bool
  pub record_count : ℕ

pub label_file_to_summary : LabelFile → LabelFileSummary
label_file_to_summary file = record {
  id = file.id;
  name = file.name;
  kind = file.kind;
  editable = file.editable;
  record_count = length file.labels;
}

pub summaries : List LabelFile → List LabelFileSummary
summaries [] = []
summaries (file ∷ files) = label_file_to_summary file ∷ summaries files

pub data CreateOrImportLabelFileRequest : Type 0 where
  create : (name : Text) → CreateOrImportLabelFileRequest
  import_file : (name content : Text) → CreateOrImportLabelFileRequest

pub data UpsertOrReplaceLabelFileRequest : Type 0 where
  upsert : (label_type : Bip329Type) (ref_id label : Text) → UpsertOrReplaceLabelFileRequest
  replace : (content : Text) → UpsertOrReplaceLabelFileRequest

-- The requests of the label routes.
pub data LabelRequest : Type 0 where
  list_label_files : LabelRequest
  create_or_import_local_label_file : Text ⊎ CreateOrImportLabelFileRequest → LabelRequest
  upsert_or_replace_local_label_file : Text → Text ⊎ UpsertOrReplaceLabelFileRequest → LabelRequest
  delete_local_label_file : Text → LabelRequest
  delete_local_label_entry : Text → Bip329Type → Text → LabelRequest
  export_local_label_file : Text → LabelRequest

pub data LabelResponse : Type 0 where
  files : List LabelFileSummary → LabelResponse
  file : LabelFileSummary → LabelResponse
  deleted : LabelResponse
  attachment : (disposition content : Text) → LabelResponse

abbrev pub disposition_of : Text → Text
disposition_of name = text "attachment; filename=" ++ (34 ∷ (name ++ (text ".jsonl" ++ (34 ∷ []))))

module _ (show : Messages) where
  pub summary_or : Text → Option LabelFile → Reply LabelResponse
  summary_or message none = err (AppError.internal message)
  summary_or message (some f) = ok (file (label_file_to_summary f))

  pub created_summary : StoreResult Text → LabelStore → Reply LabelResponse
  created_summary (StoreResult.err e) s = err (map_label_store_error show e)
  created_summary (StoreResult.ok id) s =
      summary_or (text "created label file was not found") (get_file s id)

  pub updated_summary : Text → StoreResult (Unit {0}) → LabelStore → Reply LabelResponse
  updated_summary id (StoreResult.err e) s = err (map_label_store_error show e)
  updated_summary id (StoreResult.ok u) s =
      summary_or (text "updated label file was not found") (get_file s id)

  pub deleted_or : StoreResult (Unit {0}) → Reply LabelResponse
  deleted_or (StoreResult.err e) = err (map_label_store_error show e)
  deleted_or (StoreResult.ok u) = ok deleted

  -- The response, or the error of `HeaderValue::from_str`.
  pub with_disposition : Text → Text → Option Text → Reply LabelResponse
  with_disposition disposition content none = ok (attachment disposition content)
  with_disposition disposition content (some message) =
      err (AppError.internal (text "invalid content disposition header: " ++ message))

  pub exported : Text → StoreResult Text → Reply LabelResponse
  exported name (StoreResult.err e) = err (map_label_store_error show e)
  exported name (StoreResult.ok content) =
      with_disposition (disposition_of name) content (show.of_header (disposition_of name))

  module _ (json : Json) {D : Type 0} (fs : FileSystem D) where
    abbrev pub State : Type 0
    State = LabelStore × D

    pub export_named : Text → Option LabelFile → LabelStore → Reply LabelResponse
    export_named id none s = err (AppError.not_found (text "label file not found: " ++ id))
    export_named id (some f) s = exported f.name (export_file json id s)

    pub create_or_import :
        Text ⊎ CreateOrImportLabelFileRequest → State → Reply LabelResponse × State
    create_or_import (inl rejection) (s, d) = (err (AppError.bad_request rejection), (s, d))
    create_or_import (inr (create name)) (s, d) =
        let (r, s') = create_browser_file name s in (created_summary r s', (s', d))
    create_or_import (inr (import_file name content)) (s, d) =
        let (r, s') = import_browser_file json name content s in (created_summary r s', (s', d))

    pub upsert_or_replace :
        Text → Text ⊎ UpsertOrReplaceLabelFileRequest → State → Reply LabelResponse × State
    upsert_or_replace id (inl rejection) (s, d) = (err (AppError.bad_request rejection), (s, d))
    upsert_or_replace id (inr (upsert label_type ref_id label)) (s, d) =
        let (r, s', d') = set_label json fs id label_type ref_id label s d in
        (updated_summary id r s', (s', d'))
    upsert_or_replace id (inr (replace content)) (s, d) =
        let (r, s') = replace_browser_file_content json id content s in
        (updated_summary id r s', (s', d))

    -- The handler of the request, behind its token check.
    pub serve : LabelRequest → State → Reply LabelResponse × State
    serve list_label_files (s, d) = (ok (files (summaries (list_files s))), (s, d))
    serve (create_or_import_local_label_file req) sd = create_or_import req sd
    serve (upsert_or_replace_local_label_file id req) sd = upsert_or_replace id req sd
    serve (delete_local_label_file id) (s, d) =
        let (r, s') = remove_browser_file id s in (deleted_or r, (s', d))
    serve (delete_local_label_entry id label_type ref_id) (s, d) =
        let (r, s', d') = delete_label json fs id label_type ref_id s d in
        (updated_summary id r s', (s', d'))
    serve (export_local_label_file id) (s, d) = (export_named id (get_file s id) s, (s, d))

    unfoldable pub guarded : Reply (Unit {0}) → LabelRequest → State → Reply LabelResponse × State
    guarded (err e) req sd = (err e, sd)
    guarded (ok u) req sd = serve req sd

    unfoldable pub handle_label_request :
        Text → Option Text → LabelRequest → State → Reply LabelResponse × State
    unfolding guarded serve create_or_import upsert_or_replace export_named exported
        with_disposition deleted_or updated_summary created_summary summary_or summaries
        label_file_to_summary
    handle_label_request api_token header req sd = guarded (check_auth api_token header) req sd
