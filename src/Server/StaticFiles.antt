-- ===== src/Server/StaticFiles.antt =====
-- crates/cory/src/server/static_files.rs: the pages of the user interface. The embedded files and the
-- guess of a content type from a path are parameters.
use cory.Base.{Option, none, some, [], ◌∷◌, nat_beq, if◌then◌else◌}
use cory.Base.Text.{Text, text, is_empty}

-- `trim_start_matches('/')`
abbrev pub trim_slashes : Text → Text
trim_slashes [] = []
trim_slashes (c ∷ s) = if nat_beq c 47 then trim_slashes s else c ∷ s

pub data StaticResponse (C : Type 0) : Type 0 where
  page : (content_type : Text) → C → StaticResponse C
  not_built : Text → StaticResponse C

pub record Assets (C : Type 0) : Type 0 where
  pub content_of : Text → Option C
  pub guess_mime : Text → Text

module _ {C : Type 0} (assets : Assets C) where
  pub index_page : Option C → StaticResponse C
  index_page (some content) = page (text "text/html; charset=utf-8") content
  index_page none = not_built (text "Cory was built without UI (no NPM at build time)")

  pub exact_file : Text → Option C → StaticResponse C
  exact_file path (some content) = page (assets.guess_mime path) content
  exact_file path none = index_page (assets.content_of (text "index.html"))

  unfoldable pub static_files : Text → StaticResponse C
  unfolding exact_file index_page
  static_files uri_path =
      let path = trim_slashes uri_path in
      if is_empty path
      then index_page (assets.content_of (text "index.html"))
      else exact_file path (assets.content_of path)
