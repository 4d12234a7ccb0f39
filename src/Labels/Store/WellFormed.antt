-- ===== src/Labels/Store/WellFormed.antt =====
-- A well-formed label store (crates/cory-core/src/labels/store.rs), and the two writes that change its
-- files.
use cory.Base.{
  ℕ, ◌+◌, ◌≤◌, ◌≡◌, refl, true, false, none, some, [], ◌∷◌, ◌++◌, arith, All, All-append, ==_iff,
  contains, Bool-cases, inl, inr,
}
use cory.Base.Map.{Map}
use cory.Base.Text.{Text, text_eq}
use cory.Labels.{Bip329Record, LabelKey, LabelFile, LabelFileKind}
use cory.Labels.Jsonl.{ParsedLocalFileName}
use cory.Labels.Store.{
  LabelStore, list_files, ids, find_file, find_file_by_id, write_labels, push_new,
}
use cory.Labels.Store.Files.{
  occurrences, find_file-append, find_file-All, occurrences-update_first, occurrences-append,
  occurrences-missing, All-update_first,
}

-- A file of each of the three lists.
abbrev pub IsRw : LabelFile → Type 0
IsRw f = (f.kind ≡ LabelFileKind.persistent_rw) × (f.editable ≡ true)

abbrev pub IsBrowser : LabelFile → Type 0
IsBrowser f = (f.kind ≡ LabelFileKind.browser_rw) × (f.editable ≡ true) × (f.source_path ≡ none)

abbrev pub IsRo : LabelFile → Type 0
IsRo f = (f.kind ≡ LabelFileKind.persistent_ro) × (f.editable ≡ false) × (f.source_path ≡ none)

abbrev pub count : Text → LabelStore → ℕ
count id s =
    occurrences id s.persistent_rw_files
    + occurrences id s.browser_rw_files
    + occurrences id s.persistent_ro_files

pub record IsWellFormed (s : LabelStore) : Type 0 where
  pub rw_files : All IsRw s.persistent_rw_files
  pub browser_files : All IsBrowser s.browser_rw_files
  pub ro_files : All IsRo s.persistent_ro_files
  pub unique : (id : Text) → count id s ≤ 1

-- The store stays well-formed, and the read-only files stay as they are.
pub record Safe (s s' : LabelStore) : Type 0 where
  pub well_formed : IsWellFormed s'
  pub read_only : s'.persistent_ro_files ≡ s.persistent_ro_files

pub Safe-same : (s : LabelStore) → IsWellFormed s → Safe s s
Safe-same s h = record { well_formed = h; read_only = refl }

count-find : (id : Text) (s : LabelStore) → find_file_by_id s id ≡ none → count id s ≡ 0
count-find id s h = omega (
  arith,
  occurrences-missing id (list_files s) h,
  occurrences-append id s.persistent_rw_files (s.browser_rw_files ++ s.persistent_ro_files),
  occurrences-append id s.browser_rw_files s.persistent_ro_files,
)

pub push_new-Safe :
    (parsed : ParsedLocalFileName) (labels : Map LabelKey Bip329Record) (s : LabelStore)
    → find_file_by_id s parsed.id ≡ none
    → IsWellFormed s
    → Safe s (push_new parsed labels s).1
unfolding push_new
push_new-Safe parsed labels s new h =
    let f : LabelFile = record {
      id = parsed.id;
      name = parsed.name;
      kind = LabelFileKind.browser_rw;
      editable = true;
      source_path = none;
      labels = labels;
    } in
    record {
      well_formed = record {
        rw_files = h.rw_files;
        browser_files =
            All-append IsBrowser s.browser_rw_files (f ∷ []) h.browser_files
              ((refl, refl, refl), tt);
        ro_files = h.ro_files;
        unique = λ id. ground (
          arith,
          h.unique id,
          ==_iff parsed.id id,
          count-find parsed.id s new,
          occurrences-append id s.browser_rw_files (f ∷ []),
        );
      };
      read_only = refl;
    }

-- Where the file that a write reaches is not a read-only one.
pub write_labels-Safe :
    (id : Text) (labels : Map LabelKey Bip329Record) (s : LabelStore) (f : LabelFile)
    → find_file_by_id s id ≡ some f
    → f.editable ≡ true
    → IsWellFormed s
    → Safe s (write_labels id labels s)
write_labels-Safe id labels s f found editable h =
    let rw_split =
      find_file-append id s.persistent_rw_files (s.browser_rw_files ++ s.persistent_ro_files) in
    let br_split = find_file-append id s.browser_rw_files s.persistent_ro_files in
    elim (Bool-cases (contains (ids s.persistent_rw_files) id)) [
      | inl in_rw ↦ rw in_rw (record {
        well_formed = record {
          rw_files = All-update_first IsRw id labels s.persistent_rw_files (λ g k. k) h.rw_files;
          browser_files = h.browser_files;
          ro_files = h.ro_files;
          unique = λ j.
              omega (arith, h.unique j, occurrences-update_first id j labels s.persistent_rw_files);
        };
        read_only = refl;
      })
      | inr not_rw ↦ elim (Bool-cases (contains (ids s.browser_rw_files) id)) [
        | inl in_br ↦
            rw (not_rw, in_br)
              (record {
                well_formed = record {
                  rw_files = h.rw_files;
                  browser_files =
                      All-update_first IsBrowser id labels s.browser_rw_files (λ g k. k)
                        h.browser_files;
                  ro_files = h.ro_files;
                  unique = λ j.
                      omega (
                        arith,
                        h.unique j,
                        occurrences-update_first id j labels s.browser_rw_files,
                      );
                };
                read_only = refl;
              })
        | inr not_br ↦
            let in_ro : find_file id s.persistent_ro_files ≡ some f =
              cc (found, rw not_rw at rw_split, rw not_br at br_split) in
            let (_, fixed, _) = find_file-All IsRo id s.persistent_ro_files f h.ro_files in_ro in
            absurd (cc (fixed, editable))
      ]
    ]
