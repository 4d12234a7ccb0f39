-- ===== src/Labels/Pack/Loaded.antt =====
-- Loading a directory (crates/cory-core/src/labels/pack.rs) keeps the label store well-formed.
use cory.Base.{
  ℕ, ◌+◌, ◌≤◌, ◌≡◌, refl, Bool, true, false, Option, none, some, List, [], ◌∷◌, ◌++◌, ◌⊎◌, inl, inr,
  arith, All, All-append, contains, ==_iff, Bool-cases,
}
use cory.Base.Map.{Map}
use cory.Base.Text.{Text, is_empty, replace_char, text_eq}
use cory.Error.{Result, ok, err}
use cory.Labels.{Bip329Record, LabelKey, LabelFile, LabelFileKind}
use cory.Labels.Jsonl.{Json, parse_jsonl_records}
use cory.Labels.Store.{LabelStore, all_ids, ids, list_files}
use cory.Labels.Store.Files.{occurrences, occurrences-append}
use cory.Labels.Store.WellFormed.{count, IsRw, IsRo, IsWellFormed}
use cory.Labels.Pack.{
  Entry, plain_file, directory, Listing, unreadable, no_more, entry, Paths, Loading, loaded_file,
  push_loaded, read_content, load_id, load_single_label_file, load_if_jsonl, and_rest, broken,
  unless_broken, walk_entry, walk_entries, walk_label_dir, load_rw_dir, load_ro_dir,
}

-- The files loaded so far beside the others, of which each id has `others id`.
record IsLoading (Q : LabelFile → Type 0) (others : Text → ℕ) (l : Loading) : Type 0 where
  kinds : All Q l.files
  unique : (id : Text) → others id + occurrences id l.files ≤ 1
  seen : (id : Text) → contains l.seen_ids id ≡ false → others id + occurrences id l.files ≡ 0

module _ (json : Json) (paths : Paths) (base : Text) (kind : LabelFileKind) (Q : LabelFile → Type 0)
    (others : Text → ℕ)
    (made : (id path : Text) (labels : Map LabelKey Bip329Record)
      → Q (loaded_file kind id path labels))
    (named : (id path : Text) (labels : Map LabelKey Bip329Record)
      → (loaded_file kind id path labels).id ≡ id) where
  abbrev Inv : Loading → Type 0
  Inv = IsLoading Q others

  see : (id : Text) (l : Loading) → Inv l → Inv (record l { seen_ids = id ∷ l.seen_ids })
  see id l h = record {
    kinds = h.kinds;
    unique = h.unique;
    seen = λ j new. h.seen j (ground arith);
  }

  push_loaded-IsLoading :
      (id path : Text) (r : Result (Map LabelKey Bip329Record)) (l : Loading)
      → contains l.seen_ids id ≡ false
      → Inv l
      → Inv (push_loaded json paths base kind id path r (record l { seen_ids = id ∷ l.seen_ids })).1
  unfolding push_loaded
  push_loaded-IsLoading id path (err e) l new h = see id l h
  push_loaded-IsLoading id path (ok labels) l new h =
      let f = loaded_file kind id path labels in
      record {
        kinds = All-append Q l.files (f ∷ []) h.kinds (made id path labels, tt);
        unique = λ j. ground (
          arith,
          h.unique j,
          h.seen id new,
          named id path labels,
          ==_iff id j,
          occurrences-append j l.files (f ∷ []),
        );
        seen = λ j fresh.
            ground (arith, h.seen j, named id path labels, occurrences-append j l.files (f ∷ []));
      }

  read_content-IsLoading :
      (id path : Text) (content : Text ⊎ Text) (l : Loading)
      → contains l.seen_ids id ≡ false
      → Inv l
      → Inv
          (read_content json paths base kind id path content
            (record l { seen_ids = id ∷ l.seen_ids })).1
  unfolding read_content
  read_content-IsLoading id path (inl message) l new h = see id l h
  read_content-IsLoading id path (inr content) l new h =
      push_loaded-IsLoading id path (parse_jsonl_records json content) l new h

  load_id-IsLoading :
      (id path : Text) (content : Text ⊎ Text) (l : Loading)
      → Inv l
      → Inv (load_id json paths base kind id path content l).1
  unfolding load_id
  load_id-IsLoading id path content l h = elim (Bool-cases (is_empty id)) [
    | inl blank ↦ rw blank h
    | inr named ↦ elim (Bool-cases (contains l.seen_ids id)) [
      | inl old ↦ rw (named, old) h
      | inr new ↦ rw (named, new) (read_content-IsLoading id path content l new h)
    ]
  ]

  load_if_jsonl-IsLoading :
      (b : Bool) (path : Text) (content : Text ⊎ Text) (l : Loading)
      → Inv l
      → Inv (load_if_jsonl json paths base kind b path content l).1
  unfolding load_if_jsonl load_single_label_file
  load_if_jsonl-IsLoading false path content l h = h
  load_if_jsonl-IsLoading true path content l h =
      load_id-IsLoading (replace_char 92 47 (paths.relative base path)) path content l h

  and_rest-IsLoading :
      (p : Result (Unit {0}) × Loading) (rest : Loading → Result (Unit {0}) × Loading)
      → Inv p.1
      → ((l : Loading) → Inv l → Inv (rest l).1)
      → Inv (and_rest json paths base kind p rest).1
  and_rest-IsLoading (err e, l) rest h keep = h
  and_rest-IsLoading (ok u, l) rest h keep = keep l h

  unless_broken-IsLoading :
      (message : Option Text) (p : Result (Unit {0}) × Loading) (l : Loading)
      → Inv l
      → Inv p.1
      → Inv (unless_broken json paths base kind message p l).1
  unless_broken-IsLoading (some message) p l h walked = h
  unless_broken-IsLoading none p l h walked = walked

  mutual
    unfolding walk_entry

    walk_entry-IsLoading :
        (e : Entry) (l : Loading) → Inv l → Inv (walk_entry json paths base kind e l).1
    walk_entry-IsLoading (plain_file path content) l h =
        load_if_jsonl-IsLoading (paths.is_jsonl path) path content l h
    walk_entry-IsLoading (directory listing) l h =
        unless_broken-IsLoading (broken json paths base kind listing)
          (walk_entries json paths base kind listing l) l h (walk_entries-IsLoading listing l h)

    walk_entries-IsLoading :
        (listing : Listing) (l : Loading)
        → Inv l
        → Inv (walk_entries json paths base kind listing l).1
    walk_entries-IsLoading (unreadable message) l h = h
    walk_entries-IsLoading no_more l h = h
    walk_entries-IsLoading (entry e others') l h =
        and_rest-IsLoading (walk_entry json paths base kind e l)
          (λ l'. walk_entries json paths base kind others' l') (walk_entry-IsLoading e l h)
          (λ l' h'. walk_entries-IsLoading others' l' h')

ids-missing :
    (id : Text) (xs : List LabelFile) → contains (ids xs) id ≡ false → occurrences id xs ≡ 0
ids-missing id [] h = refl
ids-missing id (x ∷ xs) h = ground (arith, ids-missing id xs)

-- Of the three lists together.
count-missing : (id : Text) (s : LabelStore) → contains (all_ids s) id ≡ false → count id s ≡ 0
count-missing id s h =
    let xs = s.browser_rw_files ++ s.persistent_ro_files in
    omega (
      arith,
      ids-missing id (list_files s) h,
      occurrences-append id s.persistent_rw_files xs,
      occurrences-append id s.browser_rw_files s.persistent_ro_files,
    )

module _ (json : Json) (paths : Paths) (dir : Text) (s : LabelStore) (h : IsWellFormed s) where
  -- A call of load_rw_dir on a well-formed store leaves it well-formed, also where it fails half-way:
  -- no two files of the three lists have the same id, and the new files are editable ones.
  pub load_rw_dir-IsWellFormed :
      (found : Option Listing) → IsWellFormed (load_rw_dir json paths dir found s).1
  unfolding load_rw_dir walk_label_dir loaded_file
  load_rw_dir-IsWellFormed none = h
  load_rw_dir-IsWellFormed (some listing) =
      let others : Text → ℕ =
        λ id. occurrences id s.browser_rw_files + occurrences id s.persistent_ro_files in
      let l =
        walk_entry-IsLoading json paths dir LabelFileKind.persistent_rw IsRw others
          (λ id path labels. (refl, refl)) (λ id path labels. refl) (directory listing)
          (record { files = s.persistent_rw_files; seen_ids = all_ids s })
          (record {
            kinds = h.rw_files;
            unique = λ id. omega (arith, h.unique id);
            seen = λ id new. omega (arith, count-missing id s new);
          }) in
      record {
        rw_files = l.kinds;
        browser_files = h.browser_files;
        ro_files = h.ro_files;
        unique = λ id. omega (arith, l.unique id);
      }

  -- A call of load_ro_dir on a well-formed store leaves it well-formed, also where it fails half-way:
  -- no two files of the three lists have the same id, and the new files are not editable.
  pub load_ro_dir-IsWellFormed :
      (found : Option Listing) → IsWellFormed (load_ro_dir json paths dir found s).1
  unfolding load_ro_dir walk_label_dir loaded_file
  load_ro_dir-IsWellFormed none = h
  load_ro_dir-IsWellFormed (some listing) =
      let others : Text → ℕ =
        λ id. occurrences id s.persistent_rw_files + occurrences id s.browser_rw_files in
      let l =
        walk_entry-IsLoading json paths dir LabelFileKind.persistent_ro IsRo others
          (λ id path labels. (refl, refl, refl)) (λ id path labels. refl) (directory listing)
          (record { files = s.persistent_ro_files; seen_ids = all_ids s })
          (record {
            kinds = h.ro_files;
            unique = λ id. omega (arith, h.unique id);
            seen = λ id new. omega (arith, count-missing id s new);
          }) in
      record {
        rw_files = h.rw_files;
        browser_files = h.browser_files;
        ro_files = l.kinds;
        unique = λ id. omega (arith, l.unique id);
      }
