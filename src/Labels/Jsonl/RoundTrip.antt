-- ===== src/Labels/Jsonl/RoundTrip.antt =====
-- Parsing what export_map_to_jsonl (crates/cory-core/src/labels/jsonl.rs) has written.
use cory.Base.{
  ℕ, suc, ◌≡◌, ◌≢◌, refl, sym, ◌∙◌, ap, Bool, true, false, ◌||◌, Option, none, some, [], ◌∷◌, ◌++◌,
  All, inr, inl, arith, nat_beq, if◌then◌else◌, ◌==◌, ==_iff, Bool-cases, Option-cases,
}
use cory.Base.Map.{Map, get, insert, contains_key, get-insert, contains_key-get}
use cory.Base.Text.{Text, trim, is_empty, lines}
use cory.Error.{ok}
use cory.Labels.{Bip329Record, LabelKey, key_eq}
use cory.Labels.Jsonl.{
  Json, key_of, insert_line, fold_line, fold_lines, parse_jsonl_records, key_ltb, insert_sorted,
  sort_entries, write_entries, export_map_to_jsonl,
}

-- What serde_json says of its compact output for a record: it is one line without control characters
-- or space around it, and reading it gives the record back.
pub record IsCompact (json : Json) (r : Bip329Record) : Type 0 where
  pub one_line : All (λ c. (c ≢ 10) × (c ≢ 13)) (json.write r)
  pub trimmed : trim (json.write r) ≡ json.write r
  pub some_text : is_empty (json.write r) ≡ false
  pub read_back : json.read (json.write r) ≡ inr r

-- A record that stands under its key.
pub record IsEntry (json : Json) (k : LabelKey) (r : Bip329Record) : Type 0 where
  pub key : k ≡ key_of json r
  pub compact : IsCompact json r

-- Each record stands under its key, and no key stands twice.
abbrev pub IsKeyed : Json → Map LabelKey Bip329Record → Type 0
IsKeyed json [] = Unit
IsKeyed json ((k, r) ∷ m) = IsEntry json k r × (contains_key m k ≡ false) × IsKeyed json m

line_ends :
    (w rest : Text) → All (λ c. (c ≢ 10) × (c ≢ 13)) w → lines (w ++ 10 ∷ rest) ≡ w ∷ lines rest
unfolding lines
line_ends [] rest h = refl
line_ends (c ∷ w) rest h =
    let others = line_ends w rest h.1 in
    let no_feed : nat_beq c 10 ≡ false = ground (arith, h.0.0) in
    let no_return : nat_beq c 13 ≡ false = ground (arith, h.0.1) in
    rw (no_feed, no_return, others) refl

contains_key-insert_sorted :
    (j k : LabelKey) (r : Bip329Record) (m : Map LabelKey Bip329Record) (json : Json)
    → contains_key (insert_sorted json (j, r) m) k ≡ (j == k || contains_key m k)
unfolding insert_sorted
contains_key-insert_sorted j k r [] json = refl
contains_key-insert_sorted j k r ((i, q) ∷ m) json =
    ground (arith, contains_key-insert_sorted j k r m json)

-- Which of two different keys is tested first does not matter.
swapped :
    (i j k : LabelKey) (v w o : Option Bip329Record)
    → (i == j) ≡ false
    → (if i == k then v else if j == k then w else o)
      ≡ (if j == k then w else if i == k then v else o)
swapped i j k v w o differ = elim (Bool-cases (i == k)) [
  | inl first ↦ elim (Bool-cases (j == k)) [
    | inl second ↦
        let same : i ≡ j = (==_iff i k).0 first ∙ sym ((==_iff j k).0 second) in
        absurd (ground (arith, (==_iff i j).1 same, differ))
    | inr apart_too ↦ rw (first, apart_too) refl
  ]
  | inr other ↦ rw other refl
]

no_head :
    (i j : LabelKey) (q : Bip329Record) (m : Map LabelKey Bip329Record)
    → contains_key ((i, q) ∷ m) j ≡ false
    → ((i == j) ≡ false) × (contains_key m j ≡ false)
no_head i j q m new = elim (Bool-cases (i == j)) [
  | inl same ↦ absurd (cc (rw same at new))
  | inr other ↦ (other, rw other at new)
]

get-insert_sorted :
    (j k : LabelKey) (r : Bip329Record) (m : Map LabelKey Bip329Record) (json : Json)
    → contains_key m j ≡ false
    → get (insert_sorted json (j, r) m) k ≡ (if j == k then some r else get m k)
unfolding insert_sorted
get-insert_sorted j k r [] json new = refl
get-insert_sorted j k r ((i, q) ∷ m) json new =
    let (differ, later) = no_head i j q m new in
    elim (Bool-cases (key_ltb json i j)) [
      | inl before ↦
          rw (before, get-insert_sorted j k r m json later)
            (swapped i j k (some q) (some r) (get m k) differ)
      | inr after ↦ rw after refl
    ]

apart : (i j : LabelKey) → (i == j) ≡ false → (j == i) ≡ false
apart i j differ = elim (Bool-cases (j == i)) [
  | inl same ↦ absurd (ground (arith, (==_iff i j).1 (sym ((==_iff j i).0 same)), differ))
  | inr other ↦ other
]

or_false : (a b : Bool) → a ≡ false → b ≡ false → (a || b) ≡ false
or_false a b h k = rw (h, k) refl

insert_sorted-IsKeyed :
    (j : LabelKey) (r : Bip329Record) (m : Map LabelKey Bip329Record) (json : Json)
    → IsEntry json j r
    → contains_key m j ≡ false
    → IsKeyed json m
    → IsKeyed json (insert_sorted json (j, r) m)
unfolding insert_sorted
insert_sorted-IsKeyed j r [] json is new h = (is, new, tt)
insert_sorted-IsKeyed j r ((i, q) ∷ m) json is new h =
    let (differ, later) = no_head i j q m new in
    elim (Bool-cases (key_ltb json i j)) [
      | inl before ↦ rw before (
        h.0,
        contains_key-insert_sorted j i r m json ∙ or_false (j == i) _ (apart i j differ) h.1,
        insert_sorted-IsKeyed j r m json is later h.2,
      )
      | inr after ↦ rw after (is, new, h)
    ]

contains_key-sort_entries :
    (m : Map LabelKey Bip329Record) (json : Json) (k : LabelKey)
    → contains_key (sort_entries json m) k ≡ contains_key m k
unfolding sort_entries
contains_key-sort_entries [] json k = refl
contains_key-sort_entries ((j, r) ∷ m) json k =
    contains_key-insert_sorted j k r (sort_entries json m) json
    ∙ ap (λ b. j == k || b) (contains_key-sort_entries m json k)

sort_entries-IsKeyed :
    (m : Map LabelKey Bip329Record) (json : Json)
    → IsKeyed json m
    → IsKeyed json (sort_entries json m)
unfolding sort_entries
sort_entries-IsKeyed [] json h = tt
sort_entries-IsKeyed ((j, r) ∷ m) json h =
    insert_sorted-IsKeyed j r (sort_entries json m) json h.0
      (contains_key-sort_entries m json j ∙ h.1) (sort_entries-IsKeyed m json h.2)

get-sort_entries :
    (m : Map LabelKey Bip329Record) (json : Json) (k : LabelKey)
    → IsKeyed json m
    → get (sort_entries json m) k ≡ get m k
unfolding sort_entries
get-sort_entries [] json k h = refl
get-sort_entries ((j, r) ∷ m) json k h =
    get-insert_sorted j k r (sort_entries json m) json (contains_key-sort_entries m json j ∙ h.1)
    ∙ ap (λ o. if j == k then some r else o) (get-sort_entries m json k h.2)

-- The entries as they are inserted, one after another.
abbrev insert_all :
    Map LabelKey Bip329Record → Map LabelKey Bip329Record → Map LabelKey Bip329Record
insert_all [] m = m
insert_all ((j, r) ∷ entries) m = insert_all entries (insert j r m)

get-insert_all :
    (json : Json) (entries m : Map LabelKey Bip329Record) (k : LabelKey)
    → IsKeyed json entries
    → get (insert_all entries m) k ≡ (if contains_key entries k then get entries k else get m k)
get-insert_all json [] m k h = refl
get-insert_all json ((j, r) ∷ entries) m k h = elim (Bool-cases (j == k)) [
  | inl same ↦
      let gone : contains_key entries k ≡ false =
        ap (contains_key entries) (sym ((==_iff j k).0 same)) ∙ h.1 in
      get-insert_all json entries (insert j r m) k h.2
      ∙ (rw (gone, same) (get-insert j k r m ∙ (rw same refl)))
  | inr other ↦
      get-insert_all json entries (insert j r m) k h.2 ∙ (rw (get-insert j k r m, other) refl)
]

read_line :
    (json : Json) (n : ℕ) (r : Bip329Record) (m : Map LabelKey Bip329Record)
    → IsCompact json r
    → fold_line json n (json.write r) m ≡ ok (insert (key_of json r) r m)
unfolding fold_line insert_line
read_line json n r m c = rw (c.trimmed, c.some_text, c.read_back) refl

read_entries :
    (json : Json) (n : ℕ) (entries m : Map LabelKey Bip329Record)
    → IsKeyed json entries
    → fold_lines json n (lines (write_entries json entries)) (ok m) ≡ ok (insert_all entries m)
unfolding fold_lines write_entries lines
read_entries json n [] m h = refl
read_entries json n ((k, r) ∷ entries) m h =
    let cut = line_ends (json.write r) (write_entries json entries) h.0.compact.one_line in
    ap (λ ls. fold_lines json n ls (ok m)) cut
    ∙ ap (fold_lines json (suc n) (lines (write_entries json entries)))
        (read_line json n r m h.0.compact)
    ∙ read_entries json (suc n) entries (insert (key_of json r) r m) h.2
    ∙ ap (λ key. ok (insert_all entries (insert key r m))) (sym h.0.key)

present :
    (m : Map LabelKey Bip329Record) (k : LabelKey)
    → (if contains_key m k then get m k else none) ≡ get m k
present m k = elim (Option-cases (get m k)) [
  | inl missing ↦ rw missing (same_branches (contains_key m k) none)
  | inr (r, found) ↦ rw (contains_key-get m k r found) refl
]
  where
    same_branches : (b : Bool) (o : Option Bip329Record) → (if b then o else o) ≡ o
    same_branches true o = refl
    same_branches false o = refl

-- Where serde_json writes each record on one line and reads it back, parsing the text that
-- export_map_to_jsonl has written for a map whose records stand under their keys gives a map with the
-- same record under each key.
pub parse_jsonl_records-export :
    (json : Json) (m : Map LabelKey Bip329Record)
    → IsKeyed json m
    → (parsed : Map LabelKey Bip329Record) × (parse_jsonl_records json (export_map_to_jsonl json m)
        ≡ ok parsed)
      × ((k : LabelKey) → get parsed k ≡ get m k)
unfolding parse_jsonl_records export_map_to_jsonl
parse_jsonl_records-export json m h =
    let entries = sort_entries json m in
    let keyed = sort_entries-IsKeyed m json h in
    (
      insert_all entries [],
      read_entries json 0 entries [] keyed,
      λ k.
          get-insert_all json entries [] k keyed
          ∙ (present entries k ∙ get-sort_entries m json k h),
    )
