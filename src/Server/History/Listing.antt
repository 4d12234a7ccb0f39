-- ===== src/Server/History/Listing.antt =====
-- crates/cory/src/server/history.rs: the searches, sorted by their times.
-- A stable sort is an insertion sort.
use cory.Base.{false, ◌≡◌, refl, inl, inr, Option, List, [], ◌∷◌, All, Bool-cases, if◌then◌else◌}
use mathlib.Core.List.{Permᴰ}
use mathlib.Core.List.Permᴰ as Permᴰ
use cory.Base.Text.{Text, text_ltb}
use cory.Base.TextOrder.{text_ltb_asym, text_ltb-false_trans}
use cory.Server.{Reply, ok, err, check_auth}
use cory.Server.History.{History}

pub record HistoryEntry : Type 0 where
  pub txid : Text
  pub searched_at : Text

abbrev pub history_entries : History → List HistoryEntry
history_entries [] = []
history_entries ((txid, at) ∷ history) =
    record { txid = txid; searched_at = at } ∷ history_entries history

-- Behind the entries that are newer.
abbrev insert_by_time : HistoryEntry → List HistoryEntry → List HistoryEntry
insert_by_time e [] = e ∷ []
insert_by_time e (x ∷ entries) =
    if text_ltb e.searched_at x.searched_at then x ∷ insert_by_time e entries else e ∷ x ∷ entries

-- `sort_by(|a, b| b.searched_at.cmp(&a.searched_at))`
abbrev sort_by_time : List HistoryEntry → List HistoryEntry
sort_by_time [] = []
sort_by_time (e ∷ entries) = insert_by_time e (sort_by_time entries)

unfoldable pub listed : Reply (Unit {0}) → History → Reply (List HistoryEntry)
listed (err e) history = err e
listed (ok u) history = ok (sort_by_time (history_entries history))

unfoldable pub get_history : Text → Option Text → History → Reply (List HistoryEntry)
unfolding listed
get_history api_token header history = listed (check_auth api_token header) history

-- No time is greater than one before it, as a text.
abbrev pub Descending : List HistoryEntry → Type 0
Descending [] = Unit
Descending (e ∷ entries) =
    All (λ x. text_ltb e.searched_at x.searched_at ≡ false) entries × Descending entries

All-insert_by_time :
    (P : HistoryEntry → Type 0) (e : HistoryEntry) (entries : List HistoryEntry)
    → P e
    → All P entries
    → All P (insert_by_time e entries)
All-insert_by_time P e [] p h = (p, tt)
All-insert_by_time P e (x ∷ entries) p h =
    elim (Bool-cases (text_ltb e.searched_at x.searched_at)) [
      | inl older ↦ rw older (h.0, All-insert_by_time P e entries p h.1)
      | inr newer ↦ rw newer (p, h)
    ]

not_newer_than_all :
    (e x : HistoryEntry) (entries : List HistoryEntry)
    → text_ltb e.searched_at x.searched_at ≡ false
    → All (λ y. text_ltb x.searched_at y.searched_at ≡ false) entries
    → All (λ y. text_ltb e.searched_at y.searched_at ≡ false) entries
not_newer_than_all e x [] is h = tt
not_newer_than_all e x (y ∷ entries) is h = (
  text_ltb-false_trans e.searched_at x.searched_at y.searched_at is h.0,
  not_newer_than_all e x entries is h.1,
)

insert_by_time-Descending :
    (e : HistoryEntry) (entries : List HistoryEntry)
    → Descending entries
    → Descending (insert_by_time e entries)
insert_by_time-Descending e [] h = (tt, tt)
insert_by_time-Descending e (x ∷ entries) h =
    elim (Bool-cases (text_ltb e.searched_at x.searched_at)) [
      | inl older ↦ rw older (
        All-insert_by_time (λ y. text_ltb x.searched_at y.searched_at ≡ false) e entries
            (text_ltb_asym e.searched_at x.searched_at older) h.0,
        insert_by_time-Descending e entries h.1,
      )
      | inr newer ↦ rw newer ((newer, not_newer_than_all e x entries newer h.0), h)
    ]

insert_by_time-Permᴰ :
    (e : HistoryEntry) (entries : List HistoryEntry)
    → Permᴰ (e ∷ entries) (insert_by_time e entries)
insert_by_time-Permᴰ e [] = Permᴰ.refl (e ∷ [])
insert_by_time-Permᴰ e (x ∷ entries) = elim (Bool-cases (text_ltb e.searched_at x.searched_at)) [
  | inl older ↦
      rw older
        (Permᴰ.trans (Permᴰ.swap refl refl) (Permᴰ.cons refl (insert_by_time-Permᴰ e entries)))
  | inr newer ↦ rw newer (Permᴰ.refl (e ∷ x ∷ entries))
]

sort_by_time-Descending : (entries : List HistoryEntry) → Descending (sort_by_time entries)
sort_by_time-Descending [] = tt
sort_by_time-Descending (e ∷ entries) =
    insert_by_time-Descending e (sort_by_time entries) (sort_by_time-Descending entries)

sort_by_time-Permᴰ : (entries : List HistoryEntry) → Permᴰ entries (sort_by_time entries)
sort_by_time-Permᴰ [] = Permᴰ.nil
sort_by_time-Permᴰ (e ∷ entries) =
    Permᴰ.trans (Permᴰ.cons refl (sort_by_time-Permᴰ entries))
      (insert_by_time-Permᴰ e (sort_by_time entries))

-- The searches of the history, each as often as it has them, none newer than one before it.
pub record Lists (history : History) (entries : List HistoryEntry) : Type 0 where
  pub same : Permᴰ (history_entries history) entries
  pub descending : Descending entries

-- What is answered after a token check: its error, or the searches.
abbrev pub Answers : Reply (Unit {0}) → History → Reply (List HistoryEntry) → Type 0
Answers (err e) history r = r ≡ err e
Answers (ok u) history r = (entries : List HistoryEntry) × (r ≡ ok entries) × Lists history entries

listed-Answers : (r : Reply (Unit {0})) (history : History) → Answers r history (listed r history)
unfolding listed
listed-Answers (err e) history = refl
listed-Answers (ok u) history = (
  sort_by_time (history_entries history),
  refl,
  record {
    same = sort_by_time-Permᴰ (history_entries history);
    descending = sort_by_time-Descending (history_entries history);
  },
)

-- get_history answers with the error of the token check, or else with the searches of the
-- history, each as often as it has them, sorted by the texts of their times: no time is greater,
-- as a text, than one before it.
pub get_history-Answers :
    (api_token : Text) (header : Option Text) (history : History)
    → Answers (check_auth api_token header) history (get_history api_token header history)
unfolding get_history
get_history-Answers api_token header history = listed-Answers (check_auth api_token header) history
