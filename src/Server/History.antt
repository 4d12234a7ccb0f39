-- ===== src/Server/History.antt =====
-- crates/cory/src/server/graph.rs, record_search_history: the bounded history of searches.
pub mod Listing
use cory.Base.TextOrder.{text_ltb_asym, text_ltb-false_trans, text_ltb_irrefl}
use cory.Base.{
  All, Memᴰ, subst, ℕ, suc, ◌≤◌, ◌<◌, ◌≡◌, ◌≢◌, refl, ◌∙◌, Bool, true, false, Option, none, some,
  [], ◌∷◌, arith, length, leb, if◌then◌else◌, ◌==◌, ==_iff, Bool-cases, Option-cases, inl, inr, ◌⊎◌,
}
use cory.Base.Map.{Map, get, insert, remove, contains_key, get-insert, length-insert}
use cory.Base.Text.{Text, text_ltb, text_eq}

-- From a txid to the time of its search.
abbrev pub History : Type 0
History = Map Text Text

-- `min_by` on the times: the first of the smallest.
pub min_entry : Text × Text → History → Text
min_entry best [] = best.0
min_entry best (e ∷ history) =
    if text_ltb e.1 best.1 then min_entry e history else min_entry best history

pub oldest : History → Option Text
oldest [] = none
oldest (e ∷ history) = some (min_entry e history)

pub remove_if_any : Option Text → History → History
remove_if_any none history = history
remove_if_any (some txid) history = remove txid history

pub make_room : History → ℕ → History
make_room history max_entries =
    if leb max_entries (length history) then remove_if_any (oldest history) history else history

pub record_new : Bool → History → Text → Text → ℕ → History
record_new true history txid searched_at max_entries = insert txid searched_at history
record_new false history txid searched_at max_entries =
    insert txid searched_at (make_room history max_entries)

unfoldable pub record_search_history : History → Text → Text → ℕ → History
unfolding record_new make_room remove_if_any oldest min_entry
record_search_history history txid searched_at max_entries =
    record_new (contains_key history txid) history txid searched_at max_entries

get-remove : (k j : Text) (m : History) → (k == j) ≡ false → get (remove k m) j ≡ get m j
get-remove k j [] other = refl
get-remove k j ((i, w) ∷ m) other =
    ground (arith, ==_iff k j, ==_iff i k, ==_iff i j, get-remove k j m other)

length-remove :
    (k : Text) (m : History) → contains_key m k ≡ true → suc (length (remove k m)) ≡ length m
length-remove k [] h = cc
length-remove k ((i, w) ∷ m) h = ground (arith, length-remove k m)

min_entry-contains_key :
    (best : Text × Text) (m : History) → contains_key (best ∷ m) (min_entry best m) ≡ true
unfolding min_entry
min_entry-contains_key best [] = ground (arith, ==_iff best.0 best.0)
min_entry-contains_key best (e ∷ m) =
    ground (arith, min_entry-contains_key e m, min_entry-contains_key best m)

-- An entry put behind the first one.
behind :
    (best e : Text × Text) (m : History) (x : Text × Text)
    → Memᴰ x (best ∷ m)
    → Memᴰ x (best ∷ e ∷ m)
behind best e m x (Memᴰ.head is) = Memᴰ.head is
behind best e m x (Memᴰ.tail at) = Memᴰ.tail (Memᴰ.tail at)

-- An entry of the history for the txid has a time that is smallest of all, as a text.
pub record IsOldest (history : History) (j : Text) : Type 0 where
  pub time : Text
  pub entry : Memᴰ (j, time) history
  pub smallest : All (λ e. text_ltb e.1 time ≡ false) history

-- After a search: the txid has its time, the history has at most `max_entries` entries, and any other
-- entry is as before or was the oldest one of a full history.
pub record IsRecorded (history : History) (txid searched_at : Text) (max_entries : ℕ)
    (after : History) : Type 0 where
  pub found : get after txid ≡ some searched_at
  pub bounded : length after ≤ max_entries
  pub others :
      (j : Text)
      → txid ≢ j
      → (get after j ≡ get history j) ⊎ (IsOldest history j × (max_entries ≤ length history))

oldest-contains_key : (m : History) (k : Text) → oldest m ≡ some k → contains_key m k ≡ true
unfolding oldest
oldest-contains_key [] k h = cc
oldest-contains_key (e ∷ m) k h = ground (arith, min_entry-contains_key e m)

min_entry-IsOldest : (best : Text × Text) (m : History) → IsOldest (best ∷ m) (min_entry best m)
unfolding min_entry
min_entry-IsOldest best [] = record {
  time = best.1;
  entry = Memᴰ.head refl;
  smallest = (text_ltb_irrefl best.1, tt);
}
min_entry-IsOldest best (e ∷ m) = elim (Bool-cases (text_ltb e.1 best.1)) [
  | inl smaller ↦
      let h = min_entry-IsOldest e m in
      rw smaller (record {
        time = h.time;
        entry = Memᴰ.tail h.entry;
        smallest = (
          text_ltb-false_trans best.1 e.1 h.time (text_ltb_asym e.1 best.1 smaller) h.smallest.0,
          h.smallest,
        );
      })
  | inr not_smaller ↦
      let h = min_entry-IsOldest best m in
      rw not_smaller (record {
        time = h.time;
        entry = behind best e m (min_entry best m, h.time) h.entry;
        smallest = (
          h.smallest.0,
          (text_ltb-false_trans e.1 best.1 h.time not_smaller h.smallest.0, h.smallest.1),
        );
      })
]

oldest-IsOldest : (m : History) (k : Text) → oldest m ≡ some k → IsOldest m k
unfolding oldest
oldest-IsOldest [] k h = cc h
oldest-IsOldest (e ∷ m) k h =
    let is : min_entry e m ≡ k = cc h in subst (IsOldest (e ∷ m)) is (min_entry-IsOldest e m)

oldest-none : (m : History) → oldest m ≡ none → length m ≡ 0
unfolding oldest
oldest-none [] h = refl
oldest-none (e ∷ m) h = cc

module _ (history : History) (txid searched_at : Text) (max_entries : ℕ) where
  inserted-IsRecorded :
      contains_key history txid ≡ true
      → length history ≤ max_entries
      → IsRecorded history txid searched_at max_entries (insert txid searched_at history)
  inserted-IsRecorded known small = record {
    found = ground (arith, get-insert txid txid searched_at history, ==_iff txid txid);
    bounded = ground (arith, length-insert txid searched_at history);
    others = λ j other. elim (Bool-cases (txid == j)) [
      | inl same ↦ absurd (other ((==_iff txid j).0 same))
      | inr differ ↦ inl (get-insert txid j searched_at history ∙ (rw differ refl))
    ];
  }

  -- A history with room, in which the other entries are as described.
  into_room :
      (roomy : History)
      → length roomy < max_entries
      → ((j : Text)
          → (get roomy j ≡ get history j) ⊎ (IsOldest history j × (max_entries ≤ length history)))
      → IsRecorded history txid searched_at max_entries (insert txid searched_at roomy)
  into_room roomy room kept = record {
    found = ground (arith, get-insert txid txid searched_at roomy, ==_iff txid txid);
    bounded = ground (arith, length-insert txid searched_at roomy);
    others = λ j other. elim (Bool-cases (txid == j)) [
      | inl same ↦ absurd (other ((==_iff txid j).0 same))
      | inr differ ↦ elim (kept j) [
        | inl same ↦ inl (get-insert txid j searched_at roomy ∙ (rw differ same))
        | inr evicted ↦ inr evicted
      ]
    ];
  }

  evicted-IsRecorded :
      (k : Text)
      → oldest history ≡ some k
      → max_entries ≤ length history
      → length history ≤ max_entries
      → IsRecorded history txid searched_at max_entries (insert txid searched_at (remove k history))
  evicted-IsRecorded k is_oldest full small =
      into_room (remove k history)
        (omega (arith, length-remove k history (oldest-contains_key history k is_oldest)))
        (λ j. elim (Bool-cases (k == j)) [
          | inl same ↦ inr (
            subst (IsOldest history) ((==_iff k j).0 same) (oldest-IsOldest history k is_oldest),
            full,
          )
          | inr differ ↦ inl (get-remove k j history differ)
        ])

  room-IsRecorded :
      0 < max_entries
      → length history ≤ max_entries
      → IsRecorded history txid searched_at max_entries
          (insert txid searched_at (make_room history max_entries))
  unfolding make_room remove_if_any
  room-IsRecorded some_room small = elim (Bool-cases (leb max_entries (length history))) [
    | inl full ↦ elim (Option-cases (oldest history)) [
      | inl nothing ↦ absurd (ground (arith, oldest-none history nothing))
      | inr (k, is_oldest) ↦
          rw (full, is_oldest) (evicted-IsRecorded k is_oldest (ground arith) small)
    ]
    | inr open_ ↦ rw open_ (into_room history (ground arith) (λ j. inl refl))
  ]

  pub record_search_history-IsRecorded :
      0 < max_entries
      → length history ≤ max_entries
      → IsRecorded history txid searched_at max_entries
          (record_search_history history txid searched_at max_entries)
  unfolding record_search_history record_new
  record_search_history-IsRecorded some_room small = elim (Bool-cases (contains_key history txid)) [
    | inl known ↦ rw known (inserted-IsRecorded known small)
    | inr new ↦ rw new (room-IsRecorded some_room small)
  ]
