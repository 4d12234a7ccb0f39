-- ===== src/Labels.antt =====
-- crates/cory-core/src/labels/types.rs: the BIP-329 records, the label files and the errors of the
-- store. The modules below are the other files of crates/cory-core/src/labels.
pub mod Jsonl
pub mod Store
pub mod Pack
pub mod Tests
use cory.Base.{
  ℕ, Bool, true, false, Option, ◌≡◌, ◌&&◌, ◌↔◌, nat_beq, nat_beq_iff, arith, HashKey, ◌==◌, ==_iff,
  refl,
}
use cory.Base.Map.{Map}
use cory.Base.Text.{Text, text, text_eq}
use cory.Error.{CoreError}

pub data Bip329Type : Type 0 where
  tx addr pubkey input output xpub : Bip329Type

-- The order of the constructors, which `Ord` is derived from.
abbrev pub rank : Bip329Type → ℕ
rank Bip329Type.tx = 0
rank Bip329Type.addr = 1
rank Bip329Type.pubkey = 2
rank Bip329Type.input = 3
rank Bip329Type.output = 4
rank Bip329Type.xpub = 5

-- `Display`
pub type_name : Bip329Type → Text
type_name Bip329Type.tx = text "tx"
type_name Bip329Type.addr = text "addr"
type_name Bip329Type.pubkey = text "pubkey"
type_name Bip329Type.input = text "input"
type_name Bip329Type.output = text "output"
type_name Bip329Type.xpub = text "xpub"

pub record Bip329Record : Type 0 where
  pub label_type : Bip329Type
  pub ref_id : Text
  pub label : Text
  pub origin : Option Text
  pub spendable : Option Bool

pub data LabelFileKind : Type 0 where
  persistent_rw persistent_ro browser_rw : LabelFileKind

pub data LabelStoreError : Type 0 where
  empty_file_name empty_ref empty_label : LabelStoreError
  duplicate_file_id file_not_found read_only_file not_browser_file : Text → LabelStoreError
  core : CoreError → LabelStoreError

abbrev pub LabelKey : Type 0
LabelKey = Bip329Type × Text

-- The source path is its text.
pub record LabelFile : Type 0 where
  pub id : Text
  pub name : Text
  pub kind : LabelFileKind
  pub editable : Bool
  pub source_path : Option Text
  pub labels : Map LabelKey Bip329Record

-- Result<A, LabelStoreError>
pub data StoreResult (A : Type 0) : Type 0 where
  ok : A → StoreResult A
  err : LabelStoreError → StoreResult A

unfoldable pub is_browser : LabelFileKind → Bool
is_browser LabelFileKind.browser_rw = true
is_browser _ = false

abbrev pub key_beq : LabelKey → LabelKey → Bool
key_beq (t, r) (u, q) = nat_beq (rank t) (rank u) && r == q

pub rank_injective : (t u : Bip329Type) → rank t ≡ rank u → t ≡ u
rank_injective Bip329Type.tx Bip329Type.tx h = refl
rank_injective Bip329Type.addr Bip329Type.addr h = refl
rank_injective Bip329Type.pubkey Bip329Type.pubkey h = refl
rank_injective Bip329Type.input Bip329Type.input h = refl
rank_injective Bip329Type.output Bip329Type.output h = refl
rank_injective Bip329Type.xpub Bip329Type.xpub h = refl
rank_injective _ _ h = absurd (omega arith)

pub key_beq_iff : (j k : LabelKey) → (key_beq j k ≡ true) ↔ (j ≡ k)
key_beq_iff (t, r) (u, q) =
    ground (arith, nat_beq_iff (rank t) (rank u), ==_iff r q, rank_injective t u)

instance abbrev pub key_eq : HashKey LabelKey
key_eq = record { same_key = key_beq; same_key_iff = key_beq_iff }
