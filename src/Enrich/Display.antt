-- ===== src/Enrich/Display.antt =====
-- crates/cory-core/src/enrich.rs, derive_display_id. The bitcoin crate's reading of scripts and its
-- addresses on a network are a parameter; a public key is known by its p2pkh address.
pub mod Pushed
use cory.Base.{
  ℕ, ◌+◌, ◌-◌, Bool, true, not, ◌&&◌, ◌||◌, Option, none, some, List, [], ◌∷◌, ◌++◌, ltb, leb,
  nat_beq, if◌then◌else◌, length, take, drop,
}
use cory.Base.Text.{Text, text, is_empty, decimal}
use cory.Types.{Script}
use cory.Enrich.{ScriptTests, is_anchor}

-- bitcoin::script::Instruction
pub data Instruction : Type 0 where
  push_bytes : List ℕ → Instruction
  op : ℕ → Instruction

-- `instructions` has `none` for an error; `address_of` is Address::from_script, and
-- `p2pkh_address_of` the address of PublicKey::from_slice.
pub record ScriptReader : Type 0 where
  pub instructions : Script → List (Option Instruction)
  pub address_of : Script → Option Text
  pub p2pkh_address_of : List ℕ → Option Text

-- is_ascii and not is_ascii_control
abbrev pub is_printable : ℕ → Bool
is_printable b = ltb b 128 && not (ltb b 32 || nat_beq b 127)

abbrev pub all_printable : List ℕ → Bool
all_printable [] = true
all_printable (b ∷ bytes) = is_printable b && all_printable bytes

-- The first push of printable bytes, which are a text as they are.
pub pushed_text : List (Option Instruction) → Option Text
pushed_text [] = none
pushed_text (some (push_bytes bytes) ∷ rest) =
    let others = pushed_text rest in
    if not (is_empty bytes) && all_printable bytes then some bytes else others
pushed_text (some (op code) ∷ rest) = pushed_text rest
pushed_text (none ∷ rest) = pushed_text rest

-- addrs.join(", ")
abbrev join_addresses : List Text → Text
join_addresses [] = []
join_addresses (a ∷ []) = a
join_addresses (a ∷ b ∷ rest) = a ++ (text ", " ++ join_addresses (b ∷ rest))

abbrev is_push_number : ℕ → Bool
is_push_number code = leb 0x51 code && leb code 0x60

abbrev or_else : {A : Type 0} → Option A → Option A → Option A
or_else (some a) other = some a
or_else none other = other

module _ (tests : ScriptTests) (reader : ScriptReader) where
  abbrev pushed_key : List Text → Option Text → List Text
  pushed_key pubkeys none = pubkeys
  pushed_key pubkeys (some address) = pubkeys ++ address ∷ []

  abbrev musig_text : ℕ → ℕ → List Text → Text
  musig_text m n pubkeys =
      decimal m ++ (text "/" ++ (decimal n ++ (text " musig: " ++ join_addresses pubkeys)))

  -- The loop over the instructions, with the threshold once it is known; it ends at an error.
  pub musig : Option ℕ → List Text → List (Option Instruction) → Option Text
  musig m pubkeys [] = none
  musig m pubkeys (none ∷ rest) = none
  musig m pubkeys (some (push_bytes bytes) ∷ rest) =
      musig m (pushed_key pubkeys (reader.p2pkh_address_of bytes)) rest
  musig none pubkeys (some (op code) ∷ rest) =
      musig (if is_push_number code then some (code - 0x51 + 1) else none) pubkeys rest
  musig (some m) pubkeys (some (op code) ∷ rest) =
      let others = musig (some m) pubkeys rest in
      if is_push_number code then some (musig_text m (code - 0x51 + 1) pubkeys) else others

  pub multisig_id : Script → Option Text
  multisig_id script =
      if tests.is_multisig script then musig none [] (reader.instructions script) else none

  -- The public key between the length and OP_CHECKSIG.
  pub p2pk_id : Script → Option Text
  p2pk_id script =
      if tests.is_p2pk script && ltb 2 (length script)
      then reader.p2pkh_address_of (take (length script - 2) (drop 1 script))
      else none

  abbrev marked : Script → Text → Text
  marked script address = if is_anchor script then address ++ text " (anchor)" else address

  pub address_id : Script → Option Text → Option Text
  address_id script (some address) = some (marked script address)
  address_id script none = or_else (p2pk_id script) (multisig_id script)

  unfoldable pub derive_display_id : Script → Option Text
  unfolding pushed_text musig multisig_id p2pk_id address_id
  derive_display_id script =
      if tests.is_op_return script
      then pushed_text (reader.instructions script)
      else address_id script (reader.address_of script)
