-- ===== src/Enrich/Display/Pushed.antt =====
-- What derive_display_id (crates/cory-core/src/enrich.rs) shows of an OP_RETURN script.
use cory.Base.{
  ℕ, ◌≤◌, ◌<◌, ◌≡◌, ◌≢◌, refl, subst, true, not, ◌&&◌, Option, none, some, List, [], ◌∷◌, All, Memᴰ,
  Bool-cases, inl, inr, arith,
}
use cory.Base.Text.{Text, is_empty}
use cory.Types.{Script}
use cory.Enrich.{ScriptTests}
use cory.Enrich.Display.{
  Instruction, push_bytes, op, ScriptReader, is_printable, all_printable, pushed_text,
  derive_display_id,
}

-- From a space to a tilde.
abbrev pub IsPrintable : ℕ → Type 0
IsPrintable b = (32 ≤ b) × (b < 127)

is_printable-IsPrintable : (b : ℕ) → is_printable b ≡ true → IsPrintable b
is_printable-IsPrintable b h = (ground (arith, h), ground (arith, h))

all_printable-All : (bytes : List ℕ) → all_printable bytes ≡ true → All IsPrintable bytes
all_printable-All [] h = tt
all_printable-All (b ∷ bytes) h =
    (is_printable-IsPrintable b (ground (arith, h)), all_printable-All bytes (ground (arith, h)))

-- A text that is pushed by the script, in printable characters, at least one.
pub record IsPushed (instructions : List (Option Instruction)) (shown : Text) : Type 0 where
  pub pushed : Memᴰ (some (push_bytes shown)) instructions
  pub printable : All IsPrintable shown
  pub some_text : shown ≢ []

IsPushed-later :
    (i : Option Instruction) (rest : List (Option Instruction)) (shown : Text)
    → IsPushed rest shown
    → IsPushed (i ∷ rest) shown
IsPushed-later i rest shown h = record {
  pushed = Memᴰ.tail h.pushed;
  printable = h.printable;
  some_text = h.some_text;
}

shown_bytes : (bytes shown : Text) → some bytes ≡ some shown → bytes ≡ shown
shown_bytes bytes shown e = cc e

IsPushed-now :
    (bytes : Text) (rest : List (Option Instruction))
    → (not (is_empty bytes) && all_printable bytes) ≡ true
    → IsPushed (some (push_bytes bytes) ∷ rest) bytes
IsPushed-now [] rest h = cc h
IsPushed-now (b ∷ bytes) rest h = record {
  pushed = Memᴰ.head refl;
  printable = all_printable-All (b ∷ bytes) h;
  some_text = λ e. cc e;
}

pushed_text-IsPushed :
    (instructions : List (Option Instruction)) (shown : Text)
    → pushed_text instructions ≡ some shown
    → IsPushed instructions shown
unfolding pushed_text
pushed_text-IsPushed [] shown e = cc e
pushed_text-IsPushed (none ∷ rest) shown e =
    IsPushed-later none rest shown (pushed_text-IsPushed rest shown e)
pushed_text-IsPushed (some (op code) ∷ rest) shown e =
    IsPushed-later (some (op code)) rest shown (pushed_text-IsPushed rest shown e)
pushed_text-IsPushed (some (push_bytes bytes) ∷ rest) shown e =
    elim (Bool-cases (not (is_empty bytes) && all_printable bytes)) [
      | inl good ↦
          subst (IsPushed (some (push_bytes bytes) ∷ rest)) (shown_bytes bytes shown (rw good at e))
            (IsPushed-now bytes rest good)
      | inr bad ↦
          IsPushed-later (some (push_bytes bytes)) rest shown
            (pushed_text-IsPushed rest shown (rw bad at e))
    ]

-- What derive_display_id shows of an OP_RETURN script is a text that the script pushes, of at least one
-- character and of printable ASCII characters only.
pub derive_display_id-IsPushed :
    (tests : ScriptTests) (reader : ScriptReader) (script : Script) (shown : Text)
    → tests.is_op_return script ≡ true
    → derive_display_id tests reader script ≡ some shown
    → IsPushed (reader.instructions script) shown
unfolding derive_display_id
derive_display_id-IsPushed tests reader script shown op_return e =
    pushed_text-IsPushed (reader.instructions script) shown (rw op_return at e)
