-- ===== src/Enrich/Tests.antt =====
-- compute_fee and derive_display_id (crates/cory-core/src/enrich.rs) on a transaction and a script.
use cory.Base.{◌≡◌, refl, some, none, [], ◌∷◌, ◌↔◌, true, false}
use cory.Types.{TxNode, TxInput}
use cory.Graph.Mock.{tx, output_of}
use cory.Base.Text.{text}
use cory.Enrich.{ScriptTests, compute_fee}
use cory.Enrich.Display.{push_bytes, op, ScriptReader, derive_display_id}
use cory.Enrich.Display.Pushed.{IsPushed, derive_display_id-IsPushed}
use cory.Enrich.Fees.{HasFee, compute_fee-HasFee}

abbrev known_input : TxInput
known_input = record { prevout = none; sequence = 0; value = some 5000; script_type = none }

abbrev paying : TxNode
paying = tx 7 (known_input ∷ known_input ∷ []) (output_of 4000 ∷ output_of 2000 ∷ [])

fee_4000 : compute_fee paying ≡ some 4000
unfolding compute_fee
fee_4000 = refl

compute_fee-HasFee_example : (compute_fee paying ≡ some 4000) ↔ HasFee paying 4000
compute_fee-HasFee_example = compute_fee-HasFee paying 4000

abbrev op_return : ScriptTests
op_return = record {
  is_p2pk = λ s. false;
  is_p2pkh = λ s. false;
  is_p2sh = λ s. false;
  is_p2wpkh = λ s. false;
  is_p2wsh = λ s. false;
  is_p2tr = λ s. false;
  is_multisig = λ s. false;
  is_op_return = λ s. true;
}

-- A byte that is no character, then a text.
abbrev pushes : ScriptReader
pushes = record {
  instructions = λ s. some (op 106) ∷ some (push_bytes (7 ∷ [])) ∷ some (push_bytes s) ∷ [];
  address_of = λ s. some (text "address");
  p2pkh_address_of = λ bytes. none;
}

text_shown : derive_display_id op_return pushes (text "hello") ≡ some (text "hello")
unfolding derive_display_id
text_shown = refl

derive_display_id-IsPushed_example : IsPushed (pushes.instructions (text "hello")) (text "hello")
derive_display_id-IsPushed_example =
    derive_display_id-IsPushed op_return pushes (text "hello") (text "hello") refl text_shown
