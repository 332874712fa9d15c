-- ===== src/Consensus/Rotation/Tests.antt =====
-- rotation.go and proposal_processor.go at concrete inputs.
use synthos_collective.Prelude.{◌≡◌, refl, List, [], ◌∷◌, String}
use synthos_collective.Words.{add64}
use synthos_collective.Consensus.Rotation.{Block, expected_proposer}

abbrev roster : List String
roster = "v0" ∷ "v1" ∷ "v2" ∷ []

abbrev tip_child : Block
tip_child = record {
  height = 8;
  parent_hash = "tip";
  timestamp = 0;
  proposer_id = "v2";
  hash = "h";
}

abbrev the_tip : String
the_tip = "tip"

turn_test : expected_proposer roster 7 1 ≡ "v2"
unfolding expected_proposer add64
turn_test = refl
