-- ===== src/Consensus/Engine/Tests.antt =====
-- engine.go at concrete inputs.
use synthos_collective.Prelude.{
  ◌≡◌, refl, true, some, List, [], ◌∷◌, String, arith, string_eq, nat_eq,
}
use synthos_collective.Words.{add64, mul64}
use synthos_collective.Dict.{lookup, insert}
use synthos_collective.Consensus.Rotation.{Block}
use synthos_collective.Consensus.Engine.{
  BlockVote, Engine, prevote, new_engine, set_validators, set_validator_powers, on_proposal,
  required_for_finality, required_power, registered_in,
}
use synthos_collective.Consensus.Engine.Tally.{process_vote, stage_votes, power_of, canonical}
use synthos_collective.Consensus.Engine.Safety.Quorum.{IsKnown}
use synthos_collective.Consensus.Engine.Safety.Runs.{voted, run, IsFair, one_block_locks}
use synthos_collective.Consensus.Engine.Membership.{
  set_validators-IsFair, set_validator_powers-stale,
}

abbrev quartet : List String
quartet = "a" ∷ "b" ∷ "c" ∷ "d" ∷ []

abbrev candidate : Block
candidate = record { height = 5; parent_hash = ""; timestamp = 0; proposer_id = ""; hash = "x" }

abbrev ready : Engine
unfolding on_proposal set_validators new_engine
ready = on_proposal candidate 0 (set_validators quartet (new_engine 0))

abbrev ballot : String → BlockVote
ballot v = record {
  block_hash = "x";
  height = 5;
  round = 0;
  stage = prevote;
  voter_id = v;
  vote = 1;
  signature = "";
}

abbrev two_in : Engine
unfolding on_proposal set_validators new_engine
two_in = run (voted (ballot "a") 1 ∷ voted (ballot "b") 2 ∷ []) ready

third_vote_locks : (process_vote (ballot "c") 3 two_in).0.threshold_met ≡ true
unfolding process_vote on_proposal set_validators new_engine lookup insert add64 mul64 canonical
    required_for_finality required_power registered_in
third_vote_locks = refl

set_validators-IsFair_example : IsFair (set_validators quartet (new_engine 0))
unfolding set_validators new_engine add64 insert
set_validators-IsFair_example =
    set_validators-IsFair quartet (new_engine 0) (omega arith) (omega arith)

set_validator_powers-stale_example :
    let e' = set_validator_powers (("b", 70) ∷ []) (set_validators quartet (new_engine 0)) in
    (lookup "a" e'.validators ≡ some tt) × (power_of e'.validator_powers "a" ≡ 1)
unfolding set_validators new_engine lookup insert
set_validator_powers-stale_example =
    set_validator_powers-stale "a" (("b", 70) ∷ []) (set_validators quartet (new_engine 0)) refl
      refl

two_in-IsFair : IsFair two_in
unfolding process_vote on_proposal set_validators new_engine lookup insert add64 mul64 canonical
    registered_in required_for_finality
two_in-IsFair = set_validators-IsFair_example

two_in-IsKnown : IsKnown two_in.validator_powers (stage_votes 5 0 prevote two_in)
unfolding process_vote on_proposal set_validators new_engine lookup insert add64 mul64 canonical
    registered_in required_for_finality
two_in-IsKnown = ((refl, (refl, tt)), (omega arith, (omega arith, tt)))

fourth_vote_meets :
    (process_vote (ballot "d") 4 (run [] (process_vote (ballot "c") 3 two_in).1)).0.threshold_met
    ≡ true
unfolding process_vote on_proposal set_validators new_engine lookup insert add64 mul64 canonical
    required_for_finality required_power registered_in
fourth_vote_meets = refl

one_block_locks_example : (ballot "d").block_hash ≡ (ballot "c").block_hash
one_block_locks_example =
    one_block_locks two_in (ballot "c") (ballot "d") 3 4 [] two_in-IsFair two_in-IsKnown refl refl
      refl third_vote_locks fourth_vote_meets
