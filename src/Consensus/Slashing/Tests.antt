-- ===== src/Consensus/Slashing/Tests.antt =====
-- slashing.go at concrete inputs.
use synthos_collective.Prelude.{◌≡◌, refl, none, some, [], ◌∷◌, arith, string_eq, eq_iff}
use synthos_collective.Dict.{lookup}
use synthos_collective.Consensus.Slashing.{
  SlashingTracker, SlashingParams, equivocation, new_slashing_tracker, record_equivocation,
}
use synthos_collective.Consensus.Slashing.Penalties.{Slashed, record_equivocation_conflict}

abbrev harsh : SlashingParams
harsh = record {
  double_sign_penalty = 500;
  invalid_block_penalty = 50;
  downtime_penalty = 5;
  slashing_window = 0;
  jail_duration = 0;
}

abbrev watched : SlashingTracker
unfolding new_slashing_tracker
watched = record (new_slashing_tracker harsh) { validator_stakes = ("mallory", 700) ∷ [] }

first_vote : (record_equivocation "mallory" 9 "a" 1000 watched).0 ≡ none
unfolding record_equivocation new_slashing_tracker lookup
first_vote = refl

record_equivocation_conflict_example :
    let st' = (record_equivocation "mallory" 9 "a" 1000 watched).1 in
    ((record_equivocation "mallory" 9 "a" 1001 st').0 ≡ none)
    × ((record_equivocation "mallory" 9 "a" 1001 st').1 ≡ st')
    × ((record_equivocation "mallory" 9 "b" 1001 st').0 ≡ some equivocation)
    × Slashed "mallory" watched.params.double_sign_penalty 1001 watched
        (record_equivocation "mallory" 9 "b" 1001 st').1
record_equivocation_conflict_example =
    record_equivocation_conflict "mallory" 9 "a" "b" 1000 1001 watched
      (λ h. ground (arith, eq_iff "a" "b")) first_vote
