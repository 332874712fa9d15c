-- ===== src/Consensus/Engine/Tally.antt =====
-- engine.go: processVoteInternal, its tallies and what OnVote makes of them.
use synthos_collective.Prelude.{
  ℕ, Bool, false, not, ◌&&◌, ◌||◌, Option, none, some, get_or, [], ◌∷◌, ltb, leb, if◌then◌else◌,
  ◌==◌, nat_eq, string_eq, String,
}
use synthos_collective.Words.{add64}
use synthos_collective.Dict.{Dict, lookup, insert}
use synthos_collective.Consensus.Rotation.{Block}
use synthos_collective.Consensus.Slashing.{record_equivocation}
use synthos_collective.Consensus.Engine.{
  BlockVote, VoteRecord, ProofOfLock, Votes, Engine, at, prevote, precommit, required_for_finality,
  required_power, is_registered,
}

-- votesByHeightAndRound[h][round][stage]
unfoldable pub stage_votes : ℕ → ℕ → String → Engine → Votes
stage_votes h round stage e = get_or (lookup stage (at round (at h e.votes_by_round))) []

unfoldable pub set_stage_votes : ℕ → ℕ → String → Votes → Engine → Engine
set_stage_votes h round stage vs e =
    let rounds = at h e.votes_by_round in
    let stages = insert stage vs (at round rounds) in
    record e { votes_by_round = insert h (insert round stages rounds) e.votes_by_round }

abbrev pub record_of : BlockVote → VoteRecord
record_of v = record { block_hash = v.block_hash; vote = v.vote; signature = v.signature }

-- The first vote of a voter is kept.
unfoldable pub add_vote : BlockVote → Votes → Votes
add_vote v vs = elim (lookup v.voter_id vs) [
  | some _ ↦ vs
  | none ↦ insert v.voter_id (record_of v) vs
]

abbrev pub approves : String → VoteRecord → Bool
approves hash rec = rec.block_hash == hash && rec.vote == 1

unfoldable pub count_votes : String → Votes → ℕ
count_votes hash [] = 0
count_votes hash ((_, rec) ∷ rest) =
    if approves hash rec then add64 (count_votes hash rest) 1 else count_votes hash rest

-- `p := e.validatorPowers[voterID]; if p == 0 { p = 1 }`
abbrev pub power_of : Dict String ℕ → String → ℕ
power_of powers v = let p = get_or (lookup v powers) 0 in if p == 0 then 1 else p

unfoldable pub count_power : Dict String ℕ → String → Votes → ℕ
count_power powers hash [] = 0
count_power powers hash ((v, rec) ∷ rest) =
    if approves hash rec
    then add64 (count_power powers hash rest) (power_of powers v)
    else count_power powers hash rest

unfoldable pub approval_signatures : String → Votes → Dict String String
approval_signatures hash [] = []
approval_signatures hash ((v, rec) ∷ rest) =
    if approves hash rec && not (rec.signature == "")
    then (v, rec.signature) ∷ approval_signatures hash rest
    else approval_signatures hash rest

pub data ConsensusError : Type 0 where
  unknown_proposal unknown_validator : ConsensusError

pub record VoteResult : Type 0 where
  pub threshold_met : Bool
  pub pol : Option ProofOfLock
  pub votes_for : ℕ
  pub required : ℕ
  pub error : Option ConsensusError

abbrev refused : ConsensusError → Engine → VoteResult
refused why e = record {
  threshold_met = false;
  pol = none;
  votes_for = 0;
  required = required_for_finality e;
  error = some why;
}

abbrev pub is_precommit : String → Bool
is_precommit stage = stage == "" || stage == precommit

abbrev pub stage_of : BlockVote → String
stage_of v = if v.stage == "" then precommit else v.stage

-- The block that a vote at this height and round is checked against.
unfoldable pub canonical : ℕ → ℕ → Engine → Option Block
canonical h round e = elim (lookup round (at h e.proposals_by_round)) [
  | some b ↦ some b
  | none ↦ lookup h e.proposals_by_height
]

-- The tracker hears of every approval by a registered validator.
unfoldable pub note_approval : BlockVote → ℕ → Engine → Engine
unfolding record_equivocation
note_approval v now e = elim e.slash_tracker [
  | none ↦ e
  | some st ↦
      if v.vote == 1
      then record e {
        slash_tracker = some (record_equivocation v.voter_id v.height v.block_hash now st).1;
      }
      else e
]

-- The older map of votes by height alone, which takes precommits.
abbrev pub store_legacy : BlockVote → Engine → Engine
store_legacy v e = record e {
  votes =
      if is_precommit v.stage
      then insert v.height (add_vote v (at v.height e.votes)) e.votes
      else e.votes;
}

-- Both maps of votes.
unfoldable pub store_vote : BlockVote → Engine → Engine
unfolding stage_votes set_stage_votes add_vote
store_vote v e =
    let voted = add_vote v (stage_votes v.height v.round (stage_of v) e) in
    set_stage_votes v.height v.round (stage_of v) voted (store_legacy v e)

-- The number of approvals, which for a precommit is at least that of the older map.
unfoldable pub votes_counted : BlockVote → Engine → ℕ
unfolding stage_votes count_votes
votes_counted v e =
    let staged = count_votes v.block_hash (stage_votes v.height v.round (stage_of v) e) in
    let legacy = count_votes v.block_hash (at v.height e.votes) in
    if stage_of v == precommit && ltb staged legacy then legacy else staged

unfoldable pub power_counted : BlockVote → Engine → ℕ
unfolding stage_votes count_power
power_counted v e =
    count_power e.validator_powers v.block_hash (stage_votes v.height v.round (stage_of v) e)

unfoldable pub reaches_threshold : BlockVote → Engine → Bool
unfolding votes_counted power_counted
reaches_threshold v e =
    leb (required_for_finality e) (votes_counted v e)
    && (e.total_power == 0 || leb (required_power e) (power_counted v e))

abbrev lock_of : BlockVote → Engine → ProofOfLock
lock_of v e = record {
  height = v.height;
  round = v.round;
  block_hash = v.block_hash;
  votes_for = votes_counted v e;
  total_power = e.total_power;
  votes_power = power_counted v e;
  signatures = approval_signatures v.block_hash (stage_votes v.height v.round (stage_of v) e);
}

-- The tally after the vote is stored; a prevote that reaches the threshold leaves a lock.
unfoldable pub conclude : BlockVote → Engine → VoteResult × Engine
unfolding reaches_threshold
conclude v e =
    let met = reaches_threshold v e in
    let locks = met && stage_of v == prevote in
    let result : VoteResult = record {
      threshold_met = met;
      pol = if locks then some (lock_of v e) else none;
      votes_for = votes_counted v e;
      required = required_for_finality e;
      error = none;
    } in
    (
      result,
      if locks
          then record e { proofs_of_lock = insert v.height (lock_of v e) e.proofs_of_lock }
          else e,
    )

unfoldable pub process_vote : BlockVote → ℕ → Engine → VoteResult × Engine
unfolding note_approval store_vote conclude
process_vote v now e =
    let heard = note_approval v now e in
    if not (is_registered v.voter_id e)
    then (refused unknown_validator e, e)
    else elim (canonical v.height v.round heard) [
      | none ↦ (refused unknown_proposal heard, heard)
      | some b ↦
          if b.hash == v.block_hash
          then conclude v (store_vote v heard)
          else (refused unknown_proposal heard, heard)
    ]

-- OnPrevote and OnPrecommit set the stage; OnVote calls the one that the stage names.
unfoldable pub on_vote : BlockVote → ℕ → Engine → VoteResult × Engine
unfolding process_vote
on_vote v now e =
    if v.stage == prevote
    then process_vote (record v { stage = prevote }) now e
    else process_vote (record v { stage = precommit }) now e

unfoldable pub proof_of_lock : ℕ → Engine → Option ProofOfLock
proof_of_lock h e = lookup h e.proofs_of_lock

unfoldable pub has_proof_of_lock : ℕ → ℕ → String → Engine → Bool
has_proof_of_lock h round hash e = elim (lookup h e.proofs_of_lock) [
  | none ↦ false
  | some pol ↦ pol.round == round && pol.block_hash == hash
]
