-- ===== src/Consensus/Engine.antt =====
-- engine.go and messages.go: the engine's state and every method that changes it. A Go map of maps
-- is a Dict of Dicts, whose missing entry reads as the empty map. An int is its bit pattern; the
-- engine only compares rounds and votes for equality.
pub mod Tally
pub mod Safety
pub mod Membership
mod Tests
use synthos_collective.Prelude.{
  ℕ, ◌+◌, ◌-◌, ◌*◌, ◌/◌, Bool, true, false, not, ◌&&◌, ◌||◌, Option, none, some, get_or, List, [],
  ◌∷◌, length, ltb, leb, if◌then◌else◌, ◌==◌, nat_eq, string_eq, String, text_ltb,
}
use synthos_collective.Words.{add64, sub64, mul64, is_positive}
use synthos_collective.Dict.{Dict, lookup, insert}
use synthos_collective.Consensus.Rotation.{Block}
use synthos_collective.Consensus.Slashing.{
  SlashingTracker, detect_double_signing, record_equivocation, record_missed_block,
  forget_votes_at_height,
}

abbrev pub prevote : String
prevote = "prevote"

abbrev pub precommit : String
precommit = "precommit"

pub record BlockVote : Type 0 where
  pub block_hash : String
  pub height : ℕ
  pub round : ℕ
  pub stage : String
  pub voter_id : String
  pub vote : ℕ
  pub signature : String

pub record VoteRecord : Type 0 where
  pub block_hash : String
  pub vote : ℕ
  pub signature : String

pub record ProofOfLock : Type 0 where
  pub height : ℕ
  pub round : ℕ
  pub block_hash : String
  pub votes_for : ℕ
  pub total_power : ℕ
  pub votes_power : ℕ
  pub signatures : Dict String String

abbrev pub Votes : Type 0
Votes = Dict String VoteRecord

pub record Engine : Type 0 where
  pub total_validators : ℕ
  pub validators : Dict String (Unit {0})
  pub validator_powers : Dict String ℕ
  pub total_power : ℕ
  pub proposals_by_height : Dict ℕ Block
  pub proposals_by_round : Dict ℕ (Dict ℕ Block)  -- proposalsByHeightAndRound
  pub votes : Dict ℕ Votes
  pub votes_by_round : Dict ℕ (Dict ℕ (Dict String Votes))  -- votesByHeightAndRound
  pub proofs_of_lock : Dict ℕ ProofOfLock
  pub slash_tracker : Option SlashingTracker

unfoldable pub new_engine : ℕ → Engine
new_engine n = record {
  total_validators = n;
  validators = [];
  validator_powers = [];
  total_power = n;
  proposals_by_height = [];
  proposals_by_round = [];
  votes = [];
  votes_by_round = [];
  proofs_of_lock = [];
  slash_tracker = none;
}

-- m[k], with the empty map for a missing entry
abbrev pub at : {V : Type 0} → ℕ → Dict ℕ (List V) → List V
at k m = get_or (lookup k m) []

-- The loop of SetValidators: the ids, each with power 1, and their number with repetitions.
unfoldable pub register_ids :
    List String
    → Dict String (Unit {0})
    → Dict String ℕ
    → ℕ
    → Dict String (Unit {0}) × (Dict String ℕ × ℕ)
register_ids [] ids powers sum = (ids, (powers, sum))
register_ids (v ∷ rest) ids powers sum =
    if v == ""
    then register_ids rest ids powers sum
    else register_ids rest (insert v tt ids) (insert v 1 powers) (add64 sum 1)

unfoldable pub set_validators : List String → Engine → Engine
unfolding register_ids
set_validators vs e =
    let (ids, (powers, sum)) = register_ids vs [] [] 0 in
    record e {
      validators = ids;
      validator_powers = powers;
      total_validators = length ids;
      total_power = sum;
    }

unfoldable pub set_validator_power : String → ℕ → Engine → Engine
set_validator_power v power e =
    let ids = insert v tt e.validators in
    let old = get_or (lookup v e.validator_powers) 0 in
    record e {
      validators = ids;
      validator_powers = insert v power e.validator_powers;
      total_power = add64 (sub64 e.total_power old) power;
      total_validators = length ids;
    }

-- The loop of SetValidatorPowers, which adds to the old validators.
unfoldable pub register_powers :
    Dict String ℕ
    → Dict String (Unit {0})
    → Dict String ℕ
    → ℕ
    → Dict String (Unit {0}) × (Dict String ℕ × ℕ)
register_powers [] ids powers sum = (ids, (powers, sum))
register_powers ((v, p) ∷ rest) ids powers sum =
    if not (v == "") && ltb 0 p
    then register_powers rest (insert v tt ids) (insert v p powers) (add64 sum p)
    else register_powers rest ids powers sum

unfoldable pub set_validator_powers : Dict String ℕ → Engine → Engine
unfolding register_powers
set_validator_powers wanted e =
    let (ids, (powers, sum)) = register_powers wanted e.validators [] 0 in
    record e {
      validators = ids;
      validator_powers = powers;
      total_power = sum;
      total_validators = length ids;
    }

unfoldable pub validator_power : String → Engine → ℕ
validator_power v e = elim (lookup v e.validator_powers) [
  | some p ↦ p
  | none ↦ elim (lookup v e.validators) [ none ↦ 0 | some _ ↦ 1 ]
]

-- `max(1, t / 3)` for an int t
abbrev third : ℕ → ℕ
third t = if is_positive t then (if ltb (t / 3) 1 then 1 else t / 3) else 1

-- requiredForFinalityLocked
unfoldable pub required_for_finality : Engine → ℕ
required_for_finality e =
    if is_positive e.total_validators then third (add64 (mul64 2 e.total_validators) 2) else 1

-- requiredPowerForFinalityLocked
unfoldable pub required_power : Engine → ℕ
required_power e =
    let req = add64 (mul64 2 e.total_power) 2 / 3 in
    if e.total_power == 0 then 1 else if ltb req 1 then 1 else req

-- isRegisteredValidator: an engine with no validators takes every voter.
unfoldable pub registered_in : String → Dict String (Unit {0}) → Bool
registered_in v [] = true
registered_in v (x ∷ xs) = elim (lookup v (x ∷ xs)) [ none ↦ false | some _ ↦ true ]

abbrev pub is_registered : String → Engine → Bool
is_registered v e = registered_in v e.validators

-- The smaller hash stays; an empty place is taken.
abbrev pub prefer : Block → Option Block → Block
prefer b none = b
prefer b (some old) = if text_ltb b.hash old.hash then b else old

-- m[k] = make(...) where nothing is there
unfoldable pub ensure : {V : Type 0} → ℕ → Dict ℕ (List V) → Dict ℕ (List V)
ensure k m = insert k (at k m) m

abbrev track : (SlashingTracker → SlashingTracker) → Engine → Engine
track f e = record e {
  slash_tracker = elim e.slash_tracker [ none ↦ none | some st ↦ some (f st) ];
}

abbrev report_proposal : Block → ℕ → Engine → Engine
report_proposal b now e =
    if b.proposer_id == ""
    then e
    else track (λ st. (detect_double_signing b.proposer_id b.height now st).1) e

unfoldable pub note_missed_slot : String → ℕ → Engine → Engine
unfolding record_missed_block
note_missed_slot v now e = if v == "" then e else track (λ st. (record_missed_block v now st).1) e

-- OnProposal of a block that is not nil
unfoldable pub on_proposal : Block → ℕ → Engine → Engine
unfolding ensure
on_proposal b now e =
    if b.hash == ""
    then e
    else report_proposal b now (record e {
      proposals_by_height =
          insert b.height (prefer b (lookup b.height e.proposals_by_height)) e.proposals_by_height;
      votes = ensure b.height e.votes;
    })

unfoldable pub on_proposal_with_round : Block → ℕ → ℕ → Engine → Engine
unfolding ensure
on_proposal_with_round b round now e =
    let rounds = at b.height e.proposals_by_round in
    if b.hash == ""
    then e
    else report_proposal b now (record e {
      proposals_by_round =
          insert b.height (insert round (prefer b (lookup round rounds)) rounds)
            e.proposals_by_round;
      proposals_by_height =
          insert b.height (prefer b (lookup b.height e.proposals_by_height)) e.proposals_by_height;
      votes = ensure b.height e.votes;
    })

-- RecordOwnProposal and RecordReceivedProposal are this at round 0.
unfoldable pub record_own_proposal : Block → ℕ → Engine → Engine
unfolding ensure forget_votes_at_height
record_own_proposal b round e =
    let rounds = at b.height e.proposals_by_round in
    if b.hash == ""
    then e
    else track (forget_votes_at_height b.height) (record e {
      proposals_by_height = insert b.height b e.proposals_by_height;
      proposals_by_round = insert b.height (insert round b rounds) e.proposals_by_round;
      votes_by_round =
          insert b.height (ensure round (at b.height e.votes_by_round)) e.votes_by_round;
      votes = insert b.height [] e.votes;
    })
