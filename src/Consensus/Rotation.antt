-- ===== src/Consensus/Rotation.antt =====
-- rotation.go and proposal_processor.go: whose turn it is, and which proposals may get a vote.
-- An int and a Duration are 64-bit patterns; times are nanoseconds, 0 for the zero time.
mod Tests
use native.Mathlib.Nat.{mod-lt}
use synthos_collective.Prelude.{
  ℕ, ◌+◌, ◌-◌, ◌/◌, ◌%◌, ◌≤◌, ◌<◌, ◌≡◌, ◌≢◌, ◌↔◌, Bool, true, false, not, ◌&&◌, ◌||◌, Option, none,
  some, get_or, List, [], ◌∷◌, length, get_elem?, ltb, leb, if◌then◌else◌, ◌==◌, nat_eq, string_eq,
  String, arith, inl, inr, refl, zero, suc, eq_iff, Option-cases,
}
use synthos_collective.Words.{u64_mod, add64, is_positive, add64_exact}

-- `round < 0`, for an int by its bit pattern
abbrev is_negative : ℕ → Bool
is_negative n = leb 9223372036854775808 n

-- The index is below the length, so the read is in range; "" stands for no validators.
unfoldable pub expected_proposer : List String → ℕ → ℕ → String
expected_proposer validators height round =
    let n = length validators in
    let from_zero = if is_negative round then 0 else round in
    if n == 0 then "" else get_or (get_elem? validators (add64 height from_zero % n)) ""

unfoldable pub current_round : ℕ → ℕ → ℕ
current_round elapsed interval =
    if not (is_positive interval) || not (is_positive elapsed) then 0 else elapsed / interval

-- mine, targetHeight, expectedProposer, round
unfoldable pub should_propose : String → List String → ℕ → ℕ → ℕ → Bool × (ℕ × (String × ℕ))
unfolding expected_proposer current_round
should_propose self validators height elapsed interval =
    let target = add64 height 1 in
    let round = current_round elapsed interval in
    let expected = expected_proposer validators target round in
    (not (expected == "") && expected == self, (target, (expected, round)))

-- The parts of a chain.Block that the consensus engine reads.
pub record Block : Type 0 where
  pub height : ℕ
  pub parent_hash : String
  pub timestamp : ℕ
  pub proposer_id : String
  pub hash : String

pub data ProposalError : Type 0 where
  nil_block empty_hash wrong_height broken_parent no_proposer too_far_ahead : ProposalError

-- ProcessProposal: `none` for a nil error.
unfoldable pub process_proposal : ℕ → Option Block → ℕ → String → ℕ → Option ProposalError
process_proposal drift none height tip now = some nil_block
process_proposal drift (some b) height tip now =
    if b.hash == ""
    then some empty_hash
    else if not (b.height == add64 height 1)
    then some wrong_height
    else if ltb 0 height && not (tip == "") && not (b.parent_hash == tip)
    then some broken_parent
    else if b.proposer_id == ""
    then some no_proposer
    else if not (b.timestamp == 0) && ltb (now + drift) b.timestamp
    then some too_far_ahead
    else none

get_elem?_inside :
    (vs : List String) (i : ℕ) → i < length vs → (v : String) × (get_elem? vs i ≡ some v)
get_elem?_inside [] i h = ground arith
get_elem?_inside (v ∷ vs) zero h = (v, refl)
get_elem?_inside (v ∷ vs) (suc i) h = get_elem?_inside vs i (omega arith)

-- Without wrap-around and for a round that is not negative, the proposer of a height and round is
-- the validator at index height plus round modulo the number of validators.
expected_proposer_turn :
    (vs : List String) (height round i : ℕ)
    → i < length vs
    → round < 9223372036854775808
    → height + round < u64_mod
    → (height + round) % length vs ≡ i
    → some (expected_proposer vs height round) ≡ get_elem? vs i
unfolding expected_proposer
expected_proposer_turn vs height round i inside small fits turn =
    let exact = add64_exact height round fits in
    let (v, found) = get_elem?_inside vs i inside in ground arith

-- A proposal is accepted exactly when it has a hash and a proposer, is for the next height,
-- extends the tip where there is one, and is at most the drift ahead of the clock.
process_proposal_accepts :
    (drift : ℕ) (b : Block) (height : ℕ) (tip : String) (now : ℕ)
    → height + 1 < u64_mod
    → (process_proposal drift (some b) height tip now ≡ none) ↔ (
        (b.hash ≢ "")
        × (b.height ≡ height + 1)
        × (0 < height → tip ≢ "" → b.parent_hash ≡ tip)
        × (b.proposer_id ≢ "")
        × (b.timestamp ≤ now + drift))
unfolding process_proposal
process_proposal_accepts drift b height tip now fits =
    let exact = add64_exact height 1 fits in
    let hash = eq_iff b.hash "" in
    let tips = eq_iff tip "" in
    let parents = eq_iff b.parent_hash tip in
    let proposer = eq_iff b.proposer_id "" in (λ h. ground arith, λ h. ground arith)
