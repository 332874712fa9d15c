-- ===== src/Consensus/Engine/Safety/Runs.antt =====
-- engine.go: what every sequence of calls keeps, and that it locks at most one block.
use synthos_collective.Prelude.{
  ℕ, ◌+◌, ◌*◌, ◌≤◌, ◌<◌, ◌≡◌, ◌∙◌, refl, sym, ap, ◌⊎◌, ◌&&◌, true, List, [], ◌∷◌, arith, String,
  nat_eq, string_eq, eq_iff, inl, inr, Option-cases, Bool-cases, ◌==◌, if◌then◌else◌,
}
use synthos_collective.Words.{u64_mod}
use synthos_collective.Dict.{lookup, insert, lookup-insert}
use synthos_collective.Dict.Sum.{measure, sum_values}
use synthos_collective.Consensus.Rotation.{Block}
use synthos_collective.Consensus.Engine.{
  BlockVote, Votes, Engine, prevote, at, on_proposal, on_proposal_with_round, record_own_proposal,
  note_missed_slot, ensure, registered_in, required_power,
}
use synthos_collective.Consensus.Engine.Tally.{
  process_vote, stage_votes, set_stage_votes, add_vote, stage_of, note_approval, store_vote,
  store_legacy, conclude, canonical, reaches_threshold, power_counted,
}
use synthos_collective.Consensus.Engine.Safety.Quorum.{
  self, weight, IsKnown, quorum_unique, counted_weight, add_vote-IsKnown, weight-add_vote,
}

-- A call of the engine. The validator set is the caller's to keep.
pub data Call : Type 0 where
  proposed : Block → ℕ → Call
  proposed_in_round : Block → ℕ → ℕ → Call
  own_proposal : Block → ℕ → Call
  voted : BlockVote → ℕ → Call
  missed_slot : String → ℕ → Call

abbrev pub apply : Call → Engine → Engine
apply (proposed b now) e = on_proposal b now e
apply (proposed_in_round b round now) e = on_proposal_with_round b round now e
apply (own_proposal b round) e = record_own_proposal b round e
apply (voted v now) e = (process_vote v now e).1
apply (missed_slot v now) e = note_missed_slot v now e

abbrev pub run : List Call → Engine → Engine
run [] e = e
run (c ∷ cs) e = run cs (apply c e)

-- Every registered validator has a power, and the total covers them all.
abbrev pub IsFair : Engine → Type 0
IsFair e =
    ((v : String)
      → registered_in v e.validators ≡ true
      → 0 < measure self (lookup v e.validator_powers))
    × (sum_values self e.validator_powers ≤ e.total_power)
    × (0 < e.total_power)
    × (2 * e.total_power + 2 < u64_mod)

stage_votes-set :
    (h r : ℕ) (s : String) (h' r' : ℕ) (s' : String) (vs : Votes) (e : Engine)
    → stage_votes h r s (set_stage_votes h' r' s' vs e)
      ≡ (if h' == h && r' == r && s' == s then vs else stage_votes h r s e)
unfolding stage_votes set_stage_votes
stage_votes-set h r s h' r' s' vs e =
    let rounds = at h' e.votes_by_round in
    let stages = insert s' vs (at r' rounds) in
    ground (
      arith,
      lookup-insert h' h (insert r' stages rounds) e.votes_by_round,
      lookup-insert r' r stages rounds,
      lookup-insert s' s vs (at r' rounds),
    )

stage_votes-legacy :
    (h r : ℕ) (s : String) (v : BlockVote) (e : Engine)
    → stage_votes h r s (store_legacy v e) ≡ stage_votes h r s e
unfolding stage_votes
stage_votes-legacy h r s v e = refl

heard_validators :
    (v : BlockVote) (now : ℕ) (e : Engine) → (note_approval v now e).validators ≡ e.validators
unfolding note_approval
heard_validators v now e = ground arith

stage_votes-own :
    (h r : ℕ) (s : String) (b : Block) (round : ℕ) (e : Engine)
    → stage_votes h r s (record_own_proposal b round e) ≡ stage_votes h r s e
unfolding stage_votes record_own_proposal ensure
stage_votes-own h r s b round e =
    let rounds = at b.height e.votes_by_round in
    ground (
      arith,
      lookup-insert b.height h (insert round (at round rounds) rounds) e.votes_by_round,
      lookup-insert round r (at round rounds) rounds,
    )

module _ (start : Engine) (h r : ℕ) (s hash : String) (n : ℕ) where
  -- The validator set of `start`, known voters at one height, round and stage, and a weight of at
  -- least `n` behind one hash there.
  abbrev Keeps : Engine → Type 0
  Keeps e =
      (e.validators ≡ start.validators)
      × (e.validator_powers ≡ start.validator_powers)
      × (e.total_power ≡ start.total_power)
      × IsKnown start.validator_powers (stage_votes h r s e)
      × (n ≤ weight start.validator_powers hash (stage_votes h r s e))

  same_votes :
      (e e' : Engine)
      → e'.validators ≡ e.validators
      → e'.validator_powers ≡ e.validator_powers
      → e'.total_power ≡ e.total_power
      → stage_votes h r s e' ≡ stage_votes h r s e
      → Keeps e
      → Keeps e'
  same_votes e e' a b c d k = (a ∙ k.0, b ∙ k.1, c ∙ k.2, rw d k.3, rw d k.4)

  -- A vote at this place is added, and any other vote leaves the place as it was.
  store_vote-votes :
      (v : BlockVote) (e : Engine)
      → (stage_votes h r s (store_vote v e) ≡ stage_votes h r s e)
        ⊎ (stage_votes h r s (store_vote v e) ≡ add_vote v (stage_votes h r s e))
  unfolding store_vote
  store_vote-votes v e =
      let old = stage_votes v.height v.round (stage_of v) e in
      let legacy = store_legacy v e in
      let set = stage_votes-set h r s v.height v.round (stage_of v) (add_vote v old) legacy in
      elim (Bool-cases (v.height == h && v.round == r && stage_of v == s)) [
        | inl here ↦
            let height : v.height ≡ h = ground arith in
            let round : v.round ≡ r = ground arith in
            let stage : stage_of v ≡ s = ground (arith, eq_iff (stage_of v) s) in
            let place : old ≡ stage_votes h r s e = rw (height, round, stage) refl in
            inr (set ∙ rw here (ap (add_vote v) place))
        | inr elsewhere ↦ inl (set ∙ rw elsewhere (stage_votes-legacy h r s v e))
      ]

  store_vote-Keeps :
      (v : BlockVote) (e : Engine)
      → IsFair start
      → registered_in v.voter_id e.validators ≡ true
      → Keeps e
      → Keeps (store_vote v e)
  unfolding store_vote
  store_vote-Keeps v e fair ok k = elim (store_vote-votes v e) [
    | inl same ↦ same_votes e (store_vote v e) refl refl refl same k
    | inr added ↦
        let known : registered_in v.voter_id start.validators ≡ true = rw (sym k.0) ok in
        let powered = fair.0 v.voter_id known in
        let grown = weight-add_vote start.validator_powers hash v (stage_votes h r s e) in
        (
          k.0,
          k.1,
          k.2,
          rw added
              (add_vote-IsKnown start.validator_powers v (stage_votes h r s e) (ground arith) k.3),
          rw added (omega (arith, grown, k.4)),
        )
  ]

  note_approval-Keeps :
      (v : BlockVote) (now : ℕ) (e : Engine) → Keeps e → Keeps (note_approval v now e)
  unfolding note_approval stage_votes
  note_approval-Keeps v now e k =
      same_votes e (note_approval v now e) (ground arith) (ground arith) (ground arith)
        (ground arith) k

  conclude-Keeps : (v : BlockVote) (e : Engine) → Keeps e → Keeps (conclude v e).1
  unfolding conclude stage_votes
  conclude-Keeps v e k =
      same_votes e (conclude v e).1 (ground arith) (ground arith) (ground arith) (ground arith) k

  process_vote-Keeps :
      (v : BlockVote) (now : ℕ) (e : Engine)
      → IsFair start
      → Keeps e
      → Keeps (process_vote v now e).1
  unfolding process_vote
  process_vote-Keeps v now e fair k =
      let heard = note_approval v now e in
      let kept = note_approval-Keeps v now e k in
      elim (Bool-cases (registered_in v.voter_id e.validators)) [
        | inr unknown ↦ rw unknown k
        | inl ok ↦ elim (Option-cases (canonical v.height v.round heard)) [
          | inl nothing ↦ rw (ok, nothing) kept
          | inr (b, found) ↦ elim (Bool-cases (b.hash == v.block_hash)) [
            | inr other ↦ rw (ok, found, other) kept
            | inl same ↦
                let known : registered_in v.voter_id heard.validators ≡ true =
                  rw (heard_validators v now e) ok in
                let stored = store_vote-Keeps v heard fair known kept in
                rw (ok, found, same) (conclude-Keeps v (store_vote v heard) stored)
          ]
        ]
      ]

  apply-Keeps : (c : Call) (e : Engine) → IsFair start → Keeps e → Keeps (apply c e)
  unfolding on_proposal on_proposal_with_round note_missed_slot record_own_proposal stage_votes
  apply-Keeps (proposed b now) e fair k =
      same_votes e (on_proposal b now e) (ground arith) (ground arith) (ground arith) (ground arith)
        k
  apply-Keeps (proposed_in_round b round now) e fair k =
      same_votes e (on_proposal_with_round b round now e) (ground arith) (ground arith)
        (ground arith) (ground arith) k
  apply-Keeps (own_proposal b round) e fair k =
      same_votes e (record_own_proposal b round e) (ground arith) (ground arith) (ground arith)
        (stage_votes-own h r s b round e) k
  apply-Keeps (voted v now) e fair k = process_vote-Keeps v now e fair k
  apply-Keeps (missed_slot v now) e fair k =
      same_votes e (note_missed_slot v now e) (ground arith) (ground arith) (ground arith)
        (ground arith) k

  run-Keeps : (cs : List Call) (e : Engine) → IsFair start → Keeps e → Keeps (run cs e)
  run-Keeps [] e fair k = k
  run-Keeps (c ∷ cs) e fair k = run-Keeps cs (apply c e) fair (apply-Keeps c e fair k)

-- A vote that meets the threshold leaves its hash with the required power in the tally.
conclude-power :
    (v : BlockVote) (e : Engine)
    → (conclude v e).0.threshold_met ≡ true
    → let e' = (conclude v e).1 in (e'.total_power ≡ 0) ⊎ (required_power e' ≤ power_counted v e')
unfolding conclude reaches_threshold required_power power_counted stage_votes
conclude-power v e met = elim (Bool-cases (reaches_threshold v e && stage_of v == prevote)) [
  | inl locks ↦ ground arith
  | inr unlocked ↦ ground arith
]

process_vote-power :
    (v : BlockVote) (now : ℕ) (e : Engine)
    → (process_vote v now e).0.threshold_met ≡ true
    → let e' = (process_vote v now e).1 in
      (e'.total_power ≡ 0) ⊎ (required_power e' ≤ power_counted v e')
unfolding process_vote
process_vote-power v now e met =
    let heard = note_approval v now e in
    elim (Bool-cases (registered_in v.voter_id e.validators)) [
      | inr unknown ↦ ground arith
      | inl ok ↦ elim (Option-cases (canonical v.height v.round heard)) [
        | inl nothing ↦ ground arith
        | inr (b, found) ↦ elim (Bool-cases (b.hash == v.block_hash)) [
          | inr other ↦ ground arith
          | inl same ↦
              let done = conclude-power v (store_vote v heard) in
              let now_met : (conclude v (store_vote v heard)).0.threshold_met ≡ true =
                ground arith in
              rw (ok, found, same) (done now_met)
        ]
      ]
    ]

required_power_cong :
    (a b : Engine) → a.total_power ≡ b.total_power → required_power a ≡ required_power b
unfolding required_power
required_power_cong a b same = rw same refl

-- After a vote that met the threshold the required power is behind its hash.
reached :
    (start : Engine) (h r : ℕ) (s hash : String) (n : ℕ) (v : BlockVote) (now : ℕ) (e : Engine)
    → IsFair start
    → v.height ≡ h
    → v.round ≡ r
    → stage_of v ≡ s
    → Keeps start h r s hash n (process_vote v now e).1
    → (process_vote v now e).0.threshold_met ≡ true
    → required_power start
      ≤ weight start.validator_powers v.block_hash (stage_votes h r s (process_vote v now e).1)
unfolding power_counted
reached start h r s hash n v now e fair at_h at_r at_s kept met =
    let end = (process_vote v now e).1 in
    let there : stage_votes v.height v.round (stage_of v) end ≡ stage_votes h r s end =
      rw (at_h, at_r, at_s) refl in
    let exact =
      counted_weight start.validator_powers v.block_hash (stage_votes h r s end) start.total_power
        kept.3 fair.1 fair.3 in
    let same = required_power_cong end start kept.2 in
    let counted : power_counted v end
        ≡ weight start.validator_powers v.block_hash (stage_votes h r s end) =
      rw (kept.1, there) exact in
    elim (process_vote-power v now e met) [
      | inl none_left ↦ omega (arith, fair.2, kept.2)
      | inr enough ↦ omega (arith, same, counted)
    ]

-- In an engine whose validators all have a power and whose total covers them, with known voters so
-- far at a height, round and stage: if one vote there meets the threshold and, after any sequence
-- of proposals, votes and missed slots, another vote there meets it too, both are for the same
-- block.
pub one_block_locks :
    (e : Engine) (v w : BlockVote) (t u : ℕ) (cs : List Call)
    → IsFair e
    → IsKnown e.validator_powers (stage_votes v.height v.round (stage_of v) e)
    → w.height ≡ v.height
    → w.round ≡ v.round
    → stage_of w ≡ stage_of v
    → (process_vote v t e).0.threshold_met ≡ true
    → (process_vote w u (run cs (process_vote v t e).1)).0.threshold_met ≡ true
    → w.block_hash ≡ v.block_hash
one_block_locks e v w t u cs fair known same_h same_r same_s met_v met_w =
    let h = v.height in
    let r = v.round in
    let s = stage_of v in
    let a = v.block_hash in
    let req = required_power e in
    let first = process_vote-Keeps e h r s a 0 v t e fair (refl, refl, refl, known, omega arith) in
    let reach_a = reached e h r s a 0 v t e fair refl refl refl first met_v in
    let locked : Keeps e h r s a req (process_vote v t e).1 =
      (first.0, first.1, first.2, first.3, reach_a) in
    let later = run-Keeps e h r s a req cs (process_vote v t e).1 fair locked in
    let last = process_vote-Keeps e h r s a req w u (run cs (process_vote v t e).1) fair later in
    let reach_b =
      reached e h r s a req w u (run cs (process_vote v t e).1) fair same_h same_r same_s last
        met_w in
    let end = (process_vote w u (run cs (process_vote v t e).1)).1 in
    quorum_unique e.validator_powers w.block_hash a (stage_votes h r s end) e last.3 fair.1 fair.2
      fair.3 reach_b last.4
