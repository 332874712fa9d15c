-- ===== src/Consensus/Engine/Safety/Quorum.antt =====
-- engine.go: the approvals of two different blocks cannot both reach the required power.
use synthos_collective.Prelude.{
  ℕ, ◌+◌, ◌*◌, ◌≤◌, ◌<◌, ◌≡◌, ◌≢◌, refl, none, [], ◌∷◌, arith, All, sum_by, String, nat_eq,
  string_eq, eq_iff, if◌then◌else◌, inl, inr, Option-cases, Bool-cases, ◌==◌,
}
use synthos_collective.Words.{u64_mod, add64, mul64}
use synthos_collective.Dict.{Dict, lookup, insert, delete, lookup-delete_ne, IsMap, insert-IsMap}
use synthos_collective.Dict.Sum.{measure, sum_values, sum_values-delete}
use synthos_collective.Consensus.Engine.{BlockVote, VoteRecord, Votes, Engine, required_power}
use synthos_collective.Consensus.Engine.Tally.{approves, power_of, count_power, add_vote, record_of}

abbrev pub self : ℕ → ℕ
self n = n

-- What an entry adds to the tally of a hash, and to that of all hashes.
abbrev pub approval_weight : Dict String ℕ → String → String × VoteRecord → ℕ
approval_weight powers hash (v, rec) = if approves hash rec then power_of powers v else 0

abbrev pub weight : Dict String ℕ → String → Votes → ℕ
weight powers hash vs = sum_by (approval_weight powers hash) vs

abbrev voter_weight : Dict String ℕ → String × VoteRecord → ℕ
voter_weight powers (v, _) = power_of powers v

-- Every voter has a power of its own, so none counts with the default of 1.
abbrev pub IsPowered : Dict String ℕ → String × VoteRecord → Type 0
IsPowered powers (v, _) = power_of powers v ≤ measure self (lookup v powers)

abbrev pub IsKnown : Dict String ℕ → Votes → Type 0
IsKnown powers vs = IsMap vs × All (IsPowered powers) vs

-- The tally is the true sum where that fits.
count_power_exact :
    (powers : Dict String ℕ) (hash : String) (vs : Votes)
    → weight powers hash vs < u64_mod
    → count_power powers hash vs ≡ weight powers hash vs
unfolding count_power add64
count_power_exact powers hash [] h = refl
count_power_exact powers hash ((v, rec) ∷ rest) h =
    ground (arith, count_power_exact powers hash rest)

-- A vote approves one hash.
weights_disjoint :
    (powers : Dict String ℕ) (a b : String) (vs : Votes)
    → a ≢ b
    → weight powers a vs + weight powers b vs ≤ sum_by (voter_weight powers) vs
weights_disjoint powers a b [] ne = omega arith
weights_disjoint powers a b ((v, rec) ∷ rest) ne =
    ground
      (arith, weights_disjoint powers a b rest ne, eq_iff rec.block_hash a, eq_iff rec.block_hash b)

module _ (f : String → ℕ) where
  abbrev Under : Dict String ℕ → String × VoteRecord → Type 0
  Under powers (v, _) = f v ≤ measure self (lookup v powers)

  others_keep :
      (v : String) (powers : Dict String ℕ) (rest : Votes)
      → lookup v rest ≡ none
      → All (Under powers) rest
      → All (Under (delete v powers)) rest
  unfolding lookup
  others_keep v powers [] h k = tt
  others_keep v powers ((w, rec) ∷ rest) h k =
      let apart : v ≢ w = λ same. ground (arith, eq_iff w v) in
      let rest_free : lookup v rest ≡ none = ground arith in
      (rw (lookup-delete_ne v w powers apart) k.0, others_keep v powers rest rest_free k.1)

  -- Distinct voters share out at most all of the power.
  shares_within :
      (vs : Votes) (powers : Dict String ℕ)
      → IsMap vs
      → All (Under powers) vs
      → sum_by (λ (x : String × VoteRecord). f x.0) vs ≤ sum_values self powers
  shares_within [] powers h k = omega arith
  shares_within ((v, rec) ∷ rest) powers h k =
      let below = shares_within rest (delete v powers) h.1 (others_keep v powers rest h.0 k.1) in
      omega (arith, below, sum_values-delete self v powers, k.0)

-- Two hashes that reach the required power in one map of votes are the same.
pub quorum_unique :
    (powers : Dict String ℕ) (a b : String) (vs : Votes) (e : Engine)
    → IsKnown powers vs
    → sum_values self powers ≤ e.total_power
    → 0 < e.total_power
    → 2 * e.total_power + 2 < u64_mod
    → required_power e ≤ weight powers a vs
    → required_power e ≤ weight powers b vs
    → a ≡ b
unfolding required_power add64 mul64
quorum_unique powers a b vs e known within pos small reach_a reach_b =
    let shared = weights_disjoint powers a b vs in
    let most = shares_within (power_of powers) vs powers known.0 known.1 in
    ground (arith, shared, most, eq_iff a b)

-- The weight that a tally found.
pub counted_weight :
    (powers : Dict String ℕ) (hash : String) (vs : Votes) (total : ℕ)
    → IsKnown powers vs
    → sum_values self powers ≤ total
    → 2 * total + 2 < u64_mod
    → count_power powers hash vs ≡ weight powers hash vs
counted_weight powers hash vs total known within small =
    let most = shares_within (power_of powers) vs powers known.0 known.1 in
    let part = weight_le powers hash vs in
    count_power_exact powers hash vs (omega (arith, most, part))
  where
    weight_le :
        (powers : Dict String ℕ) (hash : String) (vs : Votes)
        → weight powers hash vs ≤ sum_by (voter_weight powers) vs
    weight_le powers hash [] = omega arith
    weight_le powers hash ((v, rec) ∷ rest) = ground (arith, weight_le powers hash rest)

inserted_keeps :
    (P : String × VoteRecord → Type 0) (v : String) (rec : VoteRecord) (vs : Votes)
    → lookup v vs ≡ none
    → P (v, rec)
    → All P vs
    → All P (insert v rec vs)
unfolding lookup insert
inserted_keeps P v rec [] h p k = (p, tt)
inserted_keeps P v rec ((w, old) ∷ rest) h p k = elim (Bool-cases (w == v)) [
  | inl same ↦ ground arith
  | inr other ↦
      let free : lookup v rest ≡ none = ground arith in
      rw other (k.0, inserted_keeps P v rec rest free p k.1)
]

weight-insert :
    (powers : Dict String ℕ) (hash v : String) (rec : VoteRecord) (vs : Votes)
    → lookup v vs ≡ none
    → weight powers hash vs ≤ weight powers hash (insert v rec vs)
unfolding lookup insert
weight-insert powers hash v rec [] h = ground arith
weight-insert powers hash v rec ((w, old) ∷ rest) h =
    ground (arith, weight-insert powers hash v rec rest)

pub add_vote-IsKnown :
    (powers : Dict String ℕ) (v : BlockVote) (vs : Votes)
    → power_of powers v.voter_id ≤ measure self (lookup v.voter_id powers)
    → IsKnown powers vs
    → IsKnown powers (add_vote v vs)
unfolding add_vote
add_vote-IsKnown powers v vs h k = elim (Option-cases (lookup v.voter_id vs)) [
  | inl missing ↦
      let rec = record_of v in
      rw (missing, add_vote)
        (
          insert-IsMap v.voter_id rec vs k.0,
          inserted_keeps (IsPowered powers) v.voter_id rec vs missing h k.1,
        )
  | inr (old, found) ↦ rw (found, add_vote) k
]

pub weight-add_vote :
    (powers : Dict String ℕ) (hash : String) (v : BlockVote) (vs : Votes)
    → weight powers hash vs ≤ weight powers hash (add_vote v vs)
unfolding add_vote
weight-add_vote powers hash v vs = elim (Option-cases (lookup v.voter_id vs)) [
  | inl missing ↦
      rw (missing, add_vote) (weight-insert powers hash v.voter_id (record_of v) vs missing)
  | inr (old, found) ↦ rw (found, add_vote) (omega arith)
]
