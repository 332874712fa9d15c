-- ===== src/Consensus/Engine/Membership.antt =====
-- engine.go: the validator sets that the configuration methods leave.
use synthos_collective.Prelude.{
  ℕ, ◌+◌, ◌*◌, ◌≤◌, ◌<◌, ◌≡◌, ◌≢◌, refl, true, none, some, List, [], ◌∷◌, arith, String, nat_eq,
  string_eq, eq_iff, inl, inr, Bool-cases, length, ◌==◌,
}
use synthos_collective.Words.{u64_mod, add64, add64_exact}
use synthos_collective.Dict.{Dict, lookup, insert, lookup-insert}
use synthos_collective.Dict.Sum.{measure, sum_values, sum_values-insert}
use synthos_collective.Consensus.Engine.{
  Engine, register_ids, set_validators, register_powers, set_validator_powers, registered_in,
}
use synthos_collective.Consensus.Engine.Tally.{power_of}
use synthos_collective.Consensus.Engine.Safety.Quorum.{self}
use synthos_collective.Consensus.Engine.Safety.Runs.{IsFair}

-- The loop's accumulators: every id has a power, and the sum covers the powers.
abbrev Covers : Dict String (Unit {0}) × (Dict String ℕ × ℕ) → Type 0
Covers (ids, (powers, sum)) =
    ((v : String) → lookup v ids ≢ none → 0 < measure self (lookup v powers))
    × (sum_values self powers ≤ sum)
    × (ids ≡ [] → sum ≡ 0)

inserted_some : (v : String) (ids : Dict String (Unit {0})) → insert v tt ids ≢ []
unfolding insert
inserted_some v [] = λ h. ground arith
inserted_some v ((w, t) ∷ ids) = λ h. ground arith

register_ids-Covers :
    (vs : List String) (ids : Dict String (Unit {0})) (powers : Dict String ℕ) (sum : ℕ)
    → sum + length vs < u64_mod
    → Covers (ids, (powers, sum))
    → Covers (register_ids vs ids powers sum)
      × ((register_ids vs ids powers sum).1.1 ≤ sum + length vs)
unfolding register_ids
register_ids-Covers [] ids powers sum fits c = (c, omega arith)
register_ids-Covers (v ∷ rest) ids powers sum fits c = elim (Bool-cases (v == "")) [
  | inl empty ↦
      let below = register_ids-Covers rest ids powers sum (omega arith) c in
      rw empty (below.0, omega (arith, below.1))
  | inr named ↦
      let exact = add64_exact sum 1 (omega arith) in
      let grown = sum_values-insert self v 1 powers in
      let next : Covers (insert v tt ids, (insert v 1 powers, sum + 1)) = (
        λ w known. ground (arith, lookup-insert v w tt ids, lookup-insert v w 1 powers, c.0 w),
        omega (arith, grown, c.1),
        λ none_left. ground (arith, inserted_some v ids),
      ) in
      let below =
        register_ids-Covers rest (insert v tt ids) (insert v 1 powers) (sum + 1) (omega arith)
          next in
      rw (named, exact) (below.0, omega (arith, below.1))
]

registered_present :
    (v : String) (ids : Dict String (Unit {0}))
    → ids ≢ []
    → registered_in v ids ≡ true
    → lookup v ids ≢ none
unfolding registered_in
registered_present v [] some_left ok = λ h. some_left refl
registered_present v (x ∷ xs) some_left ok = λ h. ground arith

none_known : (v : String) → lookup {V = Unit {0}} v [] ≢ none → 0 < measure self (lookup v [])
unfolding lookup
none_known v h = ground arith

-- For a list of ids short enough for the arithmetic that leaves a positive total, SetValidators
-- gives every registered validator a power and a total that covers them all.
pub set_validators-IsFair :
    (vs : List String) (e : Engine)
    → 2 * length vs + 2 < u64_mod
    → 0 < (set_validators vs e).total_power
    → IsFair (set_validators vs e)
unfolding set_validators
set_validators-IsFair vs e small pos =
    let done = register_ids vs [] [] 0 in
    let start : Covers ([], ([], 0)) = (λ v h. none_known v h, omega arith, λ h. refl) in
    let covered = register_ids-Covers vs [] [] 0 (omega arith) start in
    let left : done.0 ≢ [] = λ none_left. omega (arith, pos, covered.0.2 none_left) in
    (
      λ v ok. covered.0.0 v (registered_present v done.0 left ok),
      covered.0.1,
      pos,
      omega (arith, covered.1),
    )

register_powers-stale :
    (v : String) (wanted : Dict String ℕ) (ids : Dict String (Unit {0})) (powers : Dict String ℕ)
    (sum : ℕ)
    → lookup v ids ≡ some tt
    → lookup v wanted ≡ none
    → lookup v powers ≡ none
    → (lookup v (register_powers wanted ids powers sum).0 ≡ some tt)
      × (lookup v (register_powers wanted ids powers sum).1.0 ≡ none)
unfolding register_powers lookup
register_powers-stale v [] ids powers sum a b c = (a, c)
register_powers-stale v ((w, p) ∷ rest) ids powers sum a b c =
    let grown = add64 sum p in
    ground (
      arith,
      lookup-insert w v tt ids,
      lookup-insert w v p powers,
      eq_iff w v,
      register_powers-stale v rest ids powers sum,
      register_powers-stale v rest (insert w tt ids) (insert w p powers) grown,
    )

-- A validator that was registered and is missing from the new powers stays registered after
-- SetValidatorPowers, and its vote counts with power 1.
pub set_validator_powers-stale :
    (v : String) (wanted : Dict String ℕ) (e : Engine)
    → lookup v e.validators ≡ some tt
    → lookup v wanted ≡ none
    → let e' = set_validator_powers wanted e in
      (lookup v e'.validators ≡ some tt) × (power_of e'.validator_powers v ≡ 1)
unfolding set_validator_powers lookup
set_validator_powers-stale v wanted e known gone =
    let left = register_powers-stale v wanted e.validators [] 0 known gone refl in
    (left.0, rw left.1 refl)
