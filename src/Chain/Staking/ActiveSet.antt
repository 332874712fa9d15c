-- ===== src/Chain/Staking/ActiveSet.antt =====
-- validator_staking.go: the validator set that the registry implies, and the sum it holds.
use synthos_collective.Prelude.{
  ℕ, zero, suc, ◌≤◌, ◌<◌, ◌≡◌, refl, Bool, false, not, ◌&&◌, ◌||◌, List, [], ◌∷◌, ltb, take, length,
  length-take, if◌then◌else◌, ◌==◌, nat_eq, string_eq, text_ltb, arith, All, inl, inr, Bool-cases,
  none, some, eq_iff, same_refl,
}
use synthos_collective.Words.{add64}
use synthos_collective.Dict.{Dict, IsMap, lookup}
use synthos_collective.Chain.Types.{
  Address, UnbondingEntry, ValidatorRecord, ActiveValidator, State,
}
use synthos_collective.Chain.Staking.Params.{ValidatorStakingParams}

abbrev pub active_entry : Address → ValidatorRecord → ActiveValidator
active_entry op rec = record {
  operator = op;
  consensus_pub_key = rec.consensus_pub_key;
  moniker = rec.moniker;
  endpoint = rec.endpoint;
  power = rec.self_bond;
}

-- `minBond`
abbrev pub effective_min : ValidatorStakingParams → ℕ
effective_min p = if p.min_self_bond == 0 then 1 else p.min_self_bond

abbrev pub is_eligible : ℕ → ValidatorRecord → Bool
is_eligible min_bond rec = not (ltb rec.self_bond min_bond || rec.tombstoned)

-- The loop over the map.
unfoldable pub eligible : ℕ → Dict Address ValidatorRecord → List ActiveValidator
eligible min_bond [] = []
eligible min_bond ((op, rec) ∷ rest) =
    let others = eligible min_bond rest in
    if is_eligible min_bond rec then active_entry op rec ∷ others else others

-- The order of sort.Slice: power descending, then operator.
abbrev pub precedes : ActiveValidator → ActiveValidator → Bool
precedes a b =
    if not (a.power == b.power) then ltb b.power a.power else text_ltb a.operator b.operator

-- sort.Slice, whose result on distinct operators is the one sorted list of the elements.
unfoldable pub place : ActiveValidator → List ActiveValidator → List ActiveValidator
place v [] = v ∷ []
place v (w ∷ rest) = let below = place v rest in if precedes w v then w ∷ below else v ∷ w ∷ rest

unfoldable pub rank : List ActiveValidator → List ActiveValidator
unfolding place
rank [] = []
rank (v ∷ rest) = place v (rank rest)

-- `MaxActiveValidators > 0 && len(out) > MaxActiveValidators`, for an int by its bit pattern
unfoldable pub cap : ℕ → List ActiveValidator → List ActiveValidator
cap n out = if ltb 0 n && ltb n 9223372036854775808 && ltb n (length out) then take n out else out

unfoldable pub active_validator_set : ValidatorStakingParams → State → List ActiveValidator
unfolding eligible rank cap
active_validator_set p s =
    cap p.max_active_validators (rank (eligible (effective_min p) s.validators))

entries_total : ℕ → List UnbondingEntry → ℕ
entries_total total [] = total
entries_total total (e ∷ rest) = entries_total (add64 total e.amount) rest

locked_from : ℕ → Dict Address ValidatorRecord → ℕ
unfolding entries_total
locked_from total [] = total
locked_from total ((_, rec) ∷ rest) =
    locked_from (entries_total (add64 total rec.self_bond) rec.unbonding) rest

unfoldable pub total_validator_locked : State → ℕ
unfolding locked_from
total_validator_locked s = locked_from 0 s.validators

-- `v` stands for a record of the registry that may validate.
abbrev pub IsBacked : ℕ → Dict Address ValidatorRecord → ActiveValidator → Type 0
IsBacked min_bond registry v =
    (rec : ValidatorRecord) × (lookup v.operator registry ≡ some rec)
    × (v ≡ active_entry v.operator rec)
    × (min_bond ≤ rec.self_bond)
    × (rec.tombstoned ≡ false)

-- By power, from the highest down.
abbrev pub IsRanked : List ActiveValidator → Type 0
IsRanked [] = Unit
IsRanked (v ∷ rest) = All (λ w. w.power ≤ v.power) rest × IsRanked rest

module _ (P : ActiveValidator → Type 0) where
  place-All :
      (v : ActiveValidator) (vs : List ActiveValidator) → P v → All P vs → All P (place v vs)
  unfolding place
  place-All v [] h k = (h, tt)
  place-All v (w ∷ rest) h k = elim (Bool-cases (precedes w v)) [
    | inl first ↦ rw first (k.0, place-All v rest h k.1)
    | inr last ↦ rw last (h, k)
  ]

  rank-All : (vs : List ActiveValidator) → All P vs → All P (rank vs)
  unfolding rank
  rank-All [] k = tt
  rank-All (v ∷ rest) k = place-All v (rank rest) k.0 (rank-All rest k.1)

  take-All : (n : ℕ) (vs : List ActiveValidator) → All P vs → All P (take n vs)
  take-All zero vs k = tt
  take-All (suc n) [] k = tt
  take-All (suc n) (v ∷ rest) k = (k.0, take-All n rest k.1)

powers_raised :
    (n m : ℕ) (vs : List ActiveValidator)
    → n ≤ m
    → All (λ w. w.power ≤ n) vs
    → All (λ w. w.power ≤ m) vs
powers_raised n m [] le k = tt
powers_raised n m (v ∷ rest) le k = (omega (arith, k.0), powers_raised n m rest le k.1)

place-IsRanked :
    (v : ActiveValidator) (vs : List ActiveValidator) → IsRanked vs → IsRanked (place v vs)
unfolding place
place-IsRanked v [] k = (tt, tt)
place-IsRanked v (w ∷ rest) k = elim (Bool-cases (precedes w v)) [
  | inl first ↦
      let le : v.power ≤ w.power = ground arith in
      rw first (place-All (λ u. u.power ≤ w.power) v rest le k.0, place-IsRanked v rest k.1)
  | inr last ↦
      let le : w.power ≤ v.power = ground arith in
      rw last ((le, powers_raised w.power v.power rest le k.0), k)
]

rank-IsRanked : (vs : List ActiveValidator) → IsRanked (rank vs)
unfolding rank
rank-IsRanked [] = tt
rank-IsRanked (v ∷ rest) = place-IsRanked v (rank rest) (rank-IsRanked rest)

take-IsRanked : (n : ℕ) (vs : List ActiveValidator) → IsRanked vs → IsRanked (take n vs)
take-IsRanked zero vs k = tt
take-IsRanked (suc n) [] k = tt
take-IsRanked (suc n) (v ∷ rest) k =
    (take-All (λ w. w.power ≤ v.power) n rest k.0, take-IsRanked n rest k.1)

weaken_each :
    (P Q : ActiveValidator → Type 0) (vs : List ActiveValidator)
    → ((v : ActiveValidator) → P v → Q v)
    → All P vs
    → All Q vs
weaken_each P Q [] f k = tt
weaken_each P Q (v ∷ rest) f k = (f v k.0, weaken_each P Q rest f k.1)

-- One more entry under a new key hides no other.
one_more_entry :
    (min_bond : ℕ) (op : Address) (rec : ValidatorRecord) (m : Dict Address ValidatorRecord)
    (v : ActiveValidator)
    → lookup op m ≡ none
    → IsBacked min_bond m v
    → IsBacked min_bond ((op, rec) ∷ m) v
unfolding lookup
one_more_entry min_bond op rec m v fresh (found, at, entry, enough, free) =
    (found, ground (arith, eq_iff op v.operator), entry, enough, free)

eligible-All :
    (min_bond : ℕ) (m : Dict Address ValidatorRecord)
    → IsMap m
    → All (IsBacked min_bond m) (eligible min_bond m)
unfolding eligible lookup
eligible-All min_bond [] k = tt
eligible-All min_bond ((op, rec) ∷ m) k =
    let others =
      weaken_each (IsBacked min_bond m) (IsBacked min_bond ((op, rec) ∷ m)) (eligible min_bond m)
        (λ v b. one_more_entry min_bond op rec m v k.0 b) (eligible-All min_bond m k.1) in
    elim (Bool-cases (is_eligible min_bond rec)) [
      | inl first ↦
          rw first ((rec, ground (arith, same_refl op), refl, ground arith, ground arith), others)
      | inr last ↦ rw last others
    ]

cap-length :
    (n : ℕ) (vs : List ActiveValidator) → 0 < n → n < 9223372036854775808 → length (cap n vs) ≤ n
unfolding cap
cap-length n vs h k = ground (arith, length-take n vs)

-- For a registry without double entries the active set is ordered by power from the highest down;
-- each member is the registered record of its operator, holds at least the effective minimum and
-- is not tombstoned; and a positive cap is kept.
pub active_validator_set-IsRanked :
    (p : ValidatorStakingParams) (s : State)
    → IsMap s.validators
    → let vs = active_validator_set p s in
      IsRanked vs
      × All (IsBacked (effective_min p) s.validators) vs
      × (0 < p.max_active_validators
          → p.max_active_validators < 9223372036854775808
          → length vs ≤ p.max_active_validators)
unfolding active_validator_set cap
active_validator_set-IsRanked p s maps =
    let m = s.validators in
    let found = eligible (effective_min p) m in
    let n = p.max_active_validators in
    let P = IsBacked (effective_min p) m in
    let backed = rank-All P found (eligible-All (effective_min p) m maps) in
    elim (Bool-cases (ltb 0 n && ltb n 9223372036854775808 && ltb n (length (rank found)))) [
      | inl over ↦ rw over (
        take-IsRanked n (rank found) (rank-IsRanked found),
        take-All P n (rank found) backed,
        λ h k. length-take n (rank found),
      )
      | inr within ↦ rw within (rank-IsRanked found, backed, λ h k. ground arith)
    ]
