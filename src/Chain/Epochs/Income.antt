-- ===== src/Chain/Epochs/Income.antt =====
-- abci_support.go: what a block's fees add to the treasury, the proposer and the epoch, and that an
-- epoch's votes never count more signed power than power.
use synthos_collective.Prelude.{
  ℕ, ◌+◌, ◌-◌, ◌*◌, ◌/◌, ◌≤◌, ◌<◌, ◌≡◌, ◌&&◌, ◌||◌, refl, inl, inr, Bool, not, get_or, List, [],
  ◌∷◌, sum_by, ◌==◌, nat_eq, string_eq, arith, Bool-cases, Option-cases,
}
use synthos_collective.Words.{u64_mod, add64, add64_exact, mul64_exact}
use synthos_collective.Dict.{Dict, lookup, insert}
use synthos_collective.Dict.Sum.{sum_values, sum_values-insert}
use synthos_collective.Chain.Types.{Address, Account, State, Tx, account_of}
use synthos_collective.Chain.Monad.{ok, Result-cases}
use synthos_collective.Chain.SafeMath.{safe_add}
use synthos_collective.Chain.Citizen.Funds.{balance_of}
use synthos_collective.Chain.Governance.Execution.{balances}
use synthos_collective.Chain.Exchange.Supply.{sum_values-write}
use synthos_collective.Chain.Blocks.Fees.{total_fees, burned_part, credit_proposer_fees}
use synthos_collective.Chain.Blocks.Rewards.{fee_of, total_fees-sum, credited}
use synthos_collective.Chain.Epochs.{
  FeeSplit, apply_fees_v1, credit_treasury, apply_fees_v2, apply_block_fees, is_fee_model_v1,
  record_fee_epoch_vote, distribute_fee_epoch_payout,
}
use synthos_collective.Chain.Epochs.Payouts.{
  itself, paid_amount, distribute_fee_epoch_payout_bounds,
}

-- The signed powers of the epoch are within its total power.
abbrev pub IsCovered : State → Type 0
IsCovered s = sum_values itself s.fee_epoch_signed_power ≤ s.fee_epoch_total_power

signed_sum :
    (op : Address) (power : ℕ) (signed : Dict Address ℕ)
    → sum_values itself signed + power < u64_mod
    → sum_values itself (insert op (add64 (get_or (lookup op signed) 0) power) signed)
      ≤ sum_values itself signed + power
unfolding add64
signed_sum op power signed small =
    let written = sum_values-insert itself op (add64 (get_or (lookup op signed) 0) power) signed in
    elim (Option-cases (lookup op signed)) [
      | inl missing ↦ ground (arith, missing)
      | inr (n, found) ↦ ground (arith, found)
    ]

vote-IsCovered :
    (op : Address) (power : ℕ) (committed : Bool) (s : State)
    → s.fee_epoch_total_power + power < u64_mod
    → IsCovered s
    → let s' = record_fee_epoch_vote op power committed s in
      IsCovered s' × (s'.fee_epoch_total_power ≡ s.fee_epoch_total_power + power)
unfolding record_fee_epoch_vote
vote-IsCovered op power committed s small covered =
    let exact = add64_exact s.fee_epoch_total_power power small in
    let more = signed_sum op power s.fee_epoch_signed_power (omega arith) in
    elim (Bool-cases (power == 0)) [
      | inl idle ↦ rw idle (covered, ground (arith, idle))
      | inr some_power ↦ elim (Bool-cases (committed && not (op == ""))) [
        | inl counted ↦ rw (some_power, counted) (omega arith, exact)
        | inr missed ↦ rw (some_power, missed) (omega arith, exact)
      ]
    ]

-- What the engine reports of one validator in a block: its operator, its power, and whether it
-- signed.
abbrev pub FeeVote : Type 0
FeeVote = (Address × ℕ) × Bool

abbrev pub vote_power : FeeVote → ℕ
vote_power ((_, power), _) = power

unfoldable pub record_votes : List FeeVote → State → State
unfolding record_fee_epoch_vote
record_votes [] s = s
record_votes (((op, power), committed) ∷ rest) s =
    record_votes rest (record_fee_epoch_vote op power committed s)

votes-IsCovered :
    (votes : List FeeVote) (s : State)
    → s.fee_epoch_total_power + sum_by vote_power votes < u64_mod
    → IsCovered s
    → IsCovered (record_votes votes s)
unfolding record_votes
votes-IsCovered [] s small covered = covered
votes-IsCovered (((op, power), committed) ∷ rest) s small covered =
    let (kept, total) = vote-IsCovered op power committed s (omega arith) covered in
    votes-IsCovered rest (record_fee_epoch_vote op power committed s) (omega arith) kept

-- From a state whose signed powers are within its total power, after any votes whose powers fit in
-- 64 bits with it, the payouts of the epoch together are at most half of what the treasury earned
-- in the epoch, and at most what it has.
pub record_votes_bounds :
    (epoch : ℕ) (votes : List FeeVote) (s : State)
    → IsCovered s
    → s.fee_epoch_total_power + sum_by vote_power votes < u64_mod
    → (record_votes votes s).fee_epoch_treasury_income < u64_mod
    → let s' = record_votes votes s in
      let payouts = (distribute_fee_epoch_payout epoch s').0 in
      (sum_by paid_amount payouts ≤ s'.fee_epoch_treasury_income / 2)
      × (sum_by paid_amount payouts ≤ (account_of s'.treasury_address s').balance)
record_votes_bounds epoch votes s covered small income =
    distribute_fee_epoch_payout_bounds epoch (record_votes votes s)
      (votes-IsCovered votes s small covered) income

-- The parts of a split add up, to the fees.
abbrev pub AddsUp : List Tx → FeeSplit → Type 0
AddsUp txs split =
    (split.total ≡ sum_by fee_of txs)
    × (split.burned + split.to_treasury + split.to_proposer ≡ split.total)

half_le : (total : ℕ) → total * 50 < u64_mod → burned_part total ≤ total
half_le total small = let exact = mul64_exact total 50 small in omega arith

treasury_credited :
    (amount : ℕ) (split split' : FeeSplit) (s : State)
    → (credit_treasury amount split s).0 ≡ ok split'
    → let s' = (credit_treasury amount split s).1 in
      (split' ≡ split) × (balances s' ≡ balances s + amount)
unfolding credit_treasury safe_add
treasury_credited amount split split' s h =
    let acc = account_of s.treasury_address s in
    let paid : Account = record acc { balance = acc.balance + amount } in
    let written = sum_values-write balance_of refl s.treasury_address paid s.accounts in
    elim (Result-cases (safe_add acc.balance amount)) [
      | inl (e, bad) ↦ ground (arith, bad)
      | inr (balance, fine) ↦ elim (Result-cases (safe_add s.fee_epoch_treasury_income amount)) [
        | inl (e, bad) ↦ ground (arith, fine, bad)
        | inr (income, more) ↦ (ground (arith, fine, more), ground (arith, fine, more))
      ]
    ]

-- What a state and a split of a block's fees come to.
abbrev pub Settled : List Tx → FeeSplit → State → State → Type 0
Settled txs split s s' =
    AddsUp txs split × (balances s' ≡ balances s + split.to_treasury + split.to_proposer)

v1-Settled :
    (txs : List Tx) (proposer : Address) (split : FeeSplit) (s : State)
    → sum_by fee_of txs * 50 < u64_mod
    → (apply_fees_v1 txs proposer s).0 ≡ ok split
    → Settled txs split s (apply_fees_v1 txs proposer s).1
unfolding apply_fees_v1
v1-Settled txs proposer split s small h = elim (Result-cases (total_fees 0 txs)) [
  | inl (e, bad) ↦ ground (arith, bad)
  | inr (total, fees) ↦ elim (Result-cases (credit_proposer_fees txs proposer s)) [
    | inl (e, bad) ↦ ground (arith, fees, bad)
    | inr (s', paid) ↦
        let sum = total_fees-sum 0 txs total fees in
        let half = half_le total (omega arith) in
        let added = credited txs proposer s s' total fees paid in
        elim (Bool-cases (total == 0 || proposer == "")) [
          | inl all_ ↦ (
            (ground (arith, fees, paid, all_), ground (arith, fees, paid, all_)),
            ground (arith, fees, paid, all_),
          )
          | inr some_ ↦ (
            (ground (arith, fees, paid, some_), ground (arith, fees, paid, some_)),
            ground (arith, fees, paid, some_),
          )
        ]
  ]
]

v2-Settled :
    (txs : List Tx) (split : FeeSplit) (s : State)
    → sum_by fee_of txs * 50 < u64_mod
    → (apply_fees_v2 txs s).0 ≡ ok split
    → Settled txs split s (apply_fees_v2 txs s).1
unfolding apply_fees_v2
v2-Settled txs split s small h = elim (Result-cases (total_fees 0 txs)) [
  | inl (e, bad) ↦ ground (arith, bad)
  | inr (total, fees) ↦
      let sum = total_fees-sum 0 txs total fees in
      let half = half_le total (omega arith) in
      let kept = total - burned_part total in
      let due : FeeSplit = record {
        total = total;
        burned = burned_part total;
        to_treasury = kept;
        to_proposer = 0;
      } in
      elim (Bool-cases (total == 0)) [
        | inl nothing ↦ (
          (ground (arith, fees, nothing), ground (arith, fees, nothing)),
          ground (arith, fees, nothing),
        )
        | inr some_ ↦ elim (Bool-cases (s.treasury_address == "")) [
          | inl missing ↦ ground (arith, fees, some_, missing)
          | inr named ↦
              let ran : apply_fees_v2 txs s ≡ credit_treasury kept due s =
                rw (fees, some_, named, apply_fees_v2) refl in
              let went : (credit_treasury kept due s).0 ≡ ok split =
                ground (arith, fees, some_, named, h) in
              let (same, added) = treasury_credited kept due split s went in
              rw (ran, same) ((omega arith, omega arith), omega arith)
        ]
      ]
]

-- Under either model, for fees whose sum times 50 fits in 64 bits, a split that is returned without
-- an error adds up to the fees, and the sum of all balances rises by what goes to the treasury and
-- to the proposer.
pub apply_block_fees-Settled :
    (txs : List Tx) (proposer : Address) (height : ℕ) (split : FeeSplit) (s : State)
    → sum_by fee_of txs * 50 < u64_mod
    → (apply_block_fees txs proposer height s).0 ≡ ok split
    → Settled txs split s (apply_block_fees txs proposer height s).1
unfolding apply_block_fees
apply_block_fees-Settled txs proposer height split s small h =
    elim (Bool-cases (is_fee_model_v1 height)) [
      | inl old ↦
          let went : (apply_fees_v1 txs proposer s).0 ≡ ok split = ground (arith, old, h) in
          rw old (v1-Settled txs proposer split s small went)
      | inr new ↦
          let went : (apply_fees_v2 txs s).0 ≡ ok split = ground (arith, new, h) in
          rw new (v2-Settled txs split s small went)
    ]
