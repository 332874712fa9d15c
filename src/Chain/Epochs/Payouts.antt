-- ===== src/Chain/Epochs/Payouts.antt =====
-- abci_support.go: what the payout of a fee epoch does to the supply, and how much it pays.
use synthos_collective.Prelude.{
  text_ltb, ◌%◌, ℕ, ◌+◌, ◌-◌, ◌*◌, ◌/◌, ◌≤◌, ◌<◌, ◌≡◌, ◌||◌, ◌∙◌, refl, sym, inl, inr, [], ◌∷◌,
  length, sum_by, ltb, if◌then◌else◌, ◌==◌, nat_eq, arith, Bool-cases,
}
use synthos_collective.Words.{u64_mod, add64_exact, sub64_exact}
use synthos_collective.Dict.{Dict}
use synthos_collective.Dict.Sum.{sum_values}
use synthos_collective.Chain.Types.{Address, State, account_of}
use synthos_collective.Chain.Citizen.Funds.{balance_of}
use synthos_collective.Chain.Governance.Execution.{balances}
use synthos_collective.Chain.Dex.Shares.{cancel_product}
use synthos_collective.Chain.Exchange.Supply.{kept_out, held-le-sum_values}
use synthos_collective.Chain.Epochs.{
  ValidatorPayout, place_share, shares_of, scale_shares, sum_shares, pay_share, pay_shares,
  due_shares, distribute_fee_epoch_payout,
}

amount_le : (balance share : ℕ) → (if ltb balance share then balance else share) ≤ balance
amount_le balance share = ground arith

pub pay_share-balances :
    (op : Address) (share : ℕ) (s : State)
    → balances s < u64_mod
    → balances (pay_share op share s).1 ≡ balances s
unfolding pay_share
pay_share-balances op share s small =
    let acc = account_of s.treasury_address s in
    let amount = if ltb acc.balance share then acc.balance else share in
    let held = held-le-sum_values balance_of refl s.treasury_address s.accounts in
    let le = amount_le acc.balance share in
    kept_out balance_of refl s.treasury_address op (record acc { balance = acc.balance - amount }) _
      amount s.accounts small le (sym (sub64_exact acc.balance amount le (omega arith))) refl

pay_shares-balances :
    (epoch : ℕ) (shares : Dict Address ℕ) (s : State)
    → balances s < u64_mod
    → balances (pay_shares epoch shares s).1 ≡ balances s
unfolding pay_shares
pay_shares-balances epoch [] s small = refl
pay_shares-balances epoch ((op, share) ∷ rest) s small = elim (Bool-cases (share == 0)) [
  | inl none_due ↦ rw none_due (pay_shares-balances epoch rest s small)
  | inr due ↦
      let one = pay_share-balances op share s small in
      rw due (pay_shares-balances epoch rest (pay_share op share s).1 (rw one small) ∙ one)
]

-- For balances that sum to less than 2^64, the payout of a fee epoch keeps their sum, and leaves
-- the counters of the epoch at 0.
pub distribute_fee_epoch_payout-balances :
    (epoch : ℕ) (s : State)
    → balances s < u64_mod
    → let s' = (distribute_fee_epoch_payout epoch s).1 in
      (balances s' ≡ balances s)
      × (s'.fee_epoch_treasury_income ≡ 0)
      × (s'.fee_epoch_total_power ≡ 0)
      × (length s'.fee_epoch_signed_power ≡ 0)
unfolding distribute_fee_epoch_payout
distribute_fee_epoch_payout-balances epoch s small =
    elim (Bool-cases (
      s.fee_epoch_total_power == 0
      || (s.fee_epoch_treasury_income / 2 == 0 || length s.fee_epoch_signed_power == 0))) [
        | inl idle ↦ rw idle (refl, refl, refl, refl)
        | inr due ↦ rw due (pay_shares-balances epoch (due_shares s) s small, refl, refl, refl)
      ]

abbrev pub itself : ℕ → ℕ
itself n = n

place_share-sum :
    (op : Address) (n : ℕ) (m : Dict Address ℕ)
    → sum_values itself (place_share op n m) ≡ n + sum_values itself m
unfolding place_share
place_share-sum op n [] = omega arith
place_share-sum op n ((op', n') ∷ rest) = elim (Bool-cases (text_ltb op' op)) [
  | inl h ↦ rw h (omega (arith, place_share-sum op n rest))
  | inr h ↦ rw h refl
]

reduced_le : (n d m : ℕ) → 0 < m → n / d % m * d ≤ n
reduced_le n d m pos =
    let floor : n / d * d ≤ n = omega arith in
    let low : n / d % m ≤ n / d = omega arith in
    let up : n / d % m * d ≤ n / d * d = grind arith in omega arith

added_shares :
    (x y t pool p rest : ℕ)
    → x * t ≤ pool * p
    → y * t ≤ pool * rest
    → (x + y) * t ≤ pool * (p + rest)
added_shares x y t pool p rest one more = omega arith

shares_of-sum :
    (pool total : ℕ) (powers : Dict Address ℕ)
    → sum_values itself (shares_of pool total powers) * total ≤ pool * sum_values itself powers
unfolding shares_of
shares_of-sum pool total [] = omega arith
shares_of-sum pool total ((op, power) ∷ rest) =
    let share = pool * power / total % u64_mod in
    rw (place_share-sum op share (shares_of pool total rest)) (
      added_shares share (sum_values itself (shares_of pool total rest)) total pool power
        (sum_values itself rest) (reduced_le (pool * power) total u64_mod (omega arith))
        (shares_of-sum pool total rest))

scale_shares-sum :
    (balance sum : ℕ) (shares : Dict Address ℕ)
    → sum_values itself (scale_shares balance sum shares) * sum ≤ balance * sum_values itself shares
unfolding scale_shares
scale_shares-sum balance sum [] = omega arith
scale_shares-sum balance sum ((op, share) ∷ rest) =
    let one : share * balance / sum % u64_mod * sum ≤ balance * share =
      omega (arith, reduced_le (share * balance) sum u64_mod (omega arith)) in
    added_shares (share * balance / sum % u64_mod)
      (sum_values itself (scale_shares balance sum rest)) sum balance share (sum_values itself rest)
      one (scale_shares-sum balance sum rest)

sum_shares-exact :
    (sum : ℕ) (shares : Dict Address ℕ)
    → sum + sum_values itself shares < u64_mod
    → sum_shares sum shares ≡ sum + sum_values itself shares
sum_shares-exact sum [] small = omega arith
sum_shares-exact sum ((op, share) ∷ rest) small =
    let exact = add64_exact sum share (omega arith) in
    rw exact (omega (arith, sum_shares-exact (sum + share) rest (omega arith)))

pay_share-amount : (op : Address) (share : ℕ) (s : State) → (pay_share op share s).0 ≤ share
unfolding pay_share
pay_share-amount op share s = ground arith

abbrev pub paid_amount : ValidatorPayout → ℕ
paid_amount p = p.amount

pay_shares-sum :
    (epoch : ℕ) (shares : Dict Address ℕ) (s : State)
    → sum_by paid_amount (pay_shares epoch shares s).0 ≤ sum_values itself shares
unfolding pay_shares
pay_shares-sum epoch [] s = omega arith
pay_shares-sum epoch ((op, share) ∷ rest) s = elim (Bool-cases (share == 0)) [
  | inl none_due ↦ rw none_due (omega (arith, pay_shares-sum epoch rest s))
  | inr due ↦
      let one = pay_share-amount op share s in
      let more = pay_shares-sum epoch rest (pay_share op share s).1 in rw due (omega arith)
]

-- The shares of a covered epoch are at most the pool.
shares_of-le :
    (pool total : ℕ) (powers : Dict Address ℕ)
    → 0 < total
    → sum_values itself powers ≤ total
    → sum_values itself (shares_of pool total powers) ≤ pool
shares_of-le pool total powers pos covered =
    let sums = shares_of-sum pool total powers in
    let whole : pool * sum_values itself powers ≤ pool * total = grind arith in
    cancel_product (sum_values itself (shares_of pool total powers)) pool total pos (omega arith)

scale_shares-le :
    (balance sum : ℕ) (shares : Dict Address ℕ)
    → 0 < sum
    → sum_values itself shares ≤ sum
    → sum_values itself (scale_shares balance sum shares) ≤ balance
scale_shares-le balance sum shares pos covered =
    let sums = scale_shares-sum balance sum shares in
    let whole : balance * sum_values itself shares ≤ balance * sum = grind arith in
    cancel_product (sum_values itself (scale_shares balance sum shares)) balance sum pos
      (omega arith)

due_shares-le :
    (s : State)
    → 0 < s.fee_epoch_total_power
    → sum_values itself s.fee_epoch_signed_power ≤ s.fee_epoch_total_power
    → s.fee_epoch_treasury_income < u64_mod
    → (sum_values itself (due_shares s) ≤ s.fee_epoch_treasury_income / 2)
      × (sum_values itself (due_shares s) ≤ (account_of s.treasury_address s).balance)
unfolding due_shares
due_shares-le s pos covered small =
    let pool = s.fee_epoch_treasury_income / 2 in
    let shares = shares_of pool s.fee_epoch_total_power s.fee_epoch_signed_power in
    let le = shares_of-le pool s.fee_epoch_total_power s.fee_epoch_signed_power pos covered in
    let balance = (account_of s.treasury_address s).balance in
    let exact = sum_shares-exact 0 shares (omega arith) in
    elim (Bool-cases (ltb balance (sum_shares 0 shares))) [
      | inr enough ↦ rw enough (le, ground (arith, enough))
      | inl short ↦
          let less : balance < sum_shares 0 shares = ground (arith, short) in
          let scaled =
            scale_shares-le balance (sum_shares 0 shares) shares (omega arith) (omega arith) in
          rw short (omega arith, scaled)
    ]

-- Where the signed powers of the epoch are within its total power, the payouts together are at most
-- half of what the treasury earned in the epoch, and at most what it has.
pub distribute_fee_epoch_payout_bounds :
    (epoch : ℕ) (s : State)
    → sum_values itself s.fee_epoch_signed_power ≤ s.fee_epoch_total_power
    → s.fee_epoch_treasury_income < u64_mod
    → let payouts = (distribute_fee_epoch_payout epoch s).0 in
      (sum_by paid_amount payouts ≤ s.fee_epoch_treasury_income / 2)
      × (sum_by paid_amount payouts ≤ (account_of s.treasury_address s).balance)
unfolding distribute_fee_epoch_payout
distribute_fee_epoch_payout_bounds epoch s covered small =
    elim (Bool-cases (
      s.fee_epoch_total_power == 0
      || (s.fee_epoch_treasury_income / 2 == 0 || length s.fee_epoch_signed_power == 0))) [
        | inl idle ↦ rw idle (omega arith, omega arith)
        | inr due ↦
            let pos : 0 < s.fee_epoch_total_power = ground (arith, due) in
            let le = due_shares-le s pos covered small in
            let sum = pay_shares-sum epoch (due_shares s) s in rw due (omega arith, omega arith)
      ]
