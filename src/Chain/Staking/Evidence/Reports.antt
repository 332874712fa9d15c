-- ===== src/Chain/Staking/Evidence/Reports.antt =====
-- validator_staking.go: what an accepted report of a double signature does to the money.
use synthos_collective.Prelude.{
  ℕ, ◌+◌, ◌-◌, ◌*◌, ◌/◌, ◌≤◌, ◌<◌, ◌≡◌, ◌≢◌, none, [], ◌∷◌, arith, inl, inr, eq_iff, string_eq,
  nat_eq, String, Option-cases, Bool,
}
use synthos_collective.Words.{u64_mod, add64, mul64, mul64_exact}
use synthos_collective.Dict.{Dict, lookup}
use synthos_collective.Dict.Sum.{sum_values, sum_values-insert, measure, measure-le-sum_values}
use synthos_collective.Chain.Types.{Address, Account, State, Tx, ValidatorRecord, account_of}
use synthos_collective.Chain.Monad.{ok, Result-cases}
use synthos_collective.Chain.SafeMath.{safe_add}
use synthos_collective.Chain.Citizen.Funds.{balance_of}
use synthos_collective.Chain.Staking.{TxContext, checked_add}
use synthos_collective.Chain.Staking.Keys.{operator_for_key}
use synthos_collective.Chain.Staking.Funds.{locked_in, stakes_and_balances}
use synthos_collective.Chain.Staking.Evidence.{
  slash_and_tombstone, punish, check_evidence, apply_validator_evidence,
}
use synthos_collective.Chain.Staking.Evidence.Slash.{slash_exact}

-- The reporter's share of a slash.
reward_bounds :
    (slashed bps : ℕ)
    → bps ≤ 10_000
    → slashed * 10_000 < u64_mod
    → mul64 slashed bps / 10_000 ≤ slashed
reward_bounds slashed bps le fits =
    let grown : slashed * bps ≤ slashed * 10_000 = grind arith in
    let exact = mul64_exact slashed bps (omega (arith, grown)) in rw exact (omega (arith, grown))

-- The operator that a key belongs to has a record.
operator_found :
    (key : String) (m : Dict Address ValidatorRecord)
    → operator_for_key key m ≢ ""
    → lookup (operator_for_key key m) m ≢ none
unfolding operator_for_key lookup
operator_found key [] h = ground arith
operator_found key ((op, rec) ∷ m) h = ground (arith, operator_found key m, eq_iff op op)

punish-stakes :
    (tx : Tx) (operator : Address) (key : String) (offender : ValidatorRecord) (reporter : Account)
    (s : State)
    → stakes_and_balances (punish tx operator key offender reporter s)
        + (measure balance_of (lookup tx.from s.accounts)
            + measure locked_in (lookup operator s.validators))
      ≡ stakes_and_balances s + (balance_of reporter + locked_in offender)
unfolding punish
punish-stakes tx operator key offender reporter s = ground (
  arith,
  sum_values-insert balance_of tx.from reporter s.accounts,
  sum_values-insert locked_in operator offender s.validators,
)

-- Where both fractions are at most the whole and the stakes times 10000 fit in 64 bits, an accepted
-- report takes at least the fee out of the sum of all balances and stakes; a refused one changes
-- nothing.
pub apply_validator_evidence-funds :
    (verify : String → String → String → Bool) (ctx : TxContext) (tx : Tx) (s : State)
    → ctx.params.slash_fraction_bps ≤ 10_000
    → ctx.params.reporter_reward_bps ≤ 10_000
    → sum_values locked_in s.validators * 10_000 < u64_mod
    → let (r, s') = apply_validator_evidence verify ctx tx s in
      (r ≡ ok tt → stakes_and_balances s' + tx.fee ≤ stakes_and_balances s) × (r ≢ ok tt → s' ≡ s)
unfolding apply_validator_evidence checked_add safe_add
apply_validator_evidence-funds verify ctx tx s fraction share small =
    elim (Result-cases (check_evidence verify ctx tx)) [
      | inl (e, bad) ↦ (λ h. ground arith, λ h. ground arith)
      | inr (key, good) ↦
          let operator = operator_for_key key s.validators in
          let reporter = account_of tx.from s in
          let held = measure-le-sum_values locked_in operator s.validators in
          let known = operator_found key s.validators in
          let named = eq_iff operator "" in
          elim (Option-cases (lookup operator s.validators)) [
            | inl missing ↦ (λ h. ground arith, λ h. ground arith)
            | inr (offender, found) ↦
                let bps = ctx.params.slash_fraction_bps in
                let slash = slash_and_tombstone offender bps in
                let within : locked_in offender ≤ sum_values locked_in s.validators =
                  ground arith in
                let kept = slash_exact offender bps fraction (omega (arith, within)) in
                let reward = mul64 slash.1 ctx.params.reporter_reward_bps / 10_000 in
                let cheaper =
                  reward_bounds slash.1 ctx.params.reporter_reward_bps share
                    (omega (arith, kept, within)) in
                let paid : Account = record reporter {
                  balance = reporter.balance + reward - tx.fee;
                  nonce = add64 reporter.nonce 1;
                } in
                let written = punish-stakes tx operator key slash.0 paid s in
                (λ h. ground (arith, kept.0), λ h. ground arith)
          ]
    ]
