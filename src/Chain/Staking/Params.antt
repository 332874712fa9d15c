-- ===== src/Chain/Staking/Params.antt =====
-- validator_staking.go: ValidatorStakingParams and its height tests.
use native.Mathlib.Nat.{mod-le, div-add-mod, mul-mod_right}
use synthos_collective.Prelude.{
  ℕ, ◌+◌, ◌-◌, ◌%◌, ◌*◌, ◌/◌, ◌≤◌, ◌<◌, ◌≡◌, Bool, true, false, ◌&&◌, ◌||◌, ltb, leb, arith,
  if◌then◌else◌, ◌==◌, nat_eq,
}
use synthos_collective.Words.{add64, u64_mod}
use synthos_collective.Chain.Errors.{ParamsError, params}
use synthos_collective.Chain.Monad.{Result, ok, err}

pub record ValidatorStakingParams : Type 0 where
  pub enabled_from_height : ℕ
  pub min_self_bond : ℕ
  pub unbonding_blocks : ℕ
  pub max_active_validators : ℕ  -- int, by its bit pattern
  pub consensus_from_height : ℕ
  pub epoch_blocks : ℕ
  pub slash_fraction_bps : ℕ
  pub reporter_reward_bps : ℕ

-- MaxUnbondingEntries
abbrev pub max_unbonding_entries : ℕ
max_unbonding_entries = 16

-- `n < 0` for an int given by its bit pattern
abbrev is_negative : ℕ → Bool
is_negative n = leb 9223372036854775808 n

unfoldable pub validate : ValidatorStakingParams → Result (Unit {0})
validate p =
    if p.enabled_from_height == 0
    then ok tt
    else if p.min_self_bond == 0
    then err (params ParamsError.min_self_bond)
    else if p.unbonding_blocks == 0
    then err (params ParamsError.unbonding_blocks)
    else if is_negative p.max_active_validators
    then err (params ParamsError.max_active)
    else if p.consensus_from_height == 0
    then ok tt
    else if leb p.consensus_from_height p.enabled_from_height
    then err (params ParamsError.consensus_height)
    else if p.epoch_blocks == 0
    then err (params ParamsError.epoch_blocks)
    else if p.slash_fraction_bps == 0 || ltb 10_000 p.slash_fraction_bps
    then err (params ParamsError.slash_fraction)
    else if ltb 10_000 p.reporter_reward_bps
    then err (params ParamsError.reporter_reward)
    else ok tt

unfoldable pub consensus_active_at : ValidatorStakingParams → ℕ → Bool
consensus_active_at p height = ltb 0 p.consensus_from_height && leb p.consensus_from_height height

unfoldable pub enabled_at : ValidatorStakingParams → ℕ → Bool
enabled_at p height = ltb 0 p.enabled_from_height && leb p.enabled_from_height height

unfoldable pub is_snapshot_height : ValidatorStakingParams → ℕ → Bool
is_snapshot_height p height =
    let next = add64 height 1 in
    if p.consensus_from_height == 0 || p.epoch_blocks == 0
    then false
    else if ltb next p.consensus_from_height
    then false
    else (next - p.consensus_from_height) % p.epoch_blocks == 0

-- Parameters that pass the check and switch stake consensus on have every quantity that its safety
-- rests on: bonds start earlier, are not free, stay locked, and slashing takes between one basis
-- point and all of a stake.
validate_safe :
    (p : ValidatorStakingParams)
    → validate p ≡ ok tt
    → 0 < p.enabled_from_height
    → 0 < p.consensus_from_height
    → (0 < p.min_self_bond)
      × (0 < p.unbonding_blocks)
      × (p.enabled_from_height < p.consensus_from_height)
      × (0 < p.epoch_blocks)
      × (0 < p.slash_fraction_bps)
      × (p.slash_fraction_bps ≤ 10_000)
      × (p.reporter_reward_bps ≤ 10_000)
unfolding validate
validate_safe p h enabled consensus = ground arith

-- Where stake consensus is on at a height, the height one before the last epoch boundary, found by
-- stepping back, is a snapshot height.
snapshot_recent :
    (p : ValidatorStakingParams) (height : ℕ)
    → 0 < p.consensus_from_height
    → 0 < p.epoch_blocks
    → p.consensus_from_height ≤ height
    → height < u64_mod
    → is_snapshot_height p (height - 1 - (height - p.consensus_from_height) % p.epoch_blocks) ≡ true
unfolding is_snapshot_height add64
snapshot_recent p height hc he le fits =
    let d = height - p.consensus_from_height in
    let e = p.epoch_blocks in
    let whole : d - d % e ≡ e * (d / e) = omega (arith, div-add-mod d e) in
    let multiple : (e * (d / e)) % e ≡ 0 = mul-mod_right e (d / e) in
    let below : d % e ≤ d = mod-le d e in
    let steps : height - 1 - d % e + 1 - p.consensus_from_height ≡ e * (d / e) = omega arith in
    ground arith
