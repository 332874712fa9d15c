-- ===== src/Chain/Staking/Evidence/Slash.antt =====
-- validator_staking.go: what a slash takes.
use synthos_collective.Prelude.{
  ℕ, ◌+◌, ◌*◌, ◌/◌, ◌≤◌, ◌<◌, ◌≡◌, refl, true, List, [], ◌∷◌, arith, sum_by, length,
}
use synthos_collective.Words.{u64_mod, add64_exact, sub64_exact, mul64_exact}
use synthos_collective.Chain.Types.{UnbondingEntry, ValidatorRecord}
use synthos_collective.Chain.Staking.Funds.{entry_amount, locked_in}
use synthos_collective.Chain.Staking.Evidence.{cut, cut_entries, slash_and_tombstone}

cut_exact : (bps a : ℕ) → bps ≤ 10_000 → a * 10_000 < u64_mod → cut bps a ≡ a * bps / 10_000
unfolding cut
cut_exact bps a le fits =
    let grown : a * bps ≤ a * 10_000 = grind arith in
    rw (mul64_exact a bps (omega (arith, grown))) refl

-- A cut of at most the whole of an amount whose product fits.
cut_bounds : (bps a : ℕ) → bps ≤ 10_000 → a * 10_000 < u64_mod → cut bps a ≤ a
unfolding cut
cut_bounds bps a le fits =
    let exact = cut_exact bps a le fits in
    let grown : a * bps ≤ a * 10_000 = grind arith in omega (arith, exact, grown)

-- What the loop takes from the entries is what it adds to the sum.
cut_entries-sum :
    (bps slashed : ℕ) (es : List UnbondingEntry)
    → bps ≤ 10_000
    → (slashed + sum_by entry_amount es) * 10_000 < u64_mod
    → let (left, sum) = cut_entries bps slashed es in
      (sum + sum_by entry_amount left ≡ slashed + sum_by entry_amount es)
      × (slashed ≤ sum)
      × (length left ≡ length es)
unfolding cut_entries
cut_entries-sum bps slashed [] le fits = (refl, omega arith, refl)
cut_entries-sum bps slashed (e ∷ rest) le fits =
    let small = cut_bounds bps e.amount le (omega arith) in
    let added = add64_exact slashed (cut bps e.amount) (omega arith) in
    let taken = sub64_exact e.amount (cut bps e.amount) small (omega arith) in
    let below = cut_entries-sum bps (slashed + cut bps e.amount) rest le (omega arith) in
    rw (added, taken) (omega (arith, below))

-- For a fraction of at most the whole and a stake whose product with 10000 fits in 64 bits, what a
-- slash takes and what it leaves add up to what the record held; the self-bond loses its share
-- rounded down; no entry goes, the validator is tombstoned, and its key stays.
pub slash_exact :
    (rec : ValidatorRecord) (bps : ℕ)
    → bps ≤ 10_000
    → locked_in rec * 10_000 < u64_mod
    → let (rec', slashed) = slash_and_tombstone rec bps in
      (locked_in rec' + slashed ≡ locked_in rec)
      × (rec'.self_bond + rec.self_bond * bps / 10_000 ≡ rec.self_bond)
      × (length rec'.unbonding ≡ length rec.unbonding)
      × (rec'.tombstoned ≡ true)
      × (rec'.consensus_pub_key ≡ rec.consensus_pub_key)
unfolding slash_and_tombstone
slash_exact rec bps le fits =
    let share = cut bps rec.self_bond in
    let small = cut_bounds bps rec.self_bond le (omega arith) in
    let exact : share ≡ rec.self_bond * bps / 10_000 =
      cut_exact bps rec.self_bond le (omega arith) in
    let taken = sub64_exact rec.self_bond share small (omega arith) in
    let entries = cut_entries-sum bps share rec.unbonding le (omega arith) in
    (omega arith, omega arith, entries.2, refl, refl)
