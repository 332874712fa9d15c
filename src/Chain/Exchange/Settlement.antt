-- ===== src/Chain/Exchange/Settlement.antt =====
-- core.go: the writes of each DEX transaction keep the supply of SYN, the fee apart, and of every
-- asset.
use synthos_collective.Prelude.{
  ℕ, ◌+◌, ◌≤◌, ◌<◌, ◌≡◌, ◌≢◌, inl, inr, get_or, arith, refl, subst, nat_eq, string_eq, Bool-cases,
  eq_iff, ◌==◌, String,
}
use synthos_collective.Words.{u64_mod}
use synthos_collective.Dict.{Dict, lookup, insert, lookup-insert_self, lookup-insert_ne}
use synthos_collective.Chain.Types.{Account, Pool, State, Tx, account_of, zero_account}
use synthos_collective.Chain.Citizen.Funds.{balance_of}
use synthos_collective.Chain.Governance.Execution.{balances}
use synthos_collective.Chain.Ledger.{asset_of}
use synthos_collective.Chain.Ledger.Transfers.{holdings}
use synthos_collective.Chain.Exchange.Fields.{pool_address, settle_pool}
use synthos_collective.Chain.Exchange.Liquidity.{settle_deposit, settle_withdrawal}
use synthos_collective.Chain.Exchange.Swaps.{settle_purchase, settle_sale}
use synthos_collective.Chain.Exchange.Supply.{paid_in, paid_out, kept_in, kept_out, untouched}

-- What holds of the supply of SYN and of one asset after a transaction that charged its fee.
abbrev pub KeepsSupply : Tx → String → State → State → Type 0
KeepsSupply tx asset s s' =
    (balances s' + tx.fee ≡ balances s) × (holdings asset s' ≡ holdings asset s)

pub nothing_held : (id : String) → asset_of id zero_account ≡ 0
unfolding lookup
nothing_held id = refl

held_same :
    (id : String) (n : ℕ) (assets : Dict String ℕ) → get_or (lookup id (insert id n assets)) 0 ≡ n
held_same id n assets = rw (lookup-insert_self id n assets) refl

held_other :
    (id asset : String) (n : ℕ) (assets : Dict String ℕ)
    → id ≢ asset
    → get_or (lookup asset (insert id n assets)) 0 ≡ get_or (lookup asset assets) 0
held_other id asset n assets other = rw (lookup-insert_ne id asset n assets other) refl

-- A statement about every asset is one about the asset that moves and one about the others.
by_asset : (id asset : String) (P : String → Type 0) → P id → (id ≢ asset → P asset) → P asset
by_asset id asset P mine others = elim (Bool-cases (id == asset)) [
  | inl h ↦ subst P ((eq_iff id asset).0 h) mine
  | inr h ↦ others (ground (arith, eq_iff id asset))
]

-- The sum of an asset is kept by the two writes, where it is for the asset that moves.
abbrev Kept : State → State → String → Type 0
Kept s s' asset = holdings asset s < u64_mod → holdings asset s' ≡ holdings asset s

module _ (tx : Tx) (id : String) (pool : Pool) (s : State) where
  abbrev pool_now : Account
  pool_now = account_of (pool_address id) s

  pub settle_deposit-KeepsSupply :
      (syn amount shares : ℕ) (asset : String)
      → balances s < u64_mod
      → holdings asset s < u64_mod
      → syn + tx.fee ≤ (account_of tx.from s).balance
      → amount ≤ asset_of id (account_of tx.from s)
      → KeepsSupply tx asset s (settle_deposit tx id syn amount (syn + tx.fee) shares pool s)
  unfolding settle_deposit settle_pool
  settle_deposit-KeepsSupply syn amount shares asset small few enough held = (
    paid_in balance_of refl (pool_address id) tx.from _ _ syn tx.fee s.accounts small enough refl
        refl,
    by_asset id asset (Kept s (settle_deposit tx id syn amount (syn + tx.fee) shares pool s))
        (λ word.
          kept_in (asset_of id) (nothing_held id) (pool_address id) tx.from _ _ amount s.accounts
            word held (held_same id _ _) (held_same id _ _))
        (λ other word.
          untouched (asset_of asset) (nothing_held asset) (pool_address id) tx.from _ _ s.accounts
            (held_other id asset _ _ other) (held_other id asset _ _ other))
        few,
  )

  pub settle_purchase-KeepsSupply :
      (amount_in amount_out : ℕ) (asset : String)
      → balances s < u64_mod
      → holdings asset s < u64_mod
      → amount_in + tx.fee ≤ (account_of tx.from s).balance
      → amount_out ≤ asset_of id (account_of (pool_address id) s)
      → KeepsSupply tx asset s
          (settle_purchase tx id (amount_in + tx.fee) amount_in amount_out pool s)
  unfolding settle_purchase settle_pool
  settle_purchase-KeepsSupply amount_in amount_out asset small few enough held = (
    paid_in balance_of refl (pool_address id) tx.from _ _ amount_in tx.fee s.accounts small enough
        refl refl,
    by_asset id asset
        (Kept s (settle_purchase tx id (amount_in + tx.fee) amount_in amount_out pool s))
        (λ word.
          kept_out (asset_of id) (nothing_held id) (pool_address id) tx.from _ _ amount_out
            s.accounts word held (held_same id _ _) (held_same id _ _))
        (λ other word.
          untouched (asset_of asset) (nothing_held asset) (pool_address id) tx.from _ _ s.accounts
            (held_other id asset _ _ other) (held_other id asset _ _ other))
        few,
  )

  pub settle_sale-KeepsSupply :
      (amount_in amount_out : ℕ) (asset : String)
      → balances s < u64_mod
      → holdings asset s < u64_mod
      → tx.fee ≤ (account_of tx.from s).balance
      → amount_in ≤ asset_of id (account_of tx.from s)
      → amount_out ≤ (account_of (pool_address id) s).balance
      → KeepsSupply tx asset s (settle_sale tx id amount_in amount_out pool s)
  unfolding settle_sale settle_pool
  settle_sale-KeepsSupply amount_in amount_out asset small few enough held kept = (
    paid_out balance_of refl (pool_address id) tx.from _ _ amount_out tx.fee s.accounts small kept
        enough refl refl,
    by_asset id asset (Kept s (settle_sale tx id amount_in amount_out pool s))
        (λ word.
          kept_in (asset_of id) (nothing_held id) (pool_address id) tx.from _ _ amount_in s.accounts
            word held (held_same id _ _) (held_same id _ _))
        (λ other word.
          untouched (asset_of asset) (nothing_held asset) (pool_address id) tx.from _ _ s.accounts
            (held_other id asset _ _ other) (held_other id asset _ _ other))
        few,
  )

  pub settle_withdrawal-KeepsSupply :
      (shares syn amount : ℕ) (asset : String)
      → balances s < u64_mod
      → holdings asset s < u64_mod
      → tx.fee ≤ (account_of tx.from s).balance
      → syn ≤ (account_of (pool_address id) s).balance
      → amount ≤ asset_of id (account_of (pool_address id) s)
      → KeepsSupply tx asset s (settle_withdrawal tx id shares syn amount pool s)
  unfolding settle_withdrawal settle_pool
  settle_withdrawal-KeepsSupply shares syn amount asset small few enough kept held = (
    paid_out balance_of refl (pool_address id) tx.from _ _ syn tx.fee s.accounts small kept enough
        refl refl,
    by_asset id asset (Kept s (settle_withdrawal tx id shares syn amount pool s))
        (λ word.
          kept_out (asset_of id) (nothing_held id) (pool_address id) tx.from _ _ amount s.accounts
            word held (held_same id _ _) (held_same id _ _))
        (λ other word.
          untouched (asset_of asset) (nothing_held asset) (pool_address id) tx.from _ _ s.accounts
            (held_other id asset _ _ other) (held_other id asset _ _ other))
        few,
  )
