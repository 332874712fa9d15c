-- ===== src/Chain/Blocks/Mempool.antt =====
-- chain.go: which transactions enter the mempool, and the dry run of one. The clock is an argument.
use synthos_collective.Prelude.{
  ℕ, Bool, true, false, not, ◌&&◌, ◌||◌, Option, none, some, ltb, leb, if◌then◌else◌, ◌==◌, nat_eq,
  string_eq, String,
}
use synthos_collective.Words.{add64, sub64}
use synthos_collective.Dict.{lookup, insert}
use synthos_collective.Chain.Errors.{ChainError, chain}
use synthos_collective.Chain.Types.{Address, State, Tx, account_of, metadata_value}
use synthos_collective.Chain.Monad.{Result, ok, err, Action, gets, lift, modify, ◌>>=◌, ◌>>◌}
use synthos_collective.Chain.Execution.{Crypto, verify_tx}
use synthos_collective.Chain.Blocks.Types.{
  Block, Chain, Hashing, tip, rules_of, transaction_chain_id,
}
use synthos_collective.Chain.Blocks.Transition.{apply_tx_at}

-- GetNextNonce
unfoldable pub get_next_nonce : Address → State → ℕ
get_next_nonce a s = (account_of a s).nonce

-- MaxCitizenClockSkew
abbrev pub max_citizen_clock_skew : ℕ
max_citizen_clock_skew = 300

-- `x < 0`, for an int64 by its bit pattern
abbrev pub is_negative : ℕ → Bool
is_negative x = leb 9_223_372_036_854_775_808 x

abbrev pub has_citizen_clock : Tx → Bool
has_citizen_clock tx =
    let tx_type = metadata_value tx.metadata "type" in
    tx_type == "citizen_stake" || tx_type == "citizen_claim_rewards"

-- `tx.Timestamp - now`, made positive where it is negative. The least int64 stays as it is.
abbrev pub skew_of : ℕ → ℕ → ℕ
skew_of timestamp now =
    let skew = sub64 timestamp now in if is_negative skew then sub64 0 skew else skew

-- checkCitizenClock
unfoldable pub check_citizen_clock : Tx → ℕ → Result (Unit {0})
check_citizen_clock tx now =
    let skew = skew_of tx.timestamp now in
    if not (has_citizen_clock tx)
    then ok tt
    else if not (is_negative skew) && ltb max_citizen_clock_skew skew
    then err (chain ChainError.clock_skew)
    else ok tt

abbrev holds_tx : Option Tx → Bool
holds_tx none = false
holds_tx (some _) = true

module _ (crypto : Crypto) where
  -- The checks of SubmitTx, in their order.
  unfoldable pub admit : ℕ → Tx → Chain → Result (Unit {0})
  unfolding verify_tx transaction_chain_id get_next_nonce check_citizen_clock
  admit now tx c =
      if tx.id == "" then err (chain ChainError.missing_id) else elim (verify_tx crypto tx) [
        | err e ↦ err e
        | ok _ ↦
            if not (tx.chain_id == transaction_chain_id c)
            then err (chain ChainError.wrong_chain_id)
            else if holds_tx (lookup tx.id c.mempool)
            then err (chain ChainError.already_in_mempool)
            else if not (tx.nonce == get_next_nonce tx.from c.state)
            then err (chain ChainError.nonce_mismatch)
            else check_citizen_clock tx now
      ]

  -- SubmitTx
  unfoldable pub submit_tx : ℕ → Tx → Action Chain (Unit {0})
  unfolding admit
  submit_tx now tx = do
    checked ← gets (admit now tx)
    lift checked
    modify (λ c. record c { mempool = insert tx.id tx c.mempool })

  -- simHeight
  abbrev next_height : Option Block → ℕ
  next_height none = 1
  next_height (some b) = add64 b.header.height 1

  -- SimulateTx: the balances of the sender and the recipient before and after, and the state root
  unfoldable pub simulate_tx : Hashing → Tx → Chain → Result (((ℕ × ℕ) × (ℕ × ℕ)) × String)
  unfolding verify_tx transaction_chain_id get_next_nonce apply_tx_at
  simulate_tx hashing tx c = elim (verify_tx crypto tx) [
    | err e ↦ err e
    | ok _ ↦
        let (r, after) = apply_tx_at crypto (rules_of c) (next_height (tip c)) tx c.state in
        if not (tx.chain_id == transaction_chain_id c)
        then err (chain ChainError.wrong_chain_id)
        else if not (tx.nonce == get_next_nonce tx.from c.state)
        then err (chain ChainError.nonce_mismatch)
        else elim r [
          | err e ↦ err e
          | ok _ ↦ ok (
            (
              ((account_of tx.from c.state).balance, (account_of tx.from after).balance),
              ((account_of tx.to c.state).balance, (account_of tx.to after).balance),
            ),
            hashing.state_root after,
          )
        ]
  ]
