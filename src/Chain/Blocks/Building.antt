-- ===== src/Chain/Blocks/Building.antt =====
-- chain.go: BuildBlock, the candidate block from the mempool.
use synthos_collective.Prelude.{
  ℕ, ◌-◌, ◌%◌, Bool, false, not, none, some, List, [], ◌∷◌, ◌++◌, length, map, ltb, leb,
  if◌then◌else◌, ◌==◌, nat_eq, string_eq, String, text_ltb,
}
use synthos_collective.Words.{add64}
use synthos_collective.Dict.{Dict}
use synthos_collective.Chain.Errors.{ChainError, chain}
use synthos_collective.Chain.Types.{State, Tx}
use synthos_collective.Chain.Monad.{Result, ok, err, Action}
use synthos_collective.Chain.Execution.{Crypto}
use synthos_collective.Chain.Blocks.Types.{Block, BlockHeader, Chain, Hashing, Rules, rules_of, tip}
use synthos_collective.Chain.Blocks.Merkle.{tx_merkle_root}
use synthos_collective.Chain.Blocks.Fees.{credit_proposer_fees}
use synthos_collective.Chain.Blocks.Transition.{
  apply_tx_at, proposer_address, finish_block_state, apply_corrections,
}

-- The order of sort.Slice: fee descending, then sender, nonce and id.
abbrev pub before : Tx → Tx → Bool
before a b =
    if not (a.fee == b.fee)
    then ltb b.fee a.fee
    else if not (a.from == b.from)
    then text_ltb a.from b.from
    else if not (a.nonce == b.nonce)
    then ltb a.nonce b.nonce
    else text_ltb a.id b.id

place_tx : Tx → List Tx → List Tx
place_tx t [] = t ∷ []
place_tx t (u ∷ rest) =
    let below = place_tx t rest in if before u t then u ∷ below else t ∷ u ∷ rest

-- The candidates in order. The ids are distinct, so there is one sorted list of them.
unfoldable pub candidates : Dict String Tx → List Tx
unfolding place_tx
candidates [] = []
candidates ((_, t) ∷ rest) = place_tx t (candidates rest)

-- TxMerkleRoot of a list of transactions
abbrev pub root_of_txs : Hashing → List Tx → String
root_of_txs hashing txs = tx_merkle_root hashing.pair_hash (map hashing.leaf_hash txs)

-- `maxTx <= 0` is 1000; 0 stands for every int that is not positive.
abbrev pub tx_limit : ℕ → ℕ
tx_limit max_tx = if max_tx == 0 then 1000 else max_tx

-- The block that BuildBlock puts together after a parent.
abbrev pub candidate_block : Hashing → ℕ → String → String → Block → List Tx → State → Block
candidate_block hashing now proposer_id poc_root parent txs final =
    let header : BlockHeader = record {
      height = add64 parent.header.height 1;
      parent_hash = parent.hash;
      timestamp = now - now % 1_000_000_000;
      proposer_id = proposer_id;
      tx_merkle_root = root_of_txs hashing txs;
      state_root = hashing.state_root final;
      proposer_poc_root = poc_root;
    } in
    record {
      header = header;
      txs = txs;
      hash = hashing.block_hash header txs;
      validator_votes = [];
      finalized = false;
      proposer_signature = "";
      quorum_signatures = [];
    }

-- The loop over the candidates, each applied by `apply`: one that fails is skipped, and what it
-- wrote stays.
unfoldable pub select_txs :
    (Tx → Action State (Unit {0})) → ℕ → List Tx → List Tx → State → List Tx × State
select_txs apply limit taken [] s = (taken, s)
select_txs apply limit taken (tx ∷ rest) s =
    let (applied, s') = apply tx s in
    let more : List Tx × State = elim applied [
      | err _ ↦ select_txs apply limit taken rest s'
      | ok _ ↦ select_txs apply limit (taken ++ (tx ∷ [])) rest s'
    ] in
    if leb limit (length taken) then (taken, s) else more

module _ (crypto : Crypto) where
  -- The state of a candidate block. The corrections of its height are applied twice.
  unfoldable pub built_state : Rules → State → ℕ → String → List Tx → State → Result State
  unfolding credit_proposer_fees proposer_address finish_block_state apply_corrections
  built_state r pre height proposer_id txs s =
      elim (credit_proposer_fees txs (proposer_address crypto r pre height proposer_id) s) [
        | err e ↦ err e
        | ok s' ↦ ok (apply_corrections r.corrections height (finish_block_state r height s'))
      ]

  -- BuildBlock at a time `now` in nanoseconds, which is cut to whole seconds.
  unfoldable pub build_block : Hashing → ℕ → String → String → ℕ → Chain → Result Block
  unfolding candidates apply_tx_at select_txs built_state tx_merkle_root
  build_block hashing now proposer_id poc_root max_tx c = elim (tip c) [
    | none ↦ err (chain ChainError.no_genesis)
    | some parent ↦
        let height = add64 parent.header.height 1 in
        let (txs, s) =
          select_txs (apply_tx_at crypto (rules_of c) height) (tx_limit max_tx) []
            (candidates c.mempool) c.state in
        elim (built_state (rules_of c) c.state height proposer_id txs s) [
          | err e ↦ err e
          | ok final ↦ ok (candidate_block hashing now proposer_id poc_root parent txs final)
        ]
  ]
