-- ===== src/Chain/Staking/Evidence.antt =====
-- validator_staking.go: what stake-mode validators sign, and the evidence of a double signature.
pub mod Slash
pub mod Reports
use Prim.Native.Char.{Char, code}
use Prim.Native.String
use synthos_collective.Prelude.{
  ℕ, ◌+◌, ◌-◌, ◌*◌, ◌/◌, Bool, true, false, not, ◌&&◌, ◌||◌, Option, none, some, get_or, List, [],
  ◌∷◌, ltb, leb, if◌then◌else◌, ◌==◌, nat_eq, string_eq, String,
}
use synthos_collective.Words.{add64, sub64, mul64}
use synthos_collective.Text.{
  chars, join, drop_chars, has_prefix, trim_prefix, to_lower, is_hex_bytes, is_lower_hex, all_chars,
}
use synthos_collective.Text.Numbers.{Parsed, parse_uint, format_uint}
use synthos_collective.Dict.{Dict, lookup, insert}
use synthos_collective.Chain.Errors.{CoreError, StakingError, core, staking}
use synthos_collective.Chain.Types.{
  Address, Account, KeyValuePair, UnbondingEntry, ValidatorRecord, ActiveValidator, State, Tx,
  account_of, set_account, metadata_value, set_validators,
}
use synthos_collective.Chain.Monad.{
  Result, ok, err, Action, raise, gets, or_raise, lift, raise_if, modify, ◌>>=◌, ◌>>◌,
}
use synthos_collective.Chain.Staking.{TxContext, checked_add, new_record, apply_staking_tx}
use synthos_collective.Chain.Staking.Params.{ValidatorStakingParams, consensus_active_at}
use synthos_collective.Chain.Staking.Keys.{
  public_key_size, normalize_consensus_pub_key, operator_for_key,
}

-- ed25519.SignatureSize
abbrev signature_size : ℕ
signature_size = 64

signed_text : String → String → ℕ → String → String
unfolding format_uint
signed_text head chain height hash =
    join head (join chain (join "|" (join (format_uint height) (join "|" hash))))

unfoldable pub stake_proposal_message : String → ℕ → String → String
unfolding signed_text
stake_proposal_message chain height hash = signed_text "SYNTHOS/PROPOSE/v2|" chain height hash

unfoldable pub stake_approval_message : String → ℕ → String → String
unfolding signed_text
stake_approval_message chain height hash = signed_text "SYNTHOS/APPROVE/v2|" chain height hash

unfoldable pub stake_message : String → String → ℕ → String → Result String
unfolding stake_proposal_message stake_approval_message
stake_message kind chain height hash =
    if kind == "propose"
    then ok (stake_proposal_message chain height hash)
    else if kind == "approve"
    then ok (stake_approval_message chain height hash)
    else err (staking StakingError.invalid_evidence)

unfoldable pub is_canonical_block_hash : String → Bool
is_canonical_block_hash h =
    String.len h == 66 && has_prefix h "0x" && all_chars is_lower_hex (drop_chars 2 (chars h))

-- verifyHexSig and decodeHexSig. `verify` is ed25519.Verify on the hex of the key, the message and
-- the hex of the signature, each in lower case, so that equal bytes are equal texts.
unfoldable pub verify_hex_sig : (String → String → String → Bool) → String → String → String → Bool
verify_hex_sig verify pub_hex msg sig_hex =
    let key = trim_prefix pub_hex "0x" in
    let sig = trim_prefix sig_hex "0x" in
    is_hex_bytes public_key_size key
    && is_hex_bytes signature_size sig
    && verify (to_lower key) msg (to_lower sig)

-- parseTxMetadataUint64, with the caller's own error
unfoldable pub parse_metadata_uint : List KeyValuePair → String → Option ℕ
unfolding parse_uint
parse_metadata_uint items key = elim (parse_uint (metadata_value items key)) [
  | Parsed.number n ↦ some n
  | Parsed.syntax_error ↦ none
  | Parsed.range_error ↦ none
]

-- amount * bps / 10_000
unfoldable pub cut : ℕ → ℕ → ℕ
cut bps amount = mul64 amount bps / 10_000

-- The loop over the unbonding entries: what is left of each, and `slashed` with every cut added.
unfoldable pub cut_entries : ℕ → ℕ → List UnbondingEntry → List UnbondingEntry × ℕ
unfolding cut
cut_entries bps slashed [] = ([], slashed)
cut_entries bps slashed (e ∷ rest) =
    let (left, sum) = cut_entries bps (add64 slashed (cut bps e.amount)) rest in
    (record e { amount = sub64 e.amount (cut bps e.amount) } ∷ left, sum)

unfoldable pub slash_and_tombstone : ValidatorRecord → ℕ → ValidatorRecord × ℕ
unfolding cut_entries
slash_and_tombstone rec bps =
    let slashed = cut bps rec.self_bond in
    let (left, sum) = cut_entries bps slashed rec.unbonding in
    (
      record rec { self_bond = sub64 rec.self_bond slashed; unbonding = left; tombstoned = true },
      sum,
    )

-- The filter of the snapshot: everyone but the validators with this key.
unfoldable pub without_key : String → List ActiveValidator → List ActiveValidator
without_key key [] = []
without_key key (v ∷ rest) =
    if v.consensus_pub_key == key then without_key key rest else v ∷ without_key key rest

abbrev drop_validator : String → State → State
drop_validator key s = record s {
  validator_set_snapshot = without_key key s.validator_set_snapshot;
}

or_invalid : {A : Type 0} → Result A → Result A
or_invalid (ok a) = ok a
or_invalid (err _) = err (staking StakingError.invalid_evidence)

-- The checks of the evidence itself: the key that signed two blocks, or an error.
unfoldable pub check_evidence : (String → String → String → Bool) → TxContext → Tx → Result String
unfolding or_invalid stake_message verify_hex_sig is_canonical_block_hash
check_evidence verify ctx tx =
    let read = metadata_value tx.metadata in
    let invalid = staking StakingError.invalid_evidence in
    elim (or_invalid (normalize_consensus_pub_key (read "consensus_pub_key"))) [
      | err e ↦ err e
      | ok key ↦ elim (parse_metadata_uint tx.metadata "evidence_height") [
        | none ↦ err invalid
        | some height ↦
            let kind = read "kind" in
            let hash_a = read "hash_a" in
            let hash_b = read "hash_b" in
            if ltb height ctx.params.consensus_from_height || ltb ctx.height height
            then err invalid
            else if not (is_canonical_block_hash hash_a) || not (is_canonical_block_hash hash_b)
            then err invalid
            else if hash_a == hash_b
            then err invalid
            else elim (stake_message kind ctx.chain_id height hash_a) [
              | err e ↦ err e
              | ok msg_a ↦ elim (stake_message kind ctx.chain_id height hash_b) [
                | err e ↦ err e
                | ok msg_b ↦
                    if not (verify_hex_sig verify key msg_a (read "sig_a"))
                      || not (verify_hex_sig verify key msg_b (read "sig_b"))
                    then err invalid
                    else ok key
              ]
            ]
      ]
    ]

-- The writes of an accepted report.
unfoldable pub punish : Tx → Address → String → ValidatorRecord → Account → State → State
punish tx operator key offender reporter s =
    set_account tx.from reporter
      (drop_validator key (set_validators (insert operator offender s.validators) s))

unfoldable pub apply_validator_evidence :
    (String → String → String → Bool) → TxContext → Tx → Action State (Unit {0})
unfolding consensus_active_at checked_add slash_and_tombstone punish
apply_validator_evidence verify ctx tx = do
  let p = ctx.params
  raise_if (not (consensus_active_at p ctx.height)) (staking StakingError.consensus_inactive)
  reporter ← gets (account_of tx.from)
  raise_if (not (tx.nonce == reporter.nonce)) (core CoreError.bad_nonce)
  raise_if (ltb reporter.balance tx.fee) (core CoreError.insufficient_funds)
  key ← lift (check_evidence verify ctx tx)
  operator ← gets (λ s. operator_for_key key s.validators)
  raise_if (operator == "") (staking StakingError.not_found)
  offender ← gets (λ s. get_or (lookup operator s.validators) (new_record "" "" 0))
  raise_if offender.tombstoned (staking StakingError.tombstoned)
  let (slashed_record, slashed) = slash_and_tombstone offender p.slash_fraction_bps
  let reward = mul64 slashed p.reporter_reward_bps / 10_000
  credited ← lift (checked_add reporter.balance reward (staking StakingError.balance_overflow))
  modify (
      punish tx operator key slashed_record
        (record reporter { balance = credited - tx.fee; nonce = add64 reporter.nonce 1 }))

-- applyValidatorTxCtx
unfoldable pub apply_validator_tx_ctx :
    (String → String → String → Bool) → String → TxContext → Tx → Action State (Unit {0})
unfolding apply_validator_evidence apply_staking_tx
apply_validator_tx_ctx verify tx_type ctx tx = do
  raise_if (not (tx.asset_id == "") && not (tx.asset_id == "syn"))
      (staking StakingError.asset_not_syn)
  if tx_type == "validator_evidence"
      then apply_validator_evidence verify ctx tx
      else apply_staking_tx tx_type ctx tx
