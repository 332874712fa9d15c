-- ===== src/Chain/Blocks/Authority.antt =====
-- chain.go and block.go: whose signatures a block needs. `verify` is ed25519.Verify.
use synthos_collective.Prelude.{
  ℕ, ◌+◌, Bool, true, false, not, ◌&&◌, ◌||◌, Option, none, some, get_or, List, [], ◌∷◌, length,
  ltb, leb, if◌then◌else◌, ◌==◌, nat_eq, string_eq, String,
}
use synthos_collective.Words.{add64, mul64}
use synthos_collective.Text.{join, to_lower, is_hex_bytes}
use synthos_collective.Dict.{Dict, lookup, insert}
use synthos_collective.Chain.Errors.{ChainError, chain}
use synthos_collective.Chain.Types.{ActiveValidator}
use synthos_collective.Chain.Monad.{Result, ok, err}
use synthos_collective.Chain.Staking.Params.{consensus_active_at}
use synthos_collective.Chain.Staking.Evidence.{
  stake_proposal_message, stake_approval_message, verify_hex_sig,
}
use synthos_collective.Chain.Blocks.Types.{Block, Chain}

-- stakeAuthoritySetLocked, [] for nil
unfoldable pub stake_authority_set : Chain → ℕ → List ActiveValidator
unfolding consensus_active_at
stake_authority_set c height =
    if height == 0 || not (consensus_active_at c.validator_staking height)
    then []
    else c.state.validator_set_snapshot

-- StakeConsensusActiveAt
unfoldable pub stake_consensus_active_at : Chain → ℕ → Bool
unfolding stake_authority_set
stake_consensus_active_at c height = ltb 0 (length (stake_authority_set c height))

-- byKey[key]: of two entries under one key the later is read
unfoldable pub member : String → List ActiveValidator → Option ActiveValidator
member key [] = none
member key (v ∷ rest) =
    let later = member key rest in
    elim later [ some w ↦ some w | none ↦ if v.consensus_pub_key == key then some v else none ]

-- total
unfoldable pub total_power : ℕ → List ActiveValidator → ℕ
total_power sum [] = sum
total_power sum (v ∷ rest) = total_power (add64 sum v.power) rest

-- QuorumApprovalMessage
unfoldable pub quorum_approval_message : Block → String
quorum_approval_message b = join "APPROVE|" b.hash

module _ (verify : String → String → String → Bool) where
  -- Whether an entry of the loop over QuorumSignatures counts, for the member under its key.
  abbrev pub approves : String → Dict String Bool → String → Option ActiveValidator → String → Bool
  approves message counted key none sig = false
  approves message counted key (some v) sig =
      not (get_or (lookup key counted) false)
      && verify_hex_sig verify v.consensus_pub_key message sig

  abbrev pub power_of : Option ActiveValidator → ℕ
  power_of none = 0
  power_of (some v) = v.power

  -- The loop over QuorumSignatures: the power that approved.
  unfoldable pub approved_power :
      List ActiveValidator → String → Dict String Bool → ℕ → Dict String String → ℕ
  unfolding member verify_hex_sig to_lower
  approved_power set message counted sum [] = sum
  approved_power set message counted sum ((signer, sig) ∷ rest) =
      let key = to_lower signer in
      let v = member key set in
      let yes_ = approves message counted key v sig in
      approved_power set message (if yes_ then insert key true counted else counted)
        (if yes_ then add64 sum (power_of v) else sum) rest

  -- verifyStakeAuthorizationLocked
  unfoldable pub verify_stake_authorization :
      Chain → Block → List ActiveValidator → Bool → Result (Unit {0})
  unfolding member total_power approved_power stake_proposal_message stake_approval_message
      verify_hex_sig to_lower
  verify_stake_authorization c b set require_quorum =
      let height = b.header.height in
      elim (member (to_lower b.header.proposer_id) set) [
        | none ↦ err (chain ChainError.unknown_proposer)
        | some proposer ↦
            let approved =
              approved_power set (stake_approval_message c.chain_id height b.hash) [] 0
                b.quorum_signatures in
            if not (
              verify_hex_sig verify proposer.consensus_pub_key
                (stake_proposal_message c.chain_id height b.hash) b.proposer_signature)
            then err (chain ChainError.bad_proposer_signature)
            else if not require_quorum
            then ok tt
            else if leb (mul64 approved 3) (mul64 (total_power 0 set) 2)
            then err (chain ChainError.quorum_not_met)
            else ok tt
      ]

  -- Whether an entry of QuorumSignatures is a registered validator's approval.
  abbrev pub is_approval : Dict String String → String → String → String → Bool
  is_approval keys message signer sig = elim (lookup signer keys) [
    | none ↦ false
    | some key ↦ is_hex_bytes 32 key && verify_hex_sig verify key message sig
  ]

  -- The loop over QuorumSignatures of verifyBlockAuthorizationLocked and verifiedApprovalCount. A
  -- map has each signer once, so the size of `seen` is this count.
  unfoldable pub count_approvals : Dict String String → String → Dict String String → ℕ
  unfolding verify_hex_sig is_hex_bytes
  count_approvals keys message [] = 0
  count_approvals keys message ((signer, sig) ∷ rest) =
      let others = count_approvals keys message rest in
      if is_approval keys message signer sig then 1 + others else others

  -- verifiedApprovalCount
  unfoldable pub verified_approval_count : Dict String String → Block → ℕ
  unfolding count_approvals quorum_approval_message
  verified_approval_count keys b =
      count_approvals keys (quorum_approval_message b) b.quorum_signatures

  -- verifyBlockAuthorizationLocked
  unfoldable pub verify_block_authorization : Chain → Block → Bool → Result (Unit {0})
  unfolding count_approvals quorum_approval_message verify_hex_sig is_hex_bytes
  verify_block_authorization c b require_quorum =
      elim (lookup b.header.proposer_id c.validator_keys) [
        | none ↦ err (chain ChainError.unknown_proposer)
        | some key ↦
            if not (is_hex_bytes 32 key)
            then err (chain ChainError.unknown_proposer)
            else if not (verify_hex_sig verify key b.hash b.proposer_signature)
            then err (chain ChainError.bad_proposer_signature)
            else if not require_quorum
            then ok tt
            else if ltb
                (count_approvals c.validator_keys (quorum_approval_message b) b.quorum_signatures)
                c.required_quorum
            then err (chain ChainError.quorum_not_met)
            else ok tt
      ]

  -- The choice between the two in validateBlockLocked: none where no keys are configured.
  unfoldable pub verify_authority : Chain → Block → Bool → Result (Unit {0})
  unfolding stake_authority_set verify_stake_authorization verify_block_authorization
  verify_authority c b require_quorum =
      let height = b.header.height in
      let set = stake_authority_set c height in
      if ltb 0 (length set)
      then verify_stake_authorization c b set require_quorum
      else if ltb 0 height
          && (ltb 0 (length c.validator_keys) && leb c.auth_enforce_from_height height)
      then verify_block_authorization c b require_quorum
      else ok tt
