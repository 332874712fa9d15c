-- ===== src/Chain/Staking/Keys.antt =====
-- validator_staking.go: consensus keys, public profiles and the search of the registry by key.
use synthos_collective.Prelude.{
  ℕ, not, ◌&&◌, [], ◌∷◌, ltb, if◌then◌else◌, ◌==◌, nat_eq, string_eq, String,
}
use Prim.Native.String
use synthos_collective.Text.{trim_prefix, to_lower, trim_space, is_hex_bytes, has_prefix, join}
use synthos_collective.Dict.{Dict}
use synthos_collective.Chain.Errors.{StakingError, staking}
use synthos_collective.Chain.Types.{Address, ValidatorRecord}
use synthos_collective.Chain.Monad.{Result, ok, err}

-- ed25519.PublicKeySize
abbrev pub public_key_size : ℕ
public_key_size = 32

unfoldable pub normalize_consensus_pub_key : String → Result String
normalize_consensus_pub_key raw =
    let trimmed = trim_prefix (to_lower (trim_space raw)) "0x" in
    if trimmed == ""
    then err (staking StakingError.missing_key)
    else if not (is_hex_bytes public_key_size trimmed)
    then err (staking StakingError.bad_key)
    else ok (join "0x" trimmed)

-- The lengths are in bytes.
unfoldable pub validate_validator_profile : String → String → Result (Unit {0})
validate_validator_profile moniker endpoint =
    if ltb 64 (String.len moniker)
    then err (staking StakingError.bad_profile)
    else if ltb 256 (String.len endpoint)
    then err (staking StakingError.bad_profile)
    else if not (endpoint == "")
        && (not (has_prefix endpoint "https://") && not (has_prefix endpoint "http://"))
    then err (staking StakingError.bad_profile)
    else ok tt

-- validatorOperatorForKey: "" for no such validator
unfoldable pub operator_for_key : String → Dict Address ValidatorRecord → Address
operator_for_key key [] = ""
operator_for_key key ((op, rec) ∷ rest) =
    if rec.consensus_pub_key == key then op else operator_for_key key rest
