-- ===== src/Chain/Blocks/Merkle.antt =====
-- merkle.go and core.go: TxMerkleRoot and buildMerkleRoot. Hashes are in hex.
use synthos_collective.Prelude.{ℕ, zero, suc, ◌≤◌, ◌≡◌, refl, List, [], ◌∷◌, length, String, arith}
use synthos_collective.Text.{join}

abbrev pub empty_tx_merkle_root : String
empty_tx_merkle_root = "0x0000000000000000000000000000000000000000000000000000000000000000"

module _ (pair : String → String → String) where
  -- One level: neighbours are hashed together, and an odd last node with itself.
  unfoldable pub next_level : List String → List String
  next_level [] = []
  next_level (left ∷ []) = pair left left ∷ []
  next_level (left ∷ (right ∷ rest)) = pair left right ∷ next_level rest

  -- `for len(level) > 1`. Every round shortens a level of two or more, so its length is enough fuel.
  unfoldable pub reduce : ℕ → List String → List String
  unfolding next_level
  reduce zero level = level
  reduce (suc fuel) [] = []
  reduce (suc fuel) (root ∷ []) = root ∷ []
  reduce (suc fuel) (left ∷ (right ∷ rest)) = reduce fuel (next_level (left ∷ (right ∷ rest)))

  abbrev first_or : String → List String → String
  first_or none_left [] = none_left
  first_or none_left (root ∷ _) = root

  -- buildMerkleRoot, where `empty` is the hash of no bytes
  unfoldable pub build_merkle_root : String → List String → String
  unfolding reduce
  build_merkle_root empty leaves = first_or empty (reduce (length leaves) leaves)

  -- TxMerkleRoot, on the hashes of the transactions
  unfoldable pub tx_merkle_root : List String → String
  unfolding reduce
  tx_merkle_root [] = empty_tx_merkle_root
  tx_merkle_root (leaf ∷ leaves) =
      join "0x" (first_or "" (reduce (length (leaf ∷ leaves)) (leaf ∷ leaves)))

  next_level-shorter :
      (a b : String) (rest : List String)
      → suc (length (next_level (a ∷ (b ∷ rest)))) ≤ length (a ∷ (b ∷ rest))
  unfolding next_level
  next_level-shorter a b [] = omega arith
  next_level-shorter a b (c ∷ []) = omega arith
  next_level-shorter a b (c ∷ (d ∷ rest)) = omega (arith, next_level-shorter c d rest)

  -- The loop ends with one root for every list of leaves but the empty one.
  reduce_ends :
      (fuel : ℕ) (leaf : String) (leaves : List String)
      → length (leaf ∷ leaves) ≤ fuel
      → (root : String) × (reduce fuel (leaf ∷ leaves) ≡ root ∷ [])
  unfolding reduce next_level
  reduce_ends zero leaf leaves h = ground arith
  reduce_ends (suc fuel) leaf [] h = (leaf, refl)
  reduce_ends (suc fuel) a (b ∷ rest) h =
      reduce_ends fuel (pair a b) (next_level rest) (omega (arith, next_level-shorter a b rest))
