-- ===== src/Chain/SafeMath.antt =====
-- core.go: safeAdd and safeSub, and what they promise.
use synthos_collective.Prelude.{ℕ, ◌+◌, ◌-◌, ◌<◌, ◌≡◌, ◌↔◌, arith, ltb, if◌then◌else◌}
use synthos_collective.Words.{u64_mod, max_uint64, IsWord}
use synthos_collective.Chain.Errors.{CoreError, core}
use synthos_collective.Chain.Monad.{Result, ok, err}

-- The test leaves a sum that fits, so the plain `+` is exact.
unfoldable pub safe_add : ℕ → ℕ → Result ℕ
safe_add a b = if ltb (max_uint64 - a) b then err (core CoreError.uint64_overflow) else ok (a + b)

unfoldable pub safe_sub : ℕ → ℕ → Result ℕ
safe_sub a b = if ltb a b then err (core CoreError.insufficient_funds) else ok (a - b)

-- safeAdd returns the true sum exactly when it fits in 64 bits.
pub safe_add-ok :
    (a b : ℕ) → IsWord a → (c : ℕ) → (safe_add a b ≡ ok c) ↔ ((c ≡ a + b) × (a + b < u64_mod))
unfolding safe_add
safe_add-ok a b h c = (λ e. ground arith, λ e. ground arith)
