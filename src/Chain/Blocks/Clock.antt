-- ===== src/Chain/Blocks/Clock.antt =====
-- chain.go: which timestamps checkCitizenClock accepts.
use synthos_collective.Prelude.{ℕ, ◌≤◌, ◌<◌, ◌≡◌, ◌↔◌, ◌⊎◌, arith, true}
use synthos_collective.Words.{u64_mod, sub64}
use synthos_collective.Chain.Types.{Tx}
use synthos_collective.Chain.Monad.{ok}
use synthos_collective.Chain.Blocks.Mempool.{has_citizen_clock, check_citizen_clock}

-- For a staking or claim transaction and times that are int64 bit patterns, the check accepts
-- exactly the timestamps within 300 seconds of the clock, either way, and the one that is 2^63
-- seconds away from it.
pub check_citizen_clock-ok :
    (tx : Tx) (now : ℕ)
    → has_citizen_clock tx ≡ true
    → tx.timestamp < u64_mod
    → now < u64_mod
    → (check_citizen_clock tx now ≡ ok tt) ↔ (
        (sub64 tx.timestamp now ≤ 300)
        ⊎ ((sub64 now tx.timestamp ≤ 300) ⊎ (sub64 tx.timestamp now ≡ 9_223_372_036_854_775_808)))
unfolding check_citizen_clock sub64
check_citizen_clock-ok tx now timed small clock = (λ h. ground arith, λ h. ground arith)
