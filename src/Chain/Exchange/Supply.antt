-- ===== src/Chain/Exchange/Supply.antt =====
-- core.go: the two account writes of a pool transaction, the pool's and then the sender's, and what
-- they do to the sum of a measure over all accounts. The sender is read after the first write, and
-- may be the pool's account itself.
use synthos_collective.Prelude.{
  ℕ, ◌+◌, ◌≤◌, ◌<◌, ◌≡◌, ◌≢◌, ◌⊎◌, inl, inr, get_or, arith, sym, ap, ◌∙◌, refl, string_eq,
  Option-cases, Bool-cases, eq_iff, ◌==◌,
}
use synthos_collective.Words.{u64_mod, add64, sub64}
use synthos_collective.Dict.{Dict, lookup, insert, delete, lookup-insert, lookup-delete_ne}
use synthos_collective.Dict.Sum.{
  sum_values, sum_values-insert, sum_values-delete, measure-le-sum_values,
}
use synthos_collective.Chain.Types.{Address, Account, zero_account}

-- A map's entry, or the zero account.
abbrev pub read : Address → Dict Address Account → Account
read a m = get_or (lookup a m) zero_account

-- The sender `now` as read after the pool's account `p` became `written`: another account, or the
-- same one.
abbrev Split : ℕ → ℕ → ℕ → ℕ → ℕ → Type 0
Split total p f written now =
    ((now ≡ f) × (p + f ≤ total)) ⊎ ((now ≡ written) × ((p ≡ f) × (p ≤ total)))

into_pool :
    (total p f now x fee : ℕ)
    → total < u64_mod
    → x + fee ≤ f
    → Split total p f (add64 p x) now
    → add64 p x + sub64 now (x + fee) + fee ≡ p + now
unfolding add64 sub64
into_pool total p f now x fee small enough (inl (e, le)) = omega arith
into_pool total p f now x fee small enough (inr (e, (same, le))) = omega arith

out_of_pool :
    (total p f now x fee : ℕ)
    → total < u64_mod
    → x ≤ p
    → fee ≤ f
    → Split total p f (sub64 p x) now
    → sub64 p x + add64 (sub64 now fee) x + fee ≡ p + now
unfolding add64 sub64
out_of_pool total p f now x fee small held enough (inl (e, le)) = omega arith
out_of_pool total p f now x fee small held enough (inr (e, (same, le))) = omega arith

uncharged :
    (total p f now x : ℕ)
    → total < u64_mod
    → x ≤ p
    → Split total p f (sub64 p x) now
    → sub64 now 0 ≡ now
unfolding sub64
uncharged total p f now x small held (inl (e, le)) = omega arith
uncharged total p f now x small held (inr (e, (same, le))) = omega arith

module _ (f : Account → ℕ) (none_held : f zero_account ≡ 0) where
  -- Two accounts together hold at most what all hold.
  pair-le-sum_values :
      (a b : Address) (m : Dict Address Account)
      → a ≢ b
      → f (read a m) + f (read b m) ≤ sum_values f m
  pair-le-sum_values a b m other =
      let apart = lookup-delete_ne a b m other in
      let taken = sum_values-delete f a m in
      let rest = measure-le-sum_values f b (delete a m) in
      elim (Option-cases (lookup a m)) [
        | inl h ↦ elim (Option-cases (lookup b m)) [
          | inl k ↦ ground arith
          | inr (y, k) ↦ ground arith
        ]
        | inr (x, h) ↦ elim (Option-cases (lookup b m)) [
          | inl k ↦ ground arith
          | inr (y, k) ↦ ground arith
        ]
      ]

  pub held-le-sum_values : (a : Address) (m : Dict Address Account) → f (read a m) ≤ sum_values f m
  held-le-sum_values a m =
      let held = measure-le-sum_values f a m in
      elim (Option-cases (lookup a m)) [ inl h ↦ ground arith | inr (x, h) ↦ ground arith ]

  -- A write changes a sum by what it changes of the account.
  pub sum_values-write :
      (a : Address) (acc : Account) (m : Dict Address Account)
      → sum_values f (insert a acc m) + f (read a m) ≡ sum_values f m + f acc
  sum_values-write a acc m =
      let written = sum_values-insert f a acc m in
      elim (Option-cases (lookup a m)) [ inl h ↦ ground arith | inr (x, h) ↦ ground arith ]

  read-Split :
      (a b : Address) (acc : Account) (m : Dict Address Account)
      → Split (sum_values f m) (f (read a m)) (f (read b m)) (f acc) (f (read b (insert a acc m)))
  read-Split a b acc m =
      let found = lookup-insert a b acc m in
      let same = eq_iff a b in
      elim (Bool-cases (a == b)) [
        | inl h ↦
            let e : a ≡ b = same.0 h in
            let le = held-le-sum_values a m in
            inr (rw (found, h) refl, (ap (λ (c : Address). f (read c m)) e, le))
        | inr h ↦
            let other : a ≢ b = ground arith in
            inl (rw (found, h) refl, pair-le-sum_values a b m other)
      ]

  -- What the sender pays, the fee apart, the pool's account gets.
  pub paid_in :
      (pool sender : Address) (p s : Account) (x fee : ℕ) (m : Dict Address Account)
      → sum_values f m < u64_mod
      → x + fee ≤ f (read sender m)
      → f p ≡ add64 (f (read pool m)) x
      → f s ≡ sub64 (f (read sender (insert pool p m))) (x + fee)
      → sum_values f (insert sender s (insert pool p m)) + fee ≡ sum_values f m
  paid_in pool sender p s x fee m small enough added charged =
      let a = sum_values-write pool p m in
      let b = sum_values-write sender s (insert pool p m) in
      let moved =
        into_pool (sum_values f m) (f (read pool m)) (f (read sender m))
          (f (read sender (insert pool p m))) x fee small enough
          (rw (sym added) (read-Split pool sender p m)) in
      omega arith

  -- What the pool's account pays the sender gets, less the fee.
  pub paid_out :
      (pool sender : Address) (p s : Account) (x fee : ℕ) (m : Dict Address Account)
      → sum_values f m < u64_mod
      → x ≤ f (read pool m)
      → fee ≤ f (read sender m)
      → f p ≡ sub64 (f (read pool m)) x
      → f s ≡ add64 (sub64 (f (read sender (insert pool p m))) fee) x
      → sum_values f (insert sender s (insert pool p m)) + fee ≡ sum_values f m
  paid_out pool sender p s x fee m small held enough taken credited =
      let a = sum_values-write pool p m in
      let b = sum_values-write sender s (insert pool p m) in
      let moved =
        out_of_pool (sum_values f m) (f (read pool m)) (f (read sender m))
          (f (read sender (insert pool p m))) x fee small held enough
          (rw (sym taken) (read-Split pool sender p m)) in
      omega arith

  pub untouched :
      (pool sender : Address) (p s : Account) (m : Dict Address Account)
      → f p ≡ f (read pool m)
      → f s ≡ f (read sender (insert pool p m))
      → sum_values f (insert sender s (insert pool p m)) ≡ sum_values f m
  untouched pool sender p s m same_pool same_sender =
      let a = sum_values-write pool p m in
      let b = sum_values-write sender s (insert pool p m) in omega arith

  -- The same without a fee.
  pub kept_in :
      (pool sender : Address) (p s : Account) (x : ℕ) (m : Dict Address Account)
      → sum_values f m < u64_mod
      → x ≤ f (read sender m)
      → f p ≡ add64 (f (read pool m)) x
      → f s ≡ sub64 (f (read sender (insert pool p m))) x
      → sum_values f (insert sender s (insert pool p m)) ≡ sum_values f m
  kept_in pool sender p s x m small enough added charged =
      let bare : x + 0 ≡ x = omega arith in
      let now = f (read sender (insert pool p m)) in
      omega (
        arith,
        paid_in pool sender p s x 0 m small (omega arith) added
            (charged ∙ ap (sub64 now) (sym bare)),
      )

  pub kept_out :
      (pool sender : Address) (p s : Account) (x : ℕ) (m : Dict Address Account)
      → sum_values f m < u64_mod
      → x ≤ f (read pool m)
      → f p ≡ sub64 (f (read pool m)) x
      → f s ≡ add64 (f (read sender (insert pool p m))) x
      → sum_values f (insert sender s (insert pool p m)) ≡ sum_values f m
  kept_out pool sender p s x m small held taken credited =
      let now = f (read sender (insert pool p m)) in
      let split : Split (sum_values f m) (f (read pool m)) (f (read sender m))
          (sub64 (f (read pool m)) x) now =
        rw (sym taken) (read-Split pool sender p m) in
      let bare : sub64 now 0 ≡ now =
        uncharged (sum_values f m) (f (read pool m)) (f (read sender m)) now x small held split in
      omega (
        arith,
        paid_out pool sender p s x 0 m small held (omega arith) taken
            (credited ∙ ap (λ (n : ℕ). add64 n x) (sym bare)),
      )
