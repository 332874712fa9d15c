-- ===== src/Chain/Ledger/Tests.antt =====
-- core.go at concrete inputs.
use synthos_collective.Prelude.{ℕ, ◌+◌, ◌-◌, ◌≤◌, ◌<◌, ◌≡◌, refl, true, false, [], ◌∷◌, arith}
use synthos_collective.Words.{u64_mod, add64, sub64, mul64}
use synthos_collective.Dict.{lookup, insert}
use synthos_collective.Chain.Types.{Address, Account, Proposal, State, Tx, new_state, account_of}
use synthos_collective.Chain.Monad.{ok}
use synthos_collective.Chain.Citizen.Funds.{funds}
use synthos_collective.Chain.Governance.Execution.{balances}
use synthos_collective.Chain.Governance.{total_stake, pay_out}
use synthos_collective.Chain.Ledger.{
  is_native, transfer, settle_transfer, charge_fee, apply_citizen_governance_tx,
}
use synthos_collective.Chain.Ledger.Transfers.{holdings, self_loss, transfer_funds}
use synthos_collective.Chain.Ledger.Fees.{charge_fee-funds}

abbrev payment : Address → Address → ℕ → ℕ → Tx
payment from to amount fee = record {
  id = "t";
  chain_id = 1;
  from = from;
  to = to;
  amount = amount;
  fee = fee;
  nonce = 0;
  public_key = "k";
  signature = "";
  asset_id = "";
  metadata = record { key = "proposal_id"; value = "p" } ∷ [];
  timestamp = 0;
}

abbrev grant : Proposal
grant = record {
  id = "p";
  description = "";
  amount = 995;
  recipient = "bob";
  votes_for = 900;
  votes_against = 0;
  is_active = true;
  executed = false;
  voters = [];
}

abbrev town : State
unfolding new_state
town = record new_state {
  accounts =
      ("treasury", record { balance = 1000; assets = []; nonce = 0 })
      ∷ ("bob", record { balance = 50; assets = []; nonce = 0 })
      ∷ [];
  treasury_address = "treasury";
  governance_proposals = ("p", grant) ∷ [];
}

abbrev bob_after : Account
bob_after = record { balance = 39; assets = []; nonce = 1 }

abbrev treasury_after : Account
treasury_after = record { balance = 1010; assets = []; nonce = 0 }

bob_pays : transfer (payment "bob" "treasury" 10 1) town ≡ ok (bob_after, treasury_after)
unfolding transfer new_state lookup insert add64
bob_pays = refl

transfer_funds_example :
    let tx = payment "bob" "treasury" 10 1 in
    let s' = settle_transfer tx (bob_after, treasury_after) town in
    (is_native "" ≡ true → balances s' + 1 + self_loss tx ≡ balances town)
    × (is_native "" ≡ false
        → (balances s' + 1 ≡ balances town) × (holdings "" s' + self_loss tx ≡ holdings "" town))
transfer_funds_example =
    transfer_funds (payment "bob" "treasury" 10 1) town bob_after treasury_after bob_pays

-- The treasury pays out all but 5 of its balance and then owes a fee of 9.
fee_wraps :
    (account_of "treasury"
      (apply_citizen_governance_tx
        (payment "treasury" "treasury" 1 9)
        "governance_execute"
        town).1).balance
    ≡ u64_mod - 4
unfolding apply_citizen_governance_tx new_state lookup insert add64 sub64 mul64 total_stake pay_out
fee_wraps = refl

charge_fee-funds_example :
    let tx = payment "bob" "bob" 1 9 in
    (9 ≤ 50 → funds (charge_fee tx town) + 9 ≡ funds town)
    × (50 < 9 → funds (charge_fee tx town) + 9 ≡ funds town + u64_mod)
unfolding new_state lookup
charge_fee-funds_example =
    charge_fee-funds (payment "bob" "bob" 1 9) town (omega arith) (omega arith)
