-- ===== src/Script/Peer/Tests.antt =====
-- orderly:ledgeroapp:setpeer on a contract without a peer.
use solana_proxy.Prelude.{ℕ, ◌≡◌, refl, String, Option, none, throw, type_error}
use solana_proxy.Script.Environment.{check_orderly_network, check_env, get_ledger_oapp_address}
use solana_proxy.Contract.LedgerOapp.Sample.{sample_contract}
use solana_proxy.Script.Peer.{Remote, setpeer_transactions}
use solana_proxy.Script.Peer.Entries.{Entries}

abbrev as_is : String → String
as_is s = s

abbrev no_peers : ℕ → String
no_peers e = "0x00"

abbrev fresh : Option ℕ → Remote
fresh eid = record { contract = sample_contract; solana_eid = eid; peers = no_peers }

-- A contract without `solanaEid`.
run_none : setpeer_transactions as_is "orderlysepolia" "qa" (fresh none) ≡ throw type_error
unfolding setpeer_transactions check_orderly_network check_env get_ledger_oapp_address
run_none = refl
