-- ===== src/Script/Peer/Effect.antt =====
-- What the transactions of orderly:ledgeroapp:setpeer do to the contract. `setPeer` is of the contract's
-- base: it is the owner's, and writes the peer.
use solana_proxy.Prelude.{ℕ, String, List, [], ◌∷◌, ◌==◌, if◌then◌else◌}
use solana_proxy.Contract.Revert.{Call, returned, ◌>>=◌, ◌>>◌, require, only_owner}
use solana_proxy.Contract.LedgerOapp.{LedgerOapp}
use solana_proxy.Contract.LedgerOapp
use solana_proxy.Script.Peer.{Remote, Transaction, set_peer, set_options}

abbrev pub assign_peer : ℕ → String → (ℕ → String) → ℕ → String
assign_peer eid peer peers e = if e == eid then peer else peers e

unfoldable pub execute : ℕ → Transaction → Remote → Call Remote
execute signer (set_peer eid peer) remote = do
  require (signer == remote.contract.owner) only_owner
  returned (record remote { peers = assign_peer eid peer remote.peers })
execute signer (set_options payload_type gas value) remote = do
  contract ← LedgerOapp.set_options signer payload_type gas value remote.contract
  returned (record remote { contract = contract })

-- The task waits for each transaction, and stops at one that fails.
unfoldable pub execute_all : ℕ → List Transaction → Remote → Call Remote
unfolding execute
execute_all signer [] remote = returned remote
execute_all signer (t ∷ ts) remote = execute signer t remote >>= execute_all signer ts
