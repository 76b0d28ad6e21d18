-- ===== src/Script/Peer/Laws.antt =====
-- The contract after orderly:ledgeroapp:setpeer, and a second run of the task.
use solana_proxy.Contract.LedgerOapp.{LedgerOapp}
use solana_proxy.Contract.LedgerOapp
use solana_proxy.Script.Peer.Entries.{Entries}
