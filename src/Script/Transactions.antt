-- ===== src/Script/Transactions.antt =====
-- What tasks/proxy/utils.ts reads back of a transaction: getTransactionWithRetries, getReturnLog, and
-- bytes32ToEvmAddress. The connection's answers and base64 are parameters; a log is its code units.
pub mod Laws
pub mod Logs
mod Tests
use solana_proxy.Prelude.{
  ℕ, zero, suc, ◌+◌, ◌-◌, Bool, true, false, ◌&&◌, not, Option, none, some, List, [], ◌∷◌, ◌++◌,
  Result, ok, throw, ◌>>=◌, ◌>>◌, or_throw, require, type_error, not_retrieved, log_undefined,
  invalid_peer_address_length, ◌==◌, if◌then◌else◌, drop, length,
}
use mathlib.Core.List.{reverse}
use solana_proxy.Bytes.{Bytes}
use solana_proxy.Script.Number.{codes}
use solana_proxy.Script.Hex.{bytes_to_hex}

module _ {ℓ} (Transaction : Type ℓ) where
  -- How a loop of requests ended: its answer, the requests made, and the milliseconds waited.
  pub record Retrieval : Type ℓ where
    pub answer : Result Transaction
    pub requests : ℕ
    pub waited : ℕ

  -- The rounds of the loop that are left, at its `attempts`-th request. `null` is `none`.
  unfoldable retry : (ℕ → Result (Option Transaction)) → ℕ → ℕ → ℕ → ℕ → Retrieval
  retry get_transaction delay zero attempts waited = record {
    answer = throw not_retrieved;
    requests = attempts;
    waited = waited;
  }
  retry get_transaction delay (suc rounds) attempts waited = elim (get_transaction attempts) [
    | throw e ↦ record { answer = throw e; requests = attempts + 1; waited = waited }
    | ok (some tx) ↦ record { answer = ok tx; requests = attempts + 1; waited = waited }
    | ok none ↦ retry get_transaction delay rounds (attempts + 1) (waited + delay)
  ]

  -- `while (attempts < maxRetries) { … }`, where the connection's n-th answer is `get_transaction n`
  unfoldable pub get_transaction_with_retries :
      (ℕ → Result (Option Transaction)) → ℕ → ℕ → Retrieval
  unfolding retry
  get_transaction_with_retries get_transaction max_retries delay =
      retry get_transaction delay max_retries 0 0

abbrev pub Log : Type 0
Log = List ℕ

-- `log.startsWith(prefix)`
abbrev pub starts_with : Log → Log → Bool
starts_with [] log = true
starts_with (c ∷ prefix) [] = false
starts_with (c ∷ prefix) (d ∷ log) = (c == d) && starts_with prefix log

-- `logs.find((log) => log.startsWith(prefix))`
abbrev pub find_log : Log → List Log → Option Log
find_log prefix [] = none
find_log prefix (log ∷ logs) = if starts_with prefix log then some log else find_log prefix logs

-- `text.split(' ')`: a piece, and what comes after the space that ends it.
abbrev pub push_front : ℕ → Log × Option Log → Log × Option Log
push_front c (piece, rest) = (c ∷ piece, rest)

unfoldable pub split_once : Log → Log × Option Log
split_once [] = ([], none)
split_once (c ∷ text) =
    let rest = split_once text in if c == 32 then ([], some text) else push_front c rest

unfoldable pub prefix : Log
prefix = codes "Program return: "

pub record ReturnLog : Type 0 where
  pub key : Log
  pub payload : Log
  pub buffer : Bytes

-- `const [key, data] = log.split(' ', 2)`; `Buffer.from(undefined)` throws.
abbrev pub second_piece : Option Log → Result Log
second_piece none = throw type_error
second_piece (some rest) = ok ((split_once rest).0)

module _ (from_base64 : Log → Bytes) where
  -- `none` is a transaction without `meta` or without `logMessages`.
  unfoldable pub get_return_log : Option (List Log) → Result ReturnLog
  unfolding split_once
  get_return_log none = throw log_undefined
  get_return_log (some log_messages) = do
    log ← or_throw log_undefined (find_log prefix (reverse log_messages))
    let (key, rest) = split_once (drop (length prefix) log)
    payload ← second_piece rest
    ok (record { key = key; payload = payload; buffer = from_base64 payload })

unfoldable pub bytes32_to_evm_address : Bytes → Result (List ℕ)
bytes32_to_evm_address bytes32_address = do
  require (length bytes32_address == 32) invalid_peer_address_length
  ok (codes "0x" ++ bytes_to_hex (drop (length bytes32_address - 20) bytes32_address))
