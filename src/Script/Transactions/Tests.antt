-- ===== src/Script/Transactions/Tests.antt =====
-- Runs on short answers and logs.
use solana_proxy.Prelude.{
  ℕ, ◌≡◌, refl, Option, none, some, [], ◌∷◌, ◌++◌, Result, ok, throw, not_retrieved, type_error,
  invalid_peer_address_length, leb, if◌then◌else◌, replicate,
}
use solana_proxy.Bytes.{Bytes}
use solana_proxy.Script.Number.{codes}
use solana_proxy.Script.Hex.{bytes_to_hex}
use solana_proxy.Script.Transactions.{
  Log, get_transaction_with_retries, prefix, get_return_log, bytes32_to_evm_address,
}
use solana_proxy.Script.Transactions.Laws.{ended, Ending, get_transaction_with_retries-ends}
use solana_proxy.Script.Transactions.Logs.{get_return_log-last}

-- Two answers are null.
abbrev third_time : ℕ → Result (Option ℕ)
third_time n = if leb 2 n then ok (some 7) else ok none

run_third : get_transaction_with_retries ℕ third_time 10 1000 ≡ ended (ok 7) 3 2000
unfolding get_transaction_with_retries
run_third = refl

run_too_few : get_transaction_with_retries ℕ third_time 2 1000 ≡ ended (throw not_retrieved) 2 2000
unfolding get_transaction_with_retries
run_too_few = refl

abbrev one_byte : Log → Bytes
one_byte text = 1 ∷ []

run_no_payload :
    get_return_log one_byte (some (codes "Program return: Key" ∷ [])) ≡ throw type_error
unfolding get_return_log prefix
run_no_payload = refl

get_return_log-last_example :
    get_return_log one_byte (
      some (
        (codes "Program log: start" ∷ [])
        ++ (prefix ++ (codes "Key" ++ 32 ∷ codes "AQ==")) ∷ codes "Program done" ∷ []))
    ≡ ok (record { key = codes "Key"; payload = codes "AQ=="; buffer = 1 ∷ [] })
unfolding prefix
get_return_log-last_example =
    get_return_log-last one_byte (codes "Program log: start" ∷ []) (codes "Program done" ∷ [])
      (codes "Key") (codes "AQ==") refl refl refl

run_address :
    bytes32_to_evm_address (replicate 12 0 ++ replicate 20 171)
    ≡ ok (codes "0xabababababababababababababababababababab")
unfolding bytes32_to_evm_address bytes_to_hex
run_address = refl

run_short : bytes32_to_evm_address (replicate 31 0) ≡ throw invalid_peer_address_length
unfolding bytes32_to_evm_address
run_short = refl

get_transaction_with_retries-ends_example :
    Ending third_time 10 1000 (get_transaction_with_retries ℕ third_time 10 1000)
get_transaction_with_retries-ends_example = get_transaction_with_retries-ends third_time 10 1000
