-- ===== src/Program/Receive/Tests.antt =====
-- A payment of 7 to a receiver, where the other programs keep the amount that was moved.
use solana_proxy.Prelude.{
  ℕ, ◌+◌, ◌≡◌, refl, Bool, true, false, Option, none, some, List, [], ◌∷◌, length, replicate, arith,
  ◌==◌, if◌then◌else◌,
}
use solana_proxy.Bytes.{Bytes, be_bytes, read_be}
use solana_proxy.Program.Outcome.{Outcome, done, failed, ◌>>=◌, proxy_paused, invalid_sender}
use solana_proxy.Program.Codec.{
  get_receiver, encode_ledger_message, decode_ledger_message, get_usdc_amount, slice, slice_from,
}
use solana_proxy.Program.Payload.{
  check_ledger_payload_type, check_ledger_token_type, payload_from_u8, token_from_u8,
}
use solana_proxy.Program.Admin.{State, ProxyConfig, PeerConfig, default_peer}
use solana_proxy.Program.Receive.{
  LzReceiveParams, LzAccount, Solana, config_key, lz_receive, lz_receive_types, load,
  check_accounts, apply, usdc_amount,
}
use solana_proxy.Program.Seeds.{proxy_config_seeds, peer_config_seeds}
use solana_proxy.Program.Receive.Laws.{lz_receive_types-lz_receive, paid, payment}
use solana_proxy.Program.Receive.Safety.{lz_receive-eq-done, Pays}

abbrev solana : Solana
solana = record {
  Chain = ℕ;
  program_id = 70;
  token_program = 71;
  associated_token_program = 72;
  system_program = 73;
  event_seed = 95 ∷ [];
  clear_min_accounts_len = 1;
  find_program_address = λ seeds. 50 + length seeds;
  get_associated_token_address = λ owner mint. owner + mint;
  get_accounts_for_clear = λ endpoint oapp eid sender nonce.
      record { pubkey = endpoint; is_signer = false; is_writable = false } ∷ [];
  init_token_account = λ payer owner mint chain. done chain;
  clear = λ endpoint oapp accounts params chain. done chain;
  transfer = λ giver taker authority amount chain. done (chain + amount);
}

abbrev account_of : ℕ → Bool → Bool → LzAccount
account_of pubkey is_signer is_writable = record {
  pubkey = pubkey;
  is_signer = is_signer;
  is_writable = is_writable;
}

abbrev config : Bool → ProxyConfig
config paused = record {
  endpoint_program = 4;
  usdc_token_account = 600;
  admin = 5;
  orderly_eid = 40200;
  sol_chain_id = 901;
  paused = paused;
}

abbrev peer_of : ℕ → Option PeerConfig
peer_of eid = if eid == 40200 then some default_peer else none

abbrev state : Bool → State
state paused = record {
  config = some (config paused);
  backward_fee = none;
  peer_config = peer_of;
  config_lamports = 10;
  delegate = 5;
}

abbrev receiver : Bytes
receiver = replicate 32 9

abbrev params : Bytes → LzReceiveParams
params sender = record {
  src_eid = 40200;
  sender = sender;
  nonce = 1;
  guid = [];
  message = payment solana 7 receiver;
}

abbrev executed : Bool → Bytes → Outcome ℕ
executed paused sender = lz_receive_types solana (config paused) (params sender) 8 >>= λ accounts.
    lz_receive solana (state paused) (params sender) accounts 100

run_paused : executed true (replicate 32 0) ≡ failed proxy_paused
unfolding lz_receive_types lz_receive load check_accounts apply get_receiver encode_ledger_message
    slice be_bytes proxy_config_seeds peer_config_seeds read_be
run_paused = refl

run_stranger : executed false (replicate 32 1) ≡ failed invalid_sender
unfolding lz_receive_types lz_receive load check_accounts apply get_receiver encode_ledger_message
    slice be_bytes proxy_config_seeds peer_config_seeds read_be
run_stranger = refl

lz_receive_types-lz_receive_example :
    executed false (replicate 32 0)
    ≡ paid solana (config false) (params (replicate 32 0)) 8 receiver 7 100
lz_receive_types-lz_receive_example =
    lz_receive_types-lz_receive solana (state false) (config false) default_peer
      (params (replicate 32 0)) 8 7 receiver 100 refl refl refl refl refl refl (omega arith) refl
      (omega arith)

abbrev passed : List LzAccount
passed =
    account_of 8 true true
    ∷ account_of 51 false false
    ∷ account_of 53 false false
    ∷ account_of 600 false false
    ∷ account_of 651 false true
    ∷ account_of (read_be (replicate 32 9)) false false
    ∷ account_of (read_be (replicate 32 9) + 600) false true
    ∷ account_of 71 false false
    ∷ account_of 72 false false
    ∷ account_of 73 false false
    ∷ account_of 51 false false
    ∷ account_of 70 false false
    ∷ account_of 4 false false
    ∷ []

lz_receive-eq-done_example :
    (c : ProxyConfig) × (peer : PeerConfig) × (taker : Bytes) × (v : ℕ) × (payer : ℕ)
    × (for_clear : List LzAccount) × (ready : ℕ) × (cleared : ℕ) × ((state false).config ≡ some c)
    × (c.paused ≡ false)
    × (peer_of 40200 ≡ some peer)
    × (peer.peer_address ≡ replicate 32 0)
    × (get_receiver (payment solana 7 receiver) ≡ some taker)
    × Pays solana (payment solana 7 receiver) v
    × (solana.init_token_account payer (read_be taker) c.usdc_token_account 100 ≡ done ready)
    × (solana.clear c.endpoint_program (config_key solana) for_clear (params (replicate 32 0)) ready
        ≡ done cleared)
    × (solana.transfer
          (config_key solana + c.usdc_token_account)
          (read_be taker + c.usdc_token_account)
          (config_key solana)
          v
          cleared
        ≡ done 107)
unfolding lz_receive load check_accounts apply usdc_amount get_receiver decode_ledger_message
    encode_ledger_message get_usdc_amount slice slice_from be_bytes check_ledger_payload_type
    check_ledger_token_type payload_from_u8 token_from_u8 read_be proxy_config_seeds
    peer_config_seeds
lz_receive-eq-done_example =
    lz_receive-eq-done solana (state false) (params (replicate 32 0)) passed 100 107 refl
