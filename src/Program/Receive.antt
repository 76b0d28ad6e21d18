-- ===== src/Program/Receive.antt =====
-- A message of the contract on its way in: lz_receive.rs and lz_receive_types.rs of
-- programs/solana-proxy/src/instructions. A key is the number of its 32 bytes. Derived addresses, the
-- token program, the endpoint's `clear` and its accounts are parameters.
pub mod Laws
pub mod Checks
pub mod Safety
mod Tests
use solana_proxy.Prelude.{
  ℕ, Bool, true, false, ◌&&◌, Option, none, some, List, [], ◌∷◌, ◌++◌, ◌==◌, take, length, leb, not,
  if◌then◌else◌,
}
use solana_proxy.Bytes.{Bytes, be_bytes, read_be}
use solana_proxy.Program.Outcome.{
  Outcome, done, failed, ◌>>=◌, ◌>>◌, require, ProxyError, panicked, account_missing,
  account_refused, proxy_paused, invalid_sender, invalid_receiver, invalid_usdc_account,
  invalid_ledger_payload_type, invalid_ledger_token_type,
}
use solana_proxy.Program.Payload.{check_ledger_payload_type, check_ledger_token_type}
use solana_proxy.Program.Codec.{
  LedgerMessage, slice, get_receiver, decode_ledger_message, get_usdc_amount,
}
use solana_proxy.Program.Seeds.{proxy_config_seeds, peer_config_seeds}
use solana_proxy.Program.Admin.{State, ProxyConfig, PeerConfig}

pub record LzReceiveParams : Type 0 where
  pub src_eid : ℕ
  pub sender : Bytes
  pub nonce : ℕ
  pub guid : Bytes
  pub message : Bytes

pub record LzAccount : Type 0 where
  pub pubkey : ℕ
  pub is_signer : Bool
  pub is_writable : Bool

-- What the instructions call of other programs and libraries. `Chain` is all that these keep.
pub record Solana : Type 1 where
  pub Chain : Type 0
  pub program_id : ℕ
  pub token_program : ℕ
  pub associated_token_program : ℕ
  pub system_program : ℕ
  pub event_seed : Bytes
  pub clear_min_accounts_len : ℕ
  pub find_program_address : List Bytes → ℕ
  pub get_associated_token_address : ℕ → ℕ → ℕ
  pub get_accounts_for_clear : ℕ → ℕ → ℕ → Bytes → ℕ → List LzAccount
  -- `init_if_needed` of the token account that a receiver has for a mint
  pub init_token_account : ℕ → ℕ → ℕ → Chain → Outcome Chain
  -- `endpoint_cpi::clear`: endpoint, receiver, accounts, and the message with its path
  pub clear : ℕ → ℕ → List LzAccount → LzReceiveParams → Chain → Outcome Chain
  -- `transfer`: from, to, authority and amount
  pub transfer : ℕ → ℕ → ℕ → ℕ → Chain → Outcome Chain

-- The fields of `LzReceive`, with the two that `#[event_cpi]` adds.
pub record Accounts : Type 0 where
  pub payer : LzAccount
  pub proxy_config : LzAccount
  pub peer_config : LzAccount
  pub token_mint : LzAccount
  pub proxy_token_account : LzAccount
  pub receiver : LzAccount
  pub receiver_token_account : LzAccount
  pub token_program : LzAccount
  pub associated_token_program : LzAccount
  pub system_program : LzAccount
  pub event_authority : LzAccount
  pub program : LzAccount
  pub remaining_accounts : List LzAccount

unfoldable pub load : List LzAccount → Outcome Accounts
load
      (payer ∷ config ∷ peer ∷ mint ∷ from ∷ receiver ∷ to ∷ token ∷ associated ∷ system ∷ event
        ∷ program ∷ remaining) =
    done (record {
      payer = payer;
      proxy_config = config;
      peer_config = peer;
      token_mint = mint;
      proxy_token_account = from;
      receiver = receiver;
      receiver_token_account = to;
      token_program = token;
      associated_token_program = associated;
      system_program = system;
      event_authority = event;
      program = program;
      remaining_accounts = remaining;
    })
load _ = failed account_missing

abbrev pub or_failed {ℓ} : {A : Type ℓ} → ProxyError → Option A → Outcome A
or_failed error none = failed error
or_failed error (some a) = done a

abbrev pub same_bytes : Bytes → Bytes → Bool
same_bytes [] [] = true
same_bytes (b ∷ bs) (c ∷ cs) = (b == c) && same_bytes bs cs
same_bytes _ _ = false

module _ (solana : Solana) where
  open solana use {Chain, find_program_address, get_associated_token_address}

  abbrev pub config_key : ℕ
  config_key = find_program_address proxy_config_seeds

  abbrev pub peer_key : ℕ → ℕ
  peer_key eid = find_program_address (peer_config_seeds (be_bytes 32 config_key) eid)

  -- What Anchor checks before `LzReceive::apply`, in the order of the fields.
  unfoldable pub check_accounts : State → LzReceiveParams → Accounts → Outcome ProxyConfig
  check_accounts state params accounts = do
    config ← or_failed account_missing state.config
    peer ← or_failed account_missing (state.peer_config params.src_eid)
    receiver ← or_failed panicked (get_receiver params.message)
    require (accounts.payer.is_signer && accounts.payer.is_writable) account_refused
    require (accounts.proxy_config.pubkey == config_key) account_refused
    require (accounts.peer_config.pubkey == peer_key params.src_eid) account_refused
    require (same_bytes peer.peer_address params.sender) invalid_sender
    require (config.usdc_token_account == accounts.token_mint.pubkey) invalid_usdc_account
    require
        (accounts.proxy_token_account.is_writable
          && (accounts.proxy_token_account.pubkey
              == get_associated_token_address accounts.proxy_config.pubkey
                  accounts.token_mint.pubkey))
        account_refused
    require (read_be receiver == accounts.receiver.pubkey) invalid_receiver
    require
        (accounts.receiver_token_account.is_writable
          && (accounts.receiver_token_account.pubkey
              == get_associated_token_address accounts.receiver.pubkey accounts.token_mint.pubkey))
        account_refused
    require (accounts.token_program.pubkey == solana.token_program) account_refused
    require (accounts.associated_token_program.pubkey == solana.associated_token_program)
        account_refused
    require (accounts.system_program.pubkey == solana.system_program) account_refused
    require (accounts.event_authority.pubkey == find_program_address (solana.event_seed ∷ []))
        account_refused
    done config

  -- `&remaining_accounts[0..Clear::MIN_ACCOUNTS_LEN]`
  abbrev pub accounts_for_clear : List LzAccount → Outcome (List LzAccount)
  accounts_for_clear remaining =
      if leb solana.clear_min_accounts_len (length remaining)
      then done (take solana.clear_min_accounts_len remaining)
      else failed panicked

  -- `SolanaLedgerOCCMessage::decode` and the checks on what it gives, down to the amount
  unfoldable pub usdc_amount : Bytes → Outcome ℕ
  usdc_amount bytes = do
    message ← or_failed panicked (decode_ledger_message bytes)
    require (check_ledger_payload_type message.payload_type) invalid_ledger_payload_type
    require (check_ledger_token_type message.token) invalid_ledger_token_type
    amount_bytes ← or_failed panicked (slice 0 32 message.payload)
    done (get_usdc_amount amount_bytes)

  -- `LzReceive::apply`
  unfoldable pub apply : ProxyConfig → LzReceiveParams → Accounts → Chain → Outcome Chain
  apply config params accounts chain = do
    require (not config.paused) proxy_paused
    for_clear ← accounts_for_clear accounts.remaining_accounts
    cleared ←
        solana.clear config.endpoint_program accounts.proxy_config.pubkey for_clear params chain
    amount ← usdc_amount params.message
    solana.transfer accounts.proxy_token_account.pubkey accounts.receiver_token_account.pubkey
        accounts.proxy_config.pubkey amount cleared

  unfoldable pub lz_receive : State → LzReceiveParams → List LzAccount → Chain → Outcome Chain
  lz_receive state params passed chain = do
    accounts ← load passed
    config ← check_accounts state params accounts
    ready ←
        solana.init_token_account accounts.payer.pubkey accounts.receiver.pubkey
          accounts.token_mint.pubkey chain
    apply config params accounts ready

  -- `LzReceiveTypes::apply`, where the executor puts its own key in the place of the signer's.
  unfoldable pub lz_receive_types : ProxyConfig → LzReceiveParams → ℕ → Outcome (List LzAccount)
  lz_receive_types config params executor = do
    receiver ← or_failed panicked (get_receiver params.message)
    done (
        record { pubkey = executor; is_signer = true; is_writable = true }
        ∷ record { pubkey = config_key; is_signer = false; is_writable = false }
        ∷ record { pubkey = peer_key config.orderly_eid; is_signer = false; is_writable = false }
        ∷ record { pubkey = config.usdc_token_account; is_signer = false; is_writable = false }
        ∷ record {
          pubkey = get_associated_token_address config_key config.usdc_token_account;
          is_signer = false;
          is_writable = true;
        }
        ∷ record { pubkey = read_be receiver; is_signer = false; is_writable = false }
        ∷ record {
          pubkey = get_associated_token_address (read_be receiver) config.usdc_token_account;
          is_signer = false;
          is_writable = true;
        }
        ∷ record { pubkey = solana.token_program; is_signer = false; is_writable = false }
        ∷ record {
          pubkey = solana.associated_token_program;
          is_signer = false;
          is_writable = false;
        }
        ∷ record { pubkey = solana.system_program; is_signer = false; is_writable = false }
        ∷ record {
          pubkey = find_program_address (solana.event_seed ∷ []);
          is_signer = false;
          is_writable = false;
        }
        ∷ record { pubkey = solana.program_id; is_signer = false; is_writable = false }
        ∷ solana.get_accounts_for_clear config.endpoint_program config_key params.src_eid
            params.sender params.nonce)
