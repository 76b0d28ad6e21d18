-- ===== src/Program/Admin.antt =====
-- The instructions of programs/solana-proxy/src/instructions that only the admin may send, and
-- init_proxy: one step from the accounts' state to the next. A key is the number of its 32 bytes. The
-- rent that keeps an account alive, the clock's time and the check `assert_type_3` of the LayerZero
-- library are parameters.
pub mod Laws
pub mod Reachability
mod Tests
use solana_proxy.Prelude.{
  ℕ, ◌+◌, ◌-◌, Bool, true, false, not, Option, none, some, List, [], ◌∷◌, if◌then◌else◌, ◌==◌, ltb,
  leb, replicate,
}
use solana_proxy.Bytes.{Bytes}
use solana_proxy.Program.Outcome.{
  Outcome, done, failed, ◌>>=◌, ◌>>◌, require, add_u64, sub_u64, invalid_proxy_admin, same_admin,
  invalid_fee, insufficient_balance, account_missing, invoked_program_failed,
}
use solana_proxy.Program.Request.{BackwardFee, EnforcedOptions}
use solana_proxy.Program.RateLimiter.{RateLimiter, RateLimitParams, update_rate_limiter}

pub record ProxyConfig : Type 0 where
  pub endpoint_program : ℕ
  pub usdc_token_account : ℕ
  pub admin : ℕ
  pub orderly_eid : ℕ
  pub sol_chain_id : ℕ
  pub paused : Bool

pub record PeerConfig : Type 0 where
  pub peer_address : Bytes
  pub enforced_options : EnforcedOptions
  pub outbound_rate_limiter : Option RateLimiter
  pub inbound_rate_limiter : Option RateLimiter
  pub fee_bps : Option ℕ

pub data PeerConfigParam : Type 0 where
  peer_address_param : Bytes → PeerConfigParam
  fee_bps_param : Option ℕ → PeerConfigParam
  enforced_options_param : Bytes → Bytes → PeerConfigParam
  outbound_rate_limit_param inbound_rate_limit_param : Option RateLimitParams → PeerConfigParam

-- The accounts of the program; `config` is missing before `init_proxy`, and a peer's before it is set.
pub record State : Type 0 where
  pub config : Option ProxyConfig
  pub backward_fee : Option BackwardFee
  pub peer_config : ℕ → Option PeerConfig
  pub config_lamports : ℕ
  pub delegate : ℕ

pub record InitProxyParams : Type 0 where
  pub endpoint_program : ℕ
  pub usdc_token_account : ℕ
  pub admin : ℕ
  pub orderly_eid : ℕ
  pub sol_chain_id : ℕ

pub data Instruction : Type 0 where
  init_proxy : InitProxyParams → Instruction
  set_pause : Bool → Instruction
  set_delegate : ℕ → Instruction
  transfer_admin : ℕ → Instruction
  set_backward_fee : BackwardFee → Instruction
  set_peer_config : ℕ → PeerConfigParam → Instruction
  withdraw_fee : ℕ → Instruction

abbrev pub max_fee_basis_points : ℕ
max_fee_basis_points = 10000

-- What `init_if_needed` makes of a missing account.
abbrev pub default_peer : PeerConfig
default_peer = record {
  peer_address = replicate 32 0;
  enforced_options = record { send = []; send_and_call = [] };
  outbound_rate_limiter = none;
  inbound_rate_limiter = none;
  fee_bps = none;
}

abbrev pub peer_or_default : Option PeerConfig → PeerConfig
peer_or_default none = default_peer
peer_or_default (some peer) = peer

-- `if let Some(fee_bps) = fee_bps { require!(fee_bps < MAX_FEE_BASIS_POINTS, …) }`
abbrev pub check_fee_bps : Option ℕ → Outcome (Unit {0})
check_fee_bps none = done tt
check_fee_bps (some fee_bps) = require (ltb fee_bps max_fee_basis_points) invalid_fee

-- The configuration, if the signer is its admin.
abbrev pub authorized : Option ProxyConfig → ℕ → Outcome ProxyConfig
authorized none signer = failed account_missing
authorized (some config) signer =
    if signer == config.admin then done config else failed invalid_proxy_admin

abbrev pub assign {ℓ} : {A : Type ℓ} → ℕ → A → (ℕ → Option A) → ℕ → Option A
assign key value map key' = if key' == key then some value else map key'

module _ (required_lamports : ℕ) (assert_type_3 : Bytes → Bool) where
  unfoldable pub apply_peer_config : ℕ → PeerConfigParam → PeerConfig → Outcome PeerConfig
  apply_peer_config now (peer_address_param address) peer =
      done (record peer { peer_address = address })
  apply_peer_config now (fee_bps_param fee_bps) peer = do
    check_fee_bps fee_bps
    done (record peer { fee_bps = fee_bps })
  apply_peer_config now (enforced_options_param send send_and_call) peer = do
    require (assert_type_3 send) invoked_program_failed
    require (assert_type_3 send_and_call) invoked_program_failed
    done (record peer { enforced_options = record { send = send; send_and_call = send_and_call } })
  apply_peer_config now (outbound_rate_limit_param params) peer = done (record peer {
    outbound_rate_limiter = update_rate_limiter now peer.outbound_rate_limiter params;
  })
  apply_peer_config now (inbound_rate_limit_param params) peer = done (record peer {
    inbound_rate_limiter = update_rate_limiter now peer.inbound_rate_limiter params;
  })

  -- An instruction at a time, signed by `signer`.
  unfoldable pub step : ℕ → ℕ → Instruction → State → Outcome State
  step now signer (init_proxy params) state = elim state.config [
    | some config ↦ failed invoked_program_failed
    | none ↦ done (record state {
      config = some (record {
        endpoint_program = params.endpoint_program;
        usdc_token_account = params.usdc_token_account;
        admin = params.admin;
        orderly_eid = params.orderly_eid;
        sol_chain_id = params.sol_chain_id;
        paused = false;
      });
      config_lamports = state.config_lamports + (required_lamports - state.config_lamports);
      delegate = params.admin;
    })
  ]
  step now signer (set_pause paused) state = do
    config ← authorized state.config signer
    done (record state { config = some (record config { paused = paused }) })
  step now signer (set_delegate delegate) state = do
    config ← authorized state.config signer
    done (record state { delegate = delegate })
  step now signer (transfer_admin new_admin) state = do
    config ← authorized state.config signer
    require (not (config.admin == new_admin)) same_admin
    done (record state { config = some (record config { admin = new_admin }) })
  step now signer (set_backward_fee fees) state = do
    config ← authorized state.config signer
    done (record state { backward_fee = some fees })
  step now signer (set_peer_config eid param) state = do
    config ← authorized state.config signer
    peer ← apply_peer_config now param (peer_or_default (state.peer_config eid))
    done (record state { peer_config = assign eid peer state.peer_config })
  step now signer (withdraw_fee amount) state = do
    config ← authorized state.config signer
    surplus ← sub_u64 state.config_lamports required_lamports
    if leb amount surplus
        then done (record state { config_lamports = state.config_lamports - amount })
        else failed insufficient_balance
