-- ===== src/Program/Admin/Laws.antt =====
-- Who may change the program's accounts, and what no sequence of instructions changes.
use solana_proxy.Prelude.{
  ℕ, ◌+◌, ◌-◌, ◌≤◌, ◌≡◌, ◌⊎◌, refl, sym, ◌∙◌, subst, Bool, not, Option, none, some, if◌then◌else◌,
  ◌==◌, leb, arith, Bool-cases, inl, inr,
}
use solana_proxy.Bytes.{Bytes}
use solana_proxy.Program.Outcome.{
  Outcome, done, failed, ◌>>=◌, ◌>>◌, require, >>=-eq-done, require-eq-done, sub_u64, same_admin,
  insufficient_balance, invoked_program_failed,
}
use solana_proxy.Program.Admin.{
  State, ProxyConfig, Instruction, step, authorized, apply_peer_config, assign, peer_or_default,
  init_proxy, set_pause, set_delegate, transfer_admin, set_backward_fee, set_peer_config,
  withdraw_fee,
}

pub same_some {ℓ} : {A : Type ℓ} {a b : A} → some a ≡ some b → a ≡ b
same_some h = cc

admin-eq : (config : ProxyConfig) {c : ProxyConfig} → done config ≡ done c → config.admin ≡ c.admin
admin-eq config h = cc

authorized-eq-done :
    (config : Option ProxyConfig) (signer : ℕ) {c : ProxyConfig}
    → authorized config signer ≡ done c
    → (config ≡ some c) × (signer ≡ c.admin)
authorized-eq-done none signer h = cc
authorized-eq-done (some config) signer h = elim (Bool-cases (signer == config.admin)) [
  | inl same ↦ (cc (rw same at h), ground (arith, same, admin-eq config (rw same at h)))
  | inr other ↦ cc (rw other at h)
]

pub same_done {ℓ} : {A : Type ℓ} {a b : A} → done a ≡ done b → a ≡ b
same_done h = cc

-- The fields that are set once and for all.
abbrev pub Fixed : ProxyConfig → ProxyConfig → Type 0
Fixed c d =
    (d.endpoint_program ≡ c.endpoint_program)
    × (d.usdc_token_account ≡ c.usdc_token_account)
    × (d.orderly_eid ≡ c.orderly_eid)
    × (d.sol_chain_id ≡ c.sol_chain_id)

abbrev pub Keeps : Instruction → ProxyConfig → State → Type 0
Keeps i config state' =
    (c : ProxyConfig) × (state'.config ≡ some c)
    × Fixed config c
    × ((c.admin ≡ config.admin) ⊎ ((n : ℕ) × (i ≡ transfer_admin n) × (c.admin ≡ n)))

module _ (required_lamports : ℕ) (assert_type_3 : Bytes → Bool) where
  abbrev pub run : ℕ → ℕ → Instruction → State → Outcome State
  run = step required_lamports assert_type_3

  -- The instructions but `init_proxy`, and what each does once the signer is the admin.
  abbrev pub as_admin : ℕ → Instruction → State → ProxyConfig → Outcome State
  as_admin now (init_proxy params) state config = failed invoked_program_failed
  as_admin now (set_pause paused) state config =
      done (record state { config = some (record config { paused = paused }) })
  as_admin now (set_delegate delegate) state config = done (record state { delegate = delegate })
  as_admin now (transfer_admin new_admin) state config =
      require (not (config.admin == new_admin)) same_admin
      >> done (record state { config = some (record config { admin = new_admin }) })
  as_admin now (set_backward_fee fees) state config =
      done (record state { backward_fee = some fees })
  as_admin now (set_peer_config eid param) state config =
      apply_peer_config required_lamports assert_type_3 now param
        (peer_or_default (state.peer_config eid))
      >>= λ peer. done (record state { peer_config = assign eid peer state.peer_config })
  as_admin now (withdraw_fee amount) state config =
      sub_u64 state.config_lamports required_lamports >>= λ surplus.
      if leb amount surplus
      then done (record state { config_lamports = state.config_lamports - amount })
      else failed insufficient_balance

  -- What a withdrawal that succeeds leaves.
  pub withdrawal :
      (amount lamports required : ℕ) (state state' : State)
      → (sub_u64 lamports required >>= λ surplus.
          if leb amount surplus
          then done (record state { config_lamports = lamports - amount })
          else failed insufficient_balance)
        ≡ done state'
      → (required + amount ≤ lamports)
        × (record state { config_lamports = lamports - amount } ≡ state')
  withdrawal amount lamports required state state' e = elim (Bool-cases (leb required lamports)) [
    | inr poor ↦ cc (rw poor at e)
    | inl alive ↦ elim (Bool-cases (leb amount (lamports - required))) [
      | inr short ↦ cc (rw (alive, short) at e)
      | inl enough ↦ (ground (arith, alive, enough), same_done (rw (alive, enough) at e))
    ]
  ]

  authorized_by :
      (now signer : ℕ) (i : Instruction) (state state' : State) (config : ProxyConfig)
      → state.config ≡ some config
      → (authorized state.config signer >>= as_admin now i state) ≡ done state'
      → (signer ≡ config.admin) × (as_admin now i state config ≡ done state')
  authorized_by now signer i state state' config h e =
      let (c, known, rest) =
        >>=-eq-done (authorized state.config signer) (as_admin now i state) e in
      let (found, by_admin) = authorized-eq-done state.config signer known in
      subst (λ d. (signer ≡ d.admin) × (as_admin now i state d ≡ done state'))
        (same_some (sym found ∙ h)) (by_admin, rest)

  -- An instruction that succeeds on an initialised proxy was signed by its admin.
  pub step-as_admin :
      (now signer : ℕ) (i : Instruction) (state state' : State) (config : ProxyConfig)
      → state.config ≡ some config
      → run now signer i state ≡ done state'
      → (signer ≡ config.admin) × (as_admin now i state config ≡ done state')
  unfolding step
  step-as_admin now signer (init_proxy params) state state' config h e = cc (rw h at e)
  step-as_admin now signer (set_pause paused) state state' config h e =
      authorized_by now signer (set_pause paused) state state' config h e
  step-as_admin now signer (set_delegate delegate) state state' config h e =
      authorized_by now signer (set_delegate delegate) state state' config h e
  step-as_admin now signer (transfer_admin new_admin) state state' config h e =
      authorized_by now signer (transfer_admin new_admin) state state' config h e
  step-as_admin now signer (set_backward_fee fees) state state' config h e =
      authorized_by now signer (set_backward_fee fees) state state' config h e
  step-as_admin now signer (set_peer_config eid param) state state' config h e =
      authorized_by now signer (set_peer_config eid param) state state' config h e
  step-as_admin now signer (withdraw_fee amount) state state' config h e =
      authorized_by now signer (withdraw_fee amount) state state' config h e

  pub as_admin-Keeps :
      (now : ℕ) (i : Instruction) (state state' : State) (config : ProxyConfig)
      → state.config ≡ some config
      → as_admin now i state config ≡ done state'
      → Keeps i config state'
  as_admin-Keeps now (init_proxy params) state state' config h e = cc
  as_admin-Keeps now (set_pause paused) state state' config h e =
      subst (Keeps (set_pause paused) config) (same_done e)
        (_, refl, (refl, refl, refl, refl), inl refl)
  as_admin-Keeps now (set_delegate delegate) state state' config h e =
      subst (Keeps (set_delegate delegate) config) (same_done e)
        (config, h, (refl, refl, refl, refl), inl refl)
  as_admin-Keeps now (transfer_admin new_admin) state state' config h e =
      let (other, rest) = require-eq-done (not (config.admin == new_admin)) same_admin _ e in
      subst (Keeps (transfer_admin new_admin) config) (same_done rest)
        (_, refl, (refl, refl, refl, refl), inr (new_admin, refl, refl))
  as_admin-Keeps now (set_backward_fee fees) state state' config h e =
      subst (Keeps (set_backward_fee fees) config) (same_done e)
        (config, h, (refl, refl, refl, refl), inl refl)
  as_admin-Keeps now (set_peer_config eid param) state state' config h e =
      let (peer, applied, rest) =
        >>=-eq-done
          (apply_peer_config required_lamports assert_type_3 now param
            (peer_or_default (state.peer_config eid)))
          (λ peer. done (record state { peer_config = assign eid peer state.peer_config })) e in
      subst (Keeps (set_peer_config eid param) config) (same_done rest)
        (config, h, (refl, refl, refl, refl), inl refl)
  as_admin-Keeps now (withdraw_fee amount) state state' config h e =
      let (surplus, rest) =
        withdrawal amount state.config_lamports required_lamports state state' e in
      subst (Keeps (withdraw_fee amount) config) rest
        (config, h, (refl, refl, refl, refl), inl refl)
