-- ===== src/Program/Admin/Reachability.antt =====
-- Sequences of instructions on the program's accounts: what they keep, and what they keep true.
use solana_proxy.Prelude.{
  ℕ, ◌≤◌, ◌<◌, ◌≡◌, refl, ◌∙◌, subst, Bool, not, Option, none, some, ◌==◌, ltb, arith, Bool-cases,
  Option-cases, inl, inr,
}
use solana_proxy.Bytes.{Bytes}
use solana_proxy.Program.Outcome.{
  done, >>=-eq-done, require-eq-done, invoked_program_failed, same_admin,
}
use solana_proxy.Program.RateLimiter.Laws.{AreBounded, update_rate_limiter-IsBounded}
use solana_proxy.Program.Admin.{
  State, ProxyConfig, PeerConfig, PeerConfigParam, Instruction, step, apply_peer_config, assign,
  check_fee_bps, peer_or_default, max_fee_basis_points, init_proxy, set_pause, set_delegate,
  transfer_admin, set_backward_fee, set_peer_config, withdraw_fee, fee_bps_param,
  peer_address_param, enforced_options_param, outbound_rate_limit_param, inbound_rate_limit_param,
}
use solana_proxy.Program.Admin.Laws.{
  run, as_admin, step-as_admin, as_admin-Keeps, Fixed, withdrawal, same_done, same_some,
}

abbrev FeeIsValid : Option ℕ → Type 0
FeeIsValid none = Unit
FeeIsValid (some fee_bps) = fee_bps < max_fee_basis_points

abbrev pub PeerIsValid : PeerConfig → Type 0
PeerIsValid peer =
    FeeIsValid peer.fee_bps
    × AreBounded peer.outbound_rate_limiter
    × AreBounded peer.inbound_rate_limiter

peer_or_default-PeerIsValid :
    (peer : Option PeerConfig)
    → ((p : PeerConfig) → peer ≡ some p → PeerIsValid p)
    → PeerIsValid (peer_or_default peer)
peer_or_default-PeerIsValid none h = (tt, tt, tt)
peer_or_default-PeerIsValid (some peer) h = h peer refl

check_fee_bps-eq-done :
    (fee_bps : Option ℕ) {u : Unit {0}} → check_fee_bps fee_bps ≡ done u → FeeIsValid fee_bps
check_fee_bps-eq-done none h = tt
check_fee_bps-eq-done (some fee_bps) h = elim (Bool-cases (ltb fee_bps max_fee_basis_points)) [
  | inl small ↦ ground (arith, small)
  | inr large ↦ cc (rw large at h)
]

module _ (required_lamports : ℕ) (assert_type_3 : Bytes → Bool) where
  pub data Reaches (s : State) : State → Type 0 where
    start : Reaches s s
    next :
        (now signer : ℕ) (i : Instruction) {t u : State}
        → Reaches s t
        → run required_lamports assert_type_3 now signer i t ≡ done u
        → Reaches s u

  Fixed-trans : (b c d : ProxyConfig) → Fixed b c → Fixed c d → Fixed b d
  Fixed-trans b c d (p, q, r, s) (p', q', r', s') = (p' ∙ p, q' ∙ q, r' ∙ r, s' ∙ s)

  -- Once the proxy is initialised, no sequence of instructions changes its endpoint program, its USDC
  -- account, the eid of Orderly or the chain id.
  pub Reaches-Fixed :
      (state state' : State) (config : ProxyConfig)
      → state.config ≡ some config
      → Reaches state state'
      → (config' : ProxyConfig) × (state'.config ≡ some config') × Fixed config config'
  Reaches-Fixed state state' config h start = (config, h, (refl, refl, refl, refl))
  Reaches-Fixed state state' config h (next now signer i {t} {u} path e) =
      let (c, known, fixed) = Reaches-Fixed state t config h path in
      let (by_admin, done_by_admin) =
        step-as_admin required_lamports assert_type_3 now signer i t u c known e in
      let (d, known', fixed', admin) =
        as_admin-Keeps required_lamports assert_type_3 now i t u c known done_by_admin in
      (d, known', Fixed-trans config c d fixed fixed')

  apply_peer_config-PeerIsValid :
      (now : ℕ) (param : PeerConfigParam) (peer peer' : PeerConfig)
      → PeerIsValid peer
      → apply_peer_config required_lamports assert_type_3 now param peer ≡ done peer'
      → PeerIsValid peer'
  unfolding apply_peer_config
  apply_peer_config-PeerIsValid now (peer_address_param address) peer peer' (f, o, i) e =
      subst PeerIsValid (same_done e) (f, o, i)
  apply_peer_config-PeerIsValid now (fee_bps_param fee_bps) peer peer' (f, o, i) e =
      let (u, checked, rest) =
        >>=-eq-done (check_fee_bps fee_bps) (λ _. done (record peer { fee_bps = fee_bps })) e in
      subst PeerIsValid (same_done rest) (check_fee_bps-eq-done fee_bps checked, o, i)
  apply_peer_config-PeerIsValid now (enforced_options_param send send_and_call) peer peer' (f, o, i)
        e =
      let (sent, after) = require-eq-done (assert_type_3 send) invoked_program_failed _ e in
      let (called, rest) =
        require-eq-done (assert_type_3 send_and_call) invoked_program_failed _ after in
      subst PeerIsValid (same_done rest) (f, o, i)
  apply_peer_config-PeerIsValid now (outbound_rate_limit_param params) peer peer' (f, o, i) e =
      subst PeerIsValid (same_done e)
        (f, update_rate_limiter-IsBounded now peer.outbound_rate_limiter params o, i)
  apply_peer_config-PeerIsValid now (inbound_rate_limit_param params) peer peer' (f, o, i) e =
      subst PeerIsValid (same_done e)
        (f, o, update_rate_limiter-IsBounded now peer.inbound_rate_limiter params i)

  -- The configuration's account keeps its rent, and every peer's is valid.
  abbrev pub StateIsValid : State → Type 0
  StateIsValid s =
      ((c : ProxyConfig) → s.config ≡ some c → required_lamports ≤ s.config_lamports)
      × ((eid : ℕ) (peer : PeerConfig) → s.peer_config eid ≡ some peer → PeerIsValid peer)

  assign-PeerIsValid :
      (eid : ℕ) (peer : PeerConfig) (peers : ℕ → Option PeerConfig)
      → PeerIsValid peer
      → ((eid : ℕ) (p : PeerConfig) → peers eid ≡ some p → PeerIsValid p)
      → (eid' : ℕ) (p : PeerConfig) → assign eid peer peers eid' ≡ some p
      → PeerIsValid p
  assign-PeerIsValid eid peer peers v vs eid' p e = elim (Bool-cases (eid' == eid)) [
    | inl same ↦ subst PeerIsValid (same_some (rw same at e)) v
    | inr other ↦ vs eid' p (rw other at e)
  ]

  as_admin-StateIsValid :
      (now : ℕ) (i : Instruction) (s s' : State) (c : ProxyConfig)
      → s.config ≡ some c
      → StateIsValid s
      → as_admin required_lamports assert_type_3 now i s c ≡ done s'
      → StateIsValid s'
  as_admin-StateIsValid now (init_proxy params) s s' c h v e = cc
  as_admin-StateIsValid now (set_pause paused) s s' c h (rent, peers) e =
      subst StateIsValid (same_done e) (λ _ _. rent c h, peers)
  as_admin-StateIsValid now (set_delegate delegate) s s' c h v e =
      subst StateIsValid (same_done e) v
  as_admin-StateIsValid now (transfer_admin new_admin) s s' c h (rent, peers) e =
      let (other, rest) = require-eq-done (not (c.admin == new_admin)) same_admin _ e in
      subst StateIsValid (same_done rest) (λ _ _. rent c h, peers)
  as_admin-StateIsValid now (set_backward_fee fees) s s' c h v e =
      subst StateIsValid (same_done e) v
  as_admin-StateIsValid now (set_peer_config eid param) s s' c h (rent, peers) e =
      let before = peer_or_default (s.peer_config eid) in
      let (peer, applied, rest) =
        >>=-eq-done (apply_peer_config required_lamports assert_type_3 now param before)
          (λ peer. done (record s { peer_config = assign eid peer s.peer_config })) e in
      subst StateIsValid (same_done rest) (
        rent,
        assign-PeerIsValid eid peer s.peer_config
            (apply_peer_config-PeerIsValid now param before peer
              (peer_or_default-PeerIsValid (s.peer_config eid) (peers eid)) applied)
            peers,
      )
  as_admin-StateIsValid now (withdraw_fee amount) s s' c h (rent, peers) e =
      let (fits, rest) =
        withdrawal required_lamports assert_type_3 amount s.config_lamports required_lamports s s'
          e in
      subst StateIsValid rest (λ _ _. omega (arith, fits), peers)

  step-initial :
      (now signer : ℕ) (i : Instruction) (s s' : State)
      → s.config ≡ none
      → StateIsValid s
      → run required_lamports assert_type_3 now signer i s ≡ done s'
      → StateIsValid s'
  unfolding step
  step-initial now signer (init_proxy params) s s' h (rent, peers) e =
      subst StateIsValid (same_done (rw h at e)) (λ _ _. omega arith, peers)
  step-initial now signer (set_pause paused) s s' h v e = cc (rw h at e)
  step-initial now signer _ s s' h v e = cc (rw h at e)

  step-StateIsValid :
      (now signer : ℕ) (i : Instruction) (s s' : State)
      → StateIsValid s
      → run required_lamports assert_type_3 now signer i s ≡ done s'
      → StateIsValid s'
  step-StateIsValid now signer i s s' v e = elim (Option-cases s.config) [
    | inl missing ↦ step-initial now signer i s s' missing v e
    | inr (c, known) ↦
        as_admin-StateIsValid now i s s' c known v
          (step-as_admin required_lamports assert_type_3 now signer i s s' c known e).1
  ]

  -- From a valid state, every sequence of instructions ends in a valid one.
  pub Reaches-StateIsValid : (s s' : State) → StateIsValid s → Reaches s s' → StateIsValid s'
  Reaches-StateIsValid s s' v start = v
  Reaches-StateIsValid s s' v (next now signer i {t} {u} path e) =
      step-StateIsValid now signer i t u (Reaches-StateIsValid s t v path) e
