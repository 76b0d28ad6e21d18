-- ===== src/Script/Pda/Laws.antt =====
-- Which eids the addresses can be derived for, and which derivations are the same.
use solana_proxy.Prelude.{ℕ, ◌≡◌, refl, none}
use solana_proxy.Bytes.{Bytes}
use solana_proxy.Script.Keys.{PublicKeys}
use solana_proxy.Script.Pda.{SdkSeeds}
use solana_proxy.Script.Pda.Proxy.{get_peer_pda, get_peer_config_pda}
use solana_proxy.Script.Pda.Endpoint.{
  get_uln_send_config_pda, get_default_send_config_pda, get_uln_receive_config_pda,
  get_default_receive_config_pda, get_send_lib_pda, get_message_lib_pda, get_send_lib_info_pda,
  get_message_lib_info_pda,
}

module _ (k : PublicKeys) (sdk : SdkSeeds) where
  open k use {PublicKey}

  -- Five pairs of helpers derive the same address under two names.
  pub pdas-agree :
      (program config : PublicKey) (eid : ℕ)
      → (get_peer_config_pda k sdk program eid config ≡ get_peer_pda k sdk program config eid)
        × (get_uln_send_config_pda k sdk eid ≡ get_default_send_config_pda k sdk eid)
        × (get_uln_receive_config_pda k sdk eid ≡ get_default_receive_config_pda k sdk eid none)
        × (get_message_lib_pda k sdk none ≡ get_send_lib_pda k sdk)
        × (get_message_lib_info_pda k sdk config none ≡ get_send_lib_info_pda k sdk config)
  unfolding get_peer_pda get_peer_config_pda get_uln_send_config_pda get_default_send_config_pda
      get_uln_receive_config_pda get_default_receive_config_pda get_send_lib_pda get_message_lib_pda
      get_send_lib_info_pda get_message_lib_info_pda
  pdas-agree program config eid = (refl, refl, refl, refl, refl)
