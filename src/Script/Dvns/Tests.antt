-- ===== src/Script/Dvns/Tests.antt =====
-- `equalDVNs` and `orderly:getconfig` on small inputs.
use solana_proxy.Prelude.{ℕ, ◌≡◌, refl, ◌↔◌, true, false, List, [], ◌∷◌}
use solana_proxy.Script.Sorting.Texts.{texts, text_lte, same_text}
use solana_proxy.Script.Sorting.{sort, insert}
use solana_proxy.Script.Dvns.{
  equal_dvns, get_config, Onchain, UlnConfig, send_params, receive_params, Flags, set_config,
  same_elements, with_required_dvns, library_transactions,
}
use solana_proxy.Script.Dvns.Laws.{equal_dvns_lem, get_config-settled, get_config-twice}
use mathlib.Core.List.{Perm}

-- "0xa" and "0xb", code unit by code unit.
abbrev dvn_a : List ℕ
dvn_a = 48 ∷ 120 ∷ 97 ∷ []

abbrev dvn_b : List ℕ
dvn_b = 48 ∷ 120 ∷ 98 ∷ []

equal_dvns_lem_example :
    (equal_dvns (dvn_a ∷ dvn_b ∷ []) (dvn_b ∷ dvn_a ∷ []) ≡ true)
    ↔ Perm (dvn_a ∷ dvn_b ∷ []) (dvn_b ∷ dvn_a ∷ [])
equal_dvns_lem_example = equal_dvns_lem (dvn_a ∷ dvn_b ∷ []) (dvn_b ∷ dvn_a ∷ [])

abbrev uln : List (List ℕ) → UlnConfig (List ℕ)
uln dvns = record {
  confirmations = 32;
  required_dvn_count = 2;
  optional_dvn_count = 0;
  optional_dvn_threshold = 0;
  required_dvns = dvns;
  optional_dvns = [];
}

abbrev chain : Onchain (List ℕ)
chain = record {
  default_send_lib = 1 ∷ [];
  default_receive_lib = 2 ∷ [];
  is_default_send_lib = true;
  is_default_receive_lib = true;
  send_executor = record { max_message_size = 10000; executor_address = 3 ∷ [] };
  send_uln = uln (dvn_a ∷ []);
  receive_uln = uln (dvn_b ∷ dvn_a ∷ []);
}

abbrev settled : Onchain (List ℕ)
settled = record chain {
  is_default_send_lib = false;
  is_default_receive_lib = false;
  send_uln = uln (dvn_a ∷ dvn_b ∷ []);
}

abbrev no_force : Flags
no_force = record { set_config_flag = true; force_set = false }

abbrev dvns : List (List ℕ)
dvns = dvn_a ∷ dvn_b ∷ []

get_config-settled_example : (get_config 30168 dvns dvns no_force settled ≡ []) ↔ (
    (false ≡ false)
    × (false ≡ false)
    × (equal_dvns dvns dvns ≡ true)
    × (equal_dvns (dvn_b ∷ dvn_a ∷ []) dvns ≡ true))
get_config-settled_example = get_config-settled 30168 dvns dvns settled

get_config-twice_example : get_config 30168 dvns dvns no_force settled ≡ []
unfolding send_params receive_params equal_dvns same_elements sort insert texts text_lte same_text
    with_required_dvns
get_config-twice_example = get_config-twice 30168 dvns dvns chain settled refl refl refl refl

-- With `forceSet` and the configured DVNs already on chain, both arrays are empty.
forced_when_settled :
    get_config 30168 dvns dvns (record { set_config_flag = true; force_set = true }) settled
    ≡ set_config (1 ∷ []) [] ∷ set_config (2 ∷ []) [] ∷ []
unfolding get_config library_transactions send_params receive_params equal_dvns same_elements sort
    insert texts text_lte same_text with_required_dvns
forced_when_settled = refl
