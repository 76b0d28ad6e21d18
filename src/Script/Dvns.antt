-- ===== src/Script/Dvns.antt =====
-- tasks/proxy/utils.ts, equalDVNs, and the step of tasks/proxy/setLedgerOApp.ts that it guards:
-- `orderly:getconfig`, as the transactions that the task sends to the LayerZero endpoint.
pub mod Laws
mod Tests
use solana_proxy.Prelude.{
  ℕ, Bool, true, false, not, ◌&&◌, ◌||◌, List, [], ◌∷◌, ◌++◌, if◌then◌else◌, length, ◌==◌,
}
use solana_proxy.Script.Sorting.{Order, sort}

module _ {ℓ} {A : Type ℓ} ⦃o : Order A⦄ where
  -- The loop: it returns at the first index at which the two sorted arrays differ. They are as long.
  unfoldable pub same_elements : List A → List A → Bool
  same_elements [] _ = true
  same_elements (a ∷ as') [] = false
  same_elements (a ∷ as') (b ∷ bs) = if o.same a b then same_elements as' bs else false

  unfoldable pub equal_dvns : List A → List A → Bool
  unfolding same_elements sort
  equal_dvns dvn1 dvn2 =
      if not (length dvn1 == length dvn2) then false else same_elements (sort dvn1) (sort dvn2)

-- The tuples that the task decodes with `EXECUTOR_CONFIG_STRUCT` and `ULN_CONFIG_STRUCT`.
module _ {ℓ} (A : Type ℓ) where
  pub record ExecutorConfig : Type ℓ where
    pub max_message_size : ℕ
    pub executor_address : A

  pub record UlnConfig : Type ℓ where
    pub confirmations : ℕ
    pub required_dvn_count : ℕ
    pub optional_dvn_count : ℕ
    pub optional_dvn_threshold : ℕ
    pub required_dvns : List A
    pub optional_dvns : List A

  -- What the endpoint answers before the task writes anything: `defaultSendLibrary`,
  -- `defaultReceiveLibrary`, `isDefaultSendLibrary`, `getReceiveLibrary`, and `getConfig` three times.
  pub record Onchain : Type ℓ where
    pub default_send_lib : A
    pub default_receive_lib : A
    pub is_default_send_lib : Bool
    pub is_default_receive_lib : Bool
    pub send_executor : ExecutorConfig
    pub send_uln : UlnConfig
    pub receive_uln : UlnConfig

  -- An element of the array that `setConfig` takes: the endpoint id, the configuration's type and
  -- its value, here the tuple before `defaultAbiCoder.encode`.
  pub data ConfigParam : Type ℓ where
    executor_param : ℕ → ExecutorConfig → ConfigParam
    uln_param : ℕ → UlnConfig → ConfigParam

  pub data Transaction : Type ℓ where
    set_send_library : ℕ → A → Transaction
    set_receive_library : ℕ → A → ℕ → Transaction
    set_config : A → List ConfigParam → Transaction

pub record Flags : Type 0 where
  pub set_config_flag : Bool
  pub force_set : Bool

module _ {ℓ} {A : Type ℓ} ⦃o : Order A⦄ where
  -- `raw[4] = requiredDVNs; raw[1] = requiredDVNs.length`.
  unfoldable pub with_required_dvns : List A → UlnConfig A → UlnConfig A
  with_required_dvns dvns raw = record raw {
    required_dvns = dvns;
    required_dvn_count = length dvns;
  }

  unfoldable pub library_transactions : ℕ → Onchain A → List (Transaction A)
  library_transactions eid chain =
      (if chain.is_default_send_lib then set_send_library eid chain.default_send_lib ∷ [] else [])
      ++ (if chain.is_default_receive_lib
          then set_receive_library eid chain.default_receive_lib 0 ∷ []
          else [])

  -- `sendLibConfigExecutorULNArray` and `receiveLibConfigULNArray`.
  unfoldable pub send_params : ℕ → List A → Onchain A → List (ConfigParam A)
  send_params eid dvns chain =
      if not (equal_dvns chain.send_uln.required_dvns dvns)
      then executor_param eid chain.send_executor
        ∷ uln_param eid (with_required_dvns dvns chain.send_uln)
        ∷ []
      else []

  unfoldable pub receive_params : ℕ → List A → Onchain A → List (ConfigParam A)
  receive_params eid dvns chain =
      if not (equal_dvns chain.receive_uln.required_dvns dvns)
      then uln_param eid (with_required_dvns dvns chain.receive_uln) ∷ []
      else []

  -- The transactions in the order in which the task sends them; `send_dvns` and `receive_dvns` are
  -- the required DVNs of `getLocalLzConfig(orderlyNetwork)`, `eid` is the one of the Solana network.
  unfoldable pub get_config : ℕ → List A → List A → Flags → Onchain A → List (Transaction A)
  get_config eid send_dvns receive_dvns flags chain =
      if flags.set_config_flag
      then library_transactions eid chain
        ++ (if not (equal_dvns chain.send_uln.required_dvns send_dvns) || flags.force_set
            then set_config chain.default_send_lib (send_params eid send_dvns chain) ∷ []
            else [])
        ++ (if not (equal_dvns chain.receive_uln.required_dvns receive_dvns) || flags.force_set
            then set_config chain.default_receive_lib (receive_params eid receive_dvns chain) ∷ []
            else [])
      else []
