-- ===== src/Script/Oft/Sample.antt =====
-- A chain with one mint and one multisig, of the keys 7 and 1: an instance of the parameter that keeps its word.
use solana_proxy.Prelude.{
  ℕ, ◌+◌, ◌≡◌, refl, sym, ap, ◌∙◌, Bool, true, false, Option, none, some, List, [], ◌∷◌, replicate,
}
use solana_proxy.Script.Constants.Lz.{EndpointIds}
use solana_proxy.Script.Keys.Sample.{sample_keys, sample_keys-IsLawful}
use solana_proxy.Script.Multisig.{Account}
use solana_proxy.Script.Multisig.Laws.{multisig_data}
use solana_proxy.Script.Oft.{
  Cluster, Instruction, MintInfo, create_v1, mint_v1, set_authority, set_compute_unit_price,
  set_compute_unit_limit,
}
use solana_proxy.Script.Oft.Laws.{
  KeepsItsWord, Change, change_instructions, with_authority, after_changes,
}

abbrev pub sample_ids : EndpointIds
sample_ids = record {
  solana_v2_testnet = 40168;
  solana_v2_mainnet = 30168;
  orderly_v2_testnet = 40200;
  orderly_v2_mainnet = 30213;
}

abbrev Chain : Type 0
Chain = Option (MintInfo sample_keys)

abbrev perform : Instruction sample_keys → Chain → Bool × Chain
perform (create_v1 token) w = (
  true,
  some (record {
    decimals = token.decimals;
    supply = 0;
    mint_authority = some token.authority;
    freeze_authority = some token.authority;
  }),
)
perform (set_authority program mint current t next) none = (false, none)
perform (set_authority program mint current t next) (some info) =
    (true, some (with_authority sample_keys t next info))
perform (mint_v1 mint amount owner) none = (false, none)
perform (mint_v1 mint amount owner) (some info) =
    (true, some (record info { supply = info.supply + amount }))
perform _ w = (true, w)

abbrev go_on : Bool × Chain → (Chain → Bool × Chain) → Bool × Chain
go_on (false, w) rest = (false, w)
go_on (true, w) rest = rest w

abbrev perform_all : List (Instruction sample_keys) → Chain → Bool × Chain
perform_all [] w = (true, w)
perform_all (ix ∷ ixs) w = go_on (perform ix w) (perform_all ixs)

abbrev sample_account : ℕ → Account sample_keys
sample_account program = record {
  owner = program;
  account_data = multisig_data sample_keys sample_keys-IsLawful 1 (7 ∷ 1 ∷ []) (replicate 64 0);
}

abbrev ask_once :
    (Chain → Option (Account sample_keys)) → Chain → Option (Account sample_keys) × Chain
ask_once asked w = (asked w, w)

-- With the key of the first token program.
abbrev pub sample_cluster : ℕ → Cluster sample_keys
sample_cluster program = record {
  World = Chain;
  token_program = program;
  token_2022_program = 71;
  wallet = some 3;
  oft_store = λ program escrow. 7;
  has_lookup_table = λ address w. true;
  recent_prioritization_fees = λ w. 10 ∷ 0 ∷ 20 ∷ [];
  simulation_compute_units = λ ixs w. some 1000;
  get_mint = λ program mint w. w;
  get_account_info = λ key w. some (sample_account program);
  back_off = ask_once;
  create_multisig = λ signers required program w. (some 9, w);
  send_and_confirm = perform_all;
}

perform_all-change_instructions :
    (program mint : ℕ) (changes : List (Change sample_keys)) (info : MintInfo sample_keys)
    → perform_all (change_instructions sample_keys program mint changes) (some info)
      ≡ (true, some (after_changes sample_keys changes info))
perform_all-change_instructions program mint [] info = refl
perform_all-change_instructions program mint (c ∷ changes) info =
    perform_all-change_instructions program mint changes
      (with_authority sample_keys c.authority_type c.next info)

sample_changed :
    (program price limit mint : ℕ) (c : Change sample_keys) (changes : List (Change sample_keys))
    (w w' : Chain)
    → perform_all
        (set_compute_unit_price price
          ∷ set_compute_unit_limit limit
          ∷ change_instructions sample_keys program mint (c ∷ changes))
        w
      ≡ (true, w')
    → (info : MintInfo sample_keys) × (w ≡ some info)
      × (w' ≡ some (after_changes sample_keys (c ∷ changes) info))
sample_changed program price limit mint c changes none w' h = cc h
sample_changed program price limit mint c changes (some info) w' h = (
  info,
  refl,
  ap (λ r. r.1) (sym h ∙ perform_all-change_instructions program mint (c ∷ changes) info),
)

sample_waited :
    (asked : Chain → Option (Account sample_keys)) (w w' : Chain) (account : Account sample_keys)
    → ask_once asked w ≡ (some account, w')
    → asked w' ≡ some account
sample_waited asked w w' account h = ap asked (sym (ap (λ r. r.1) h)) ∙ ap (λ r. r.0) h

pub sample_cluster-KeepsItsWord : (program : ℕ) → KeepsItsWord sample_keys (sample_cluster program)
sample_cluster-KeepsItsWord program = record {
  changed = sample_changed program;
  waited = sample_waited;
}
