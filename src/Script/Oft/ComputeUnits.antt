-- ===== src/Script/Oft/ComputeUnits.antt =====
-- addComputeUnitInstructions of tasks/solana/index.ts, with what it asks for the price and the limit, and
-- the transaction that the tasks then send. The price's scale factor is given as its `Math.floor`.
use solana_proxy.Prelude.{
  ℕ, ◌*◌, ◌≡◌, sym, ap, ◌∙◌, String, true, not, Option, none, some, List, ◌∷◌, ok, or_throw,
  require, ◌==◌, if◌then◌else◌, type_error, no_lookup_table, no_compute_units, call_failed,
}
use solana_proxy.Script.Keys.{PublicKeys}
use solana_proxy.Script.Constants.Lz.{EndpointIds}
use solana_proxy.Script.Fees.{get_prioritization_fees}
use solana_proxy.Script.Oft.{Cluster, Instruction, set_compute_unit_price, set_compute_unit_limit}
use solana_proxy.Script.Steps.{
  Step, ◌>>=◌, ◌>>◌, lift, query, confirmed, query-eq-ok, query->>=-eq-ok, >>=-eq-ok,
  confirmed-eq-ok,
}

-- `LOOKUP_TABLE_ADDRESS[eid]`
unfoldable pub lookup_table_address : EndpointIds → ℕ → Option String
lookup_table_address ids eid =
    if eid == ids.solana_v2_mainnet
    then some "AokBxha6VMLLgf97B5VYHEtqztamWmYERBmmFvjuTzJB"
    else if eid == ids.solana_v2_testnet
    then some "9thqPdbR27A1yLWw2spwJLySemiGMXxPnEvfmXVk4KuK"
    else none

module _ (ids : EndpointIds) (k : PublicKeys) (cluster : Cluster k) where
  open cluster use {
    World, has_lookup_table, recent_prioritization_fees, simulation_compute_units, send_and_confirm,
  }

  unfoldable pub get_address_lookup_table : ℕ → Step World (Unit {0})
  get_address_lookup_table from_eid = do
    address ← lift (or_throw no_lookup_table (lookup_table_address ids from_eid))
    query (λ w. require (has_lookup_table address w) no_lookup_table)

  -- The price, and the units that the simulation takes.
  unfoldable pub get_compute_unit_price_and_limit : List (Instruction k) → Step World (ℕ × ℕ)
  get_compute_unit_price_and_limit ixs = do
    fees ← query (λ w. or_throw type_error (get_prioritization_fees (recent_prioritization_fees w)))
    compute_units ← query (λ w. or_throw no_compute_units (simulation_compute_units ixs w))
    lift (require (not (compute_units == 0)) no_compute_units)
    lift (ok (fees.average_fee_excluding_zeros, compute_units))

  unfoldable pub add_compute_unit_instructions :
      ℕ → List (Instruction k) → ℕ → Step World (List (Instruction k))
  add_compute_unit_instructions eid ixs price_scale = do
    get_address_lookup_table eid
    (price, compute_units) ← get_compute_unit_price_and_limit ixs
    lift (
        ok (
          set_compute_unit_price (price * price_scale)
          ∷ set_compute_unit_limit (compute_units * 11)
          ∷ ixs))

  -- The builder's instructions with those for compute units, sent and confirmed.
  unfoldable pub submit : ℕ → ℕ → List (Instruction k) → Step World (Unit {0})
  submit eid price_scale ixs = do
    all_ixs ← add_compute_unit_instructions eid ixs price_scale
    (λ w. confirmed call_failed (send_and_confirm all_ixs w))

  get_address_lookup_table-eq-ok :
      (from_eid : ℕ) (w : World) {u : Unit {0}} {w' : World}
      → get_address_lookup_table from_eid w ≡ (ok u, w')
      → w' ≡ w
  unfolding get_address_lookup_table
  get_address_lookup_table-eq-ok from_eid w h =
      let (address, _, rest) =
        query->>=-eq-ok (λ _. or_throw no_lookup_table (lookup_table_address ids from_eid)) _ w h in
      (query-eq-ok (λ w. require (has_lookup_table address w) no_lookup_table) w rest).1

  get_compute_unit_price_and_limit-eq-ok :
      (ixs : List (Instruction k)) (w : World) {units : ℕ × ℕ} {w' : World}
      → get_compute_unit_price_and_limit ixs w ≡ (ok units, w')
      → w' ≡ w
  unfolding get_compute_unit_price_and_limit
  get_compute_unit_price_and_limit-eq-ok ixs w h =
      let (fees, _, h1) =
        query->>=-eq-ok
          (λ w. or_throw type_error (get_prioritization_fees (recent_prioritization_fees w))) _ w
          h in
      let (units, _, h2) =
        query->>=-eq-ok (λ w. or_throw no_compute_units (simulation_compute_units ixs w)) _ w h1 in
      let (_, _, h3) = query->>=-eq-ok (λ _. require (not (units == 0)) no_compute_units) _ w h2 in
      (query-eq-ok (λ _. ok (fees.average_fee_excluding_zeros, units)) w h3).1

  -- What was submitted was sent behind a price and a limit, from the same state.
  pub submit-eq-ok :
      (eid price_scale : ℕ) (ixs : List (Instruction k)) (w : World) {u : Unit {0}} {w' : World}
      → submit eid price_scale ixs w ≡ (ok u, w')
      → (price : ℕ) × (limit : ℕ) × (send_and_confirm
            (set_compute_unit_price price ∷ set_compute_unit_limit limit ∷ ixs)
            w
          ≡ (true, w'))
  unfolding submit add_compute_unit_instructions
  submit-eq-ok eid price_scale ixs w h =
      let (all_ixs, w1, added, sent) =
        >>=-eq-ok (add_compute_unit_instructions eid ixs price_scale) _ w h in
      let (_, w2, table, h1) = >>=-eq-ok (get_address_lookup_table eid) _ w added in
      let (units, w3, asked, h2) = >>=-eq-ok (get_compute_unit_price_and_limit ixs) _ w2 h1 in
      let ixs' =
        set_compute_unit_price (units.0 * price_scale)
        ∷ set_compute_unit_limit (units.1 * 11)
        ∷ ixs in
      let (same_ixs, same) = query-eq-ok (λ _. ok ixs') w3 h2 in
      let here : w1 ≡ w =
        same
        ∙ get_compute_unit_price_and_limit-eq-ok ixs w2 asked
        ∙ get_address_lookup_table-eq-ok eid w table in
      let those : all_ixs ≡ ixs' = cc same_ixs in
      (
        units.0 * price_scale,
        units.1 * 11,
        ap (λ l. send_and_confirm l w) (sym those)
            ∙ ap (send_and_confirm all_ixs) (sym here)
            ∙ confirmed-eq-ok call_failed (send_and_confirm all_ixs w1) sent,
      )
