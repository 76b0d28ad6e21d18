-- ===== src/Script/Wiring/Laws.antt =====
-- The table of active configurations does not depend on the order in which the tasks write.
use solana_proxy.Prelude.{
  ℕ, ◌≡◌, refl, sym, ap, ◌∙◌, subst, false, ◌&&◌, Bool-cases, inl, inr, String, Option, none, some,
  List, [], ◌∷◌, ◌++◌, ok, ◌>>=◌, All, str_eq, eq_iff,
}
use mathlib.Core.List.{Permᴰ}
use mathlib.Core.List.Permᴰ
use solana_proxy.Script.Wiring.{
  Devtools, Connection, ActiveConfig, Configs, get_eid, active_config, extended, write, run_tasks,
  no_configs, get_configs, is_solana, tasks_of, sol_tasks_of,
}
use solana_proxy.Script.Wiring.Orders.{All-Permᴰ, AllApart, AllApart-Permᴰ}
use solana_proxy.Script.Wiring.Writes.{str_eq_self, at_name, off_name, apart_comm, writes-commute}

module _ (tools : Devtools) (name : ℕ → String) where
  -- The entry of a connection in the table.
  abbrev pub in_row :
      Option (String → Option (ActiveConfig tools)) → String → Option (ActiveConfig tools)
  in_row none r = none
  in_row (some row) r = row r

  abbrev pub entry : Connection → Configs tools → Option (ActiveConfig tools)
  entry c configs = in_row (configs (name c.from.eid)) (name c.to.eid)

  -- Both endpoints have a name.
  abbrev pub IsNamed : Connection → Type 0
  IsNamed c =
      (get_eid tools c.from.eid ≡ ok (name c.from.eid))
      × (get_eid tools c.to.eid ≡ ok (name c.to.eid))

  -- They differ in the name of one of their endpoints.
  abbrev pub Apart : Connection → Connection → Type 0
  Apart c d =
      (str_eq (name c.from.eid) (name d.from.eid) && str_eq (name c.to.eid) (name d.to.eid)) ≡ false

  symmetric_lem : (c d : Connection) → Apart c d → Apart d c
  symmetric_lem c d h =
      apart_comm tools (name c.from.eid) (name d.from.eid) (name c.to.eid) (name d.to.eid) h

  abbrev put : Connection → Configs tools → Configs tools
  put c configs = write tools (name c.from.eid) (name c.to.eid) (active_config tools c) configs

  abbrev written : List Connection → Configs tools → Configs tools
  written [] configs = configs
  written (c ∷ cs) configs = written cs (put c configs)

  run_tasks-written :
      (cs : List Connection) (configs : Configs tools)
      → All IsNamed cs
      → run_tasks tools cs configs ≡ ok (written cs configs)
  unfolding run_tasks
  run_tasks-written [] configs _ = refl
  run_tasks-written (c ∷ cs) configs ((h, k), hs) =
      rw (h, k) (run_tasks-written cs (put c configs) hs)

  written-append :
      (cs ds : List Connection) (configs : Configs tools)
      → written (cs ++ ds) configs ≡ written ds (written cs configs)
  written-append [] ds configs = refl
  written-append (c ∷ cs) ds configs = written-append cs ds (put c configs)

  written-Permᴰ :
      {cs ds : List Connection} (configs : Configs tools)
      → Permᴰ cs ds
      → AllApart Apart cs
      → written cs configs ≡ written ds configs
  written-Permᴰ configs Permᴰ.nil _ = refl
  written-Permᴰ configs (Permᴰ.cons {a = c} {b = d} {l₂ = ds} e p) (_, apart) =
      written-Permᴰ (put c configs) p apart ∙ ap (λ (c : Connection). written ds (put c configs)) e
  written-Permᴰ configs (Permᴰ.swap {a = c} {b = d} {a' = c'} {b' = d'} {l = cs} e e')
        ((apart, _), _) =
      ap (written cs) (
        sym (
          writes-commute tools (name c.from.eid) (name d.from.eid) (name c.to.eid) (name d.to.eid)
            (active_config tools c) (active_config tools d) configs apart)
        ∙ ap (λ x. put x (put d configs)) e
        ∙ ap (λ x. put d' (put x configs)) e')
  written-Permᴰ configs (Permᴰ.trans p q) apart =
      written-Permᴰ configs p apart
      ∙ written-Permᴰ configs q (AllApart-Permᴰ Apart symmetric_lem p apart)

  extended_other :
      (o : Option (String → Option (ActiveConfig tools))) (r x : String) (a : ActiveConfig tools)
      → str_eq x r ≡ false
      → extended tools o r a x ≡ in_row o x
  extended_other none r x a h = rw h refl
  extended_other (some row) r x a h = rw h refl

  extended_at :
      (o : Option (String → Option (ActiveConfig tools))) (r : String) (a : ActiveConfig tools)
      → extended tools o r a r ≡ some a
  extended_at none r a = rw (str_eq_self r) refl
  extended_at (some row) r a = rw (str_eq_self r) refl

  entry-put :
      (c : Connection) (configs : Configs tools)
      → entry c (put c configs) ≡ some (active_config tools c)
  entry-put c configs =
      ap (λ o. in_row o (name c.to.eid))
        (at_name tools (name c.from.eid) (name c.to.eid) (active_config tools c) configs)
      ∙ extended_at (configs (name c.from.eid)) (name c.to.eid) (active_config tools c)

  entry-put_elsewhere :
      (d c : Connection) (configs : Configs tools)
      → Apart d c
      → entry d (put c configs) ≡ entry d configs
  entry-put_elsewhere d c configs apart =
      elim (Bool-cases (str_eq (name d.from.eid) (name c.from.eid))) [
        | inl same ↦
            let l = name c.from.eid in
            let e : name d.from.eid ≡ l = (eq_iff (name d.from.eid) l).0 same in
            let other : str_eq (name d.to.eid) (name c.to.eid) ≡ false = rw same at apart in
            subst
              (λ n. in_row (put c configs n) (name d.to.eid) ≡ in_row (configs n) (name d.to.eid))
              (sym e)
              (ap (λ o. in_row o (name d.to.eid))
                  (at_name tools l (name c.to.eid) (active_config tools c) configs)
                ∙ extended_other (configs l) (name c.to.eid) (name d.to.eid) (active_config tools c)
                    other)
        | inr other ↦
            ap (λ o. in_row o (name d.to.eid))
              (off_name tools (name c.from.eid) (name c.to.eid) (name d.from.eid)
                (active_config tools c) configs other)
      ]

  entry-written_elsewhere :
      (d : Connection) (cs : List Connection) (configs : Configs tools)
      → All (Apart d) cs
      → entry d (written cs configs) ≡ entry d configs
  entry-written_elsewhere d [] configs _ = refl
  entry-written_elsewhere d (c ∷ cs) configs (h, hs) =
      entry-written_elsewhere d cs (put c configs) hs ∙ entry-put_elsewhere d c configs h

  entry-written :
      (cs : List Connection) (configs : Configs tools)
      → AllApart Apart cs
      → All (λ c. entry c (written cs configs) ≡ some (active_config tools c)) cs
  entry-written [] configs _ = tt
  entry-written (c ∷ cs) configs (h, hs) = (
    entry-written_elsewhere c cs (put c configs) h ∙ entry-put c configs,
    entry-written cs (put c configs) hs,
  )

  All-append :
      (P : Connection → Type 0) (cs ds : List Connection) → All P (cs ++ ds) → All P cs × All P ds
  All-append P [] ds h = (tt, h)
  All-append P (c ∷ cs) ds (h, hs) = let (k, ks) = All-append P cs ds hs in ((h, k), ks)

  get_configs-written :
      (tasks sol_tasks : List Connection)
      → All IsNamed (tasks ++ sol_tasks)
      → get_configs tools tasks sol_tasks ≡ ok (written (tasks ++ sol_tasks) (no_configs tools))
  unfolding get_configs
  get_configs-written tasks sol_tasks named =
      let (h, k) = All-append IsNamed tasks sol_tasks named in
      ap (λ r. r >>= run_tasks tools sol_tasks) (run_tasks-written tasks (no_configs tools) h)
      ∙ run_tasks-written sol_tasks (written tasks (no_configs tools)) k
      ∙ ap ok (sym (written-append tasks sol_tasks (no_configs tools)))

  partition : (cs : List Connection) → Permᴰ cs (tasks_of tools cs ++ sol_tasks_of tools cs)
  unfolding tasks_of sol_tasks_of
  partition [] = Permᴰ.nil
  partition (c ∷ cs) = elim (Bool-cases (is_solana tools c.from)) [
    | inl h ↦ rw h (
        Permᴰ.trans (Permᴰ.cons refl (partition cs))
          (Permᴰ.symm (Permᴰ.middle c (tasks_of tools cs) (sol_tasks_of tools cs))))
    | inr h ↦ rw h (Permᴰ.cons refl (partition cs))
  ]

  -- For a graph of connections whose endpoints all have names and that differ pairwise in one of the two
  -- names: in whatever order the tasks write, those not from Solana first, the table comes out that the
  -- connections give in the order of the graph, and it has for every connection the active configuration
  -- of its direction.
  pub get_configs-run_tasks :
      (connections tasks sol_tasks : List Connection)
      → Permᴰ (tasks_of tools connections) tasks
      → Permᴰ (sol_tasks_of tools connections) sol_tasks
      → All IsNamed connections
      → AllApart Apart connections
      → (configs : Configs tools) × (run_tasks tools connections (no_configs tools) ≡ ok configs)
        × (get_configs tools tasks sol_tasks ≡ ok configs)
        × All (λ c. entry c configs ≡ some (active_config tools c)) connections
  get_configs-run_tasks connections tasks sol_tasks p q named apart =
      let reordered = Permᴰ.trans (partition connections) (
        Permᴰ.trans (Permᴰ.append_right (sol_tasks_of tools connections) p)
          (Permᴰ.append_left tasks q)) in
      (
        written connections (no_configs tools),
        run_tasks-written connections (no_configs tools) named,
        get_configs-written tasks sol_tasks (All-Permᴰ IsNamed reordered named)
            ∙ ap ok (sym (written-Permᴰ (no_configs tools) reordered apart)),
        entry-written connections (no_configs tools) apart,
      )
