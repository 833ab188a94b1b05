-- ===== src/Dag/Process.antt =====
-- `kupl_node_process_dep` keeps the graph's promise.
use kupl.Prelude.{
  ℕ, ◌≡◌, refl, sym, ap, ◌∙◌, subst, arith, Bool, true, false, ◌==◌, if◌then◌else◌, List, [], ◌∷◌,
  Option, none, some, inl, inr, ◌⊎◌, if_cases,
}
use kupl.Dag.{
  Dep, type_all, Nodes, Entry, Hash, Dag, find, put, kupl_addr_entry_create, from_all,
  after_find_all, after_find, with_entry, node_process_dep_out, process_all, kupl_task_dep_all_addr,
}
use kupl.Dag.Paths.{
  Among, Covered, CoveredBy, Closed, Before-finished, Links, Links-refl, Links-trans, Covered-Grows,
}
use kupl.Dag.Entries.{Access, touches, Tracks, Tracks-Grows, node_process_dep_out-Tracks}
use kupl.Dag.Order.{
  touched, writes-touches, keys, AllTracks, IsDep, IsDag, AllTracks-Grows, find-Tracks, find_known,
  known_find, keys-put, put-Tracks,
}

module _ (past : List Access) (nodes : Nodes) (hash : Hash) (x : ℕ)
    (tracked : AllTracks past nodes hash)
    (known : (a : Access) → Among a past → Among a.dep.base_addr (keys hash))
    (deps : (a : Access) → Among a past → IsDep a.dep) (closed : Closed nodes) where
  unseen :
      (o : Option ℕ)
      → find x hash ≡ none
      → ((a : Access) → Among a past → a.dep.type ≡ type_all → CoveredBy nodes a.task o)
      → (a : Access) → Among a past
      → touches a.dep x ≡ true
      → CoveredBy nodes a.task o
  unseen o missing all a m h = elim (touched a.dep x h) [
    | inl here ↦
        let (e, found) =
          find_known x hash (subst (λ (v : ℕ). Among v (keys hash)) (sym here) (known a m)) in
        absurd (cc)
    | inr is_all ↦ all a m is_all
  ]

  -- An address that no dependency but those on all has touched.
  fresh_Tracks :
      (o : Option ℕ)
      → find x hash ≡ none
      → ((a : Access) → Among a past → a.dep.type ≡ type_all → CoveredBy nodes a.task o)
      → Tracks past nodes x (record { out = o; readers = [] })
  fresh_Tracks o missing all = record {
    written = λ a m w. unseen o missing all a m (writes-touches a.dep x w);
    read = λ a m w. inr (unseen o missing all a m w);
    later = λ r m. absurd m;
  }

  -- The hash has an entry for the address, and keeps those it has.
  abbrev HasEntry : Hash → Type 0
  HasEntry hash' =
      AllTracks past nodes hash'
      × Among x (keys hash')
      × ((y : ℕ) → Among y (keys hash) → Among y (keys hash'))

  abbrev hash1 : Hash
  hash1 = (x, kupl_addr_entry_create) ∷ hash

  after_none : find x hash ≡ none → x ≡ kupl_task_dep_all_addr → HasEntry hash1
  after_none missing is_all = (
    (
      fresh_Tracks none missing (λ a m t.
          let (e, found) =
            find_known x hash
              (subst (λ (v : ℕ). Among v (keys hash)) (deps a m t ∙ sym is_all) (known a m)) in
          absurd (cc)),
      tracked,
    ),
    inl refl,
    λ y m. inr m,
  )

  after_put :
      (y : ℕ) (e : Entry)
      → Tracks past nodes y e
      → Tracks past nodes x (record { out = none; readers = [] }) ⊎ (x ≡ y)
      → HasEntry (put y e hash1)
  after_put y e t fresh =
      let there : Among x (keys (put y e hash1)) =
        subst (Among x) (sym (keys-put y e hash1)) (inl refl) in
      let kept =
        λ (z : ℕ) (m : Among z (keys hash)). subst (Among z) (sym (keys-put y e hash1)) (inr m) in
      (put_all (y == x) refl, there, kept)
    where
      put_rest : AllTracks past nodes (put y e hash)
      put_rest = put-Tracks past past nodes nodes y e hash (λ z d off s. s) t tracked

      put_all :
          (b : Bool)
          → (y == x) ≡ b
          → AllTracks past nodes
              (if b then (x, e) ∷ put y e hash else (x, kupl_addr_entry_create) ∷ put y e hash)
      put_all true at = (subst (λ (v : ℕ). Tracks past nodes v e) (ground (arith, at)) t, put_rest)
      put_all false off = elim fresh [
        | inl s ↦ (s, put_rest)
        | inr same ↦ absurd (ground (arith, off, same))
      ]

  -- The last task that depends on all, as the entry for all addresses has it.
  module _ (missing : find x hash ≡ none) (depall : Entry)
      (t : Tracks past nodes kupl_task_dep_all_addr depall) where
    all_covered :
        (a : Access) → Among a past → a.dep.type ≡ type_all → CoveredBy nodes a.task depall.out
    all_covered a m is_all = t.written a m (rw is_all refl)

    after_from : (o : Option ℕ) → depall.out ≡ o → HasEntry (from_all x o depall nodes hash1)
    after_from none e = (
      (
        fresh_Tracks none missing
            (λ a m is_all. subst (CoveredBy nodes a.task) e (all_covered a m is_all)),
        tracked,
      ),
      inl refl,
      λ y m. inr m,
    )
    after_from (some last) e =
        if_cases HasEntry (nodes last).finished
          (put kupl_task_dep_all_addr (record depall { out = none }) hash1)
          (put x (record { out = some last; readers = [] }) hash1)
          (λ run.
            after_put kupl_task_dep_all_addr (record depall { out = none }) (cleared run)
              (inl (
                fresh_Tracks none missing
                  (λ a m is_all. ended run a.task (all_covered a m is_all)))))
          (λ waits.
            after_put x (record { out = some last; readers = [] })
              (fresh_Tracks (some last) missing
                (λ a m is_all. subst (CoveredBy nodes a.task) e (all_covered a m is_all)))
              (inr refl))
      where
        ended :
            (nodes last).finished ≡ true
            → (a : ℕ) → CoveredBy nodes a depall.out
            → (nodes a).finished ≡ true
        ended run a c = elim (subst (CoveredBy nodes a) e c) [
          | inl before ↦ before
          | inr p ↦ Before-finished nodes a last closed p run
        ]

        cleared :
            (nodes last).finished ≡ true
            → Tracks past nodes kupl_task_dep_all_addr (record depall { out = none })
        cleared run = record {
          written = λ a m w. ended run a.task (t.written a m w);
          read = λ a m w. elim (t.read a m w) [ inl r ↦ inl r | inr c ↦ inr (ended run a.task c) ];
          later = λ r m. tt;
        }

  after_find_all-HasEntry :
      find x hash ≡ none
      → (o : Option Entry) → find kupl_task_dep_all_addr hash ≡ o
      → HasEntry (after_find_all x o nodes hash1)
  after_find_all-HasEntry missing none no_all = (
    (
      fresh_Tracks none missing (λ a m is_all.
          let (e, found) =
            find_known kupl_task_dep_all_addr hash
              (subst (λ (v : ℕ). Among v (keys hash)) (deps a m is_all) (known a m)) in
          absurd (cc)),
      tracked,
    ),
    inl refl,
    λ y m. inr m,
  )
  after_find_all-HasEntry missing (some depall) is_some =
      after_from missing depall
        (find-Tracks past nodes kupl_task_dep_all_addr depall hash tracked is_some) depall.out refl

  after_find-HasEntry : (o : Option Entry) → find x hash ≡ o → HasEntry (after_find x o nodes hash)
  after_find-HasEntry (some e) found = (tracked, known_find x hash e found, λ y m. m)
  after_find-HasEntry none missing =
      if_cases HasEntry (x == kupl_task_dep_all_addr) hash1
        (after_find_all x (find kupl_task_dep_all_addr hash1) nodes hash1)
        (λ is_all. after_none missing (ground (arith, is_all)))
        (λ other.
          let flip : (kupl_task_dep_all_addr == x) ≡ false = ground (arith, other) in
          let skipped : find kupl_task_dep_all_addr hash1 ≡ find kupl_task_dep_all_addr hash =
            rw flip refl in
          subst (λ (o : Option Entry). HasEntry (after_find_all x o nodes hash1)) (sym skipped)
            (after_find_all-HasEntry missing (find kupl_task_dep_all_addr hash) refl))

  pub with_entry-HasEntry : HasEntry (with_entry x nodes hash)
  unfolding with_entry
  with_entry-HasEntry = after_find-HasEntry (find x hash) refl

pub keys-process_all :
    (hash : Hash) (n : ℕ) (nodes : Nodes) → keys (process_all hash n nodes).0 ≡ keys hash
unfolding process_all
keys-process_all [] n nodes = refl
keys-process_all ((x, e) ∷ hash) n nodes =
    ap (λ ks. x ∷ ks) (keys-process_all hash n (node_process_dep_out e n nodes).1)

-- A dependency on all comes after each access to an address of the hash.
pub process_all-Tracks :
    (past : List Access) (n : ℕ) (dep : Dep) (hash : Hash) (nodes : Nodes)
    → Closed nodes
    → (nodes n).finished ≡ false
    → AllTracks past nodes hash
    → let (hash', nodes', _) = process_all hash n nodes in
      Links n nodes nodes'
      × ((a : Access) (x : ℕ)
          → Among a past
          → Among x (keys hash)
          → touches a.dep x ≡ true
          → Covered nodes' a.task n)
      × AllTracks (record { task = n; dep = dep } ∷ past) nodes' hash'
unfolding process_all
process_all-Tracks past n dep [] nodes closed idle t =
    (Links-refl n nodes, λ a x m k h. absurd k, tt)
process_all-Tracks past n dep ((x, e) ∷ hash) nodes closed idle (t, ts) =
    let (links, covered, t') = node_process_dep_out-Tracks n past nodes x e dep closed idle t in
    let nodes1 = (node_process_dep_out e n nodes).1 in
    let nodes2 = (process_all hash n nodes1).1 in
    let (links', covered', ts') =
      process_all-Tracks past n dep hash nodes1 (links.closed closed idle) (links.same n ∙ idle)
        (AllTracks-Grows past nodes nodes1 hash links.grows ts) in
    (
      Links-trans n nodes nodes1 nodes2 links links',
      λ a y m k h. elim k [
        | inl here ↦
            Covered-Grows nodes1 nodes2 a.task n links'.grows
              (covered a m (subst (λ (v : ℕ). touches a.dep v ≡ true) here h))
        | inr there ↦ covered' a y m there h
      ],
      (Tracks-Grows (record { task = n; dep = dep } ∷ past) nodes1 nodes2 x _ links'.grows t', ts'),
    )

-- What processing a dependency comes to.
abbrev pub Processed : List Access → Dag → ℕ → Dep → Dag × Option ℕ → Type 0
Processed past dag n dep (dag', none) = Links n dag.nodes dag'.nodes × IsDag past dag'
Processed past dag n dep (dag', some k) =
    Links n dag.nodes dag'.nodes × IsDag (record { task = n; dep = dep } ∷ past) dag'
