-- ===== src/Dag/Keeps.antt =====
-- Each type of dependency keeps the graph's promise.
use kupl.Prelude.{
  ℕ, ◌+◌, ◌%◌, ◌^◌, ◌≡◌, ◌≢◌, refl, sym, ◌∙◌, subst, arith, true, false, ◌==◌, List, [], ◌∷◌,
  Option, none, some, inl, inr, ==_iff,
}
use kupl.Dag.{
  Dep, DepType, type_in, type_out, type_inout, type_all, unknown, Nodes, Entry, Hash, Dag, put,
  with_entry, node_process_dep_out, node_process_dep_in, process_all, put_entry, all_entries,
  by_type, kupl_node_process_dep, kupl_task_dep_all_addr, next_dep, process_deps,
}
use kupl.Dag.Paths.{Among, Covered, Closed, Links, Links-refl, Links-trans}
use kupl.Dag.Entries.{
  Access, writes, touches, Tracks, Tracks-Grows, Tracks-more, node_process_dep_out-Tracks,
  node_process_dep_in-Tracks,
}
use kupl.Dag.Order.{
  touched, Conflict, keys, AllTracks, Ordered, IsDep, IsDag, Ordered-Grows, find-Tracks, find_known,
  keys-put, put-Tracks,
}
use kupl.Dag.Process.{with_entry-HasEntry, process_all-Tracks, keys-process_all, Processed}

module _ (past : List Access) (n x : ℕ) (t : DepType) (nodes : Nodes) (hash : Hash)
    (closed : Closed nodes) (idle : (nodes n).finished ≡ false)
    (tracked : AllTracks past nodes hash) (here : Among x (keys hash))
    (known : (a : Access) → Among a past → Among a.dep.base_addr (keys hash))
    (deps : (a : Access) → Among a past → IsDep a.dep)
    (dep_ok : t ≡ type_all → x ≡ kupl_task_dep_all_addr) (ordered : Ordered nodes past) where
  abbrev access : Access
  access = record { task = n; dep = record { base_addr = x; type = t } }

  -- The access is the newest, on a hash with the same keys.
  newest :
      (nodes' : Nodes) (hash' : Hash)
      → Links n nodes nodes'
      → keys hash' ≡ keys hash
      → AllTracks (access ∷ past) nodes' hash'
      → ((a : Access) → Among a past → Conflict a.dep access.dep → Covered nodes' a.task n)
      → IsDag (access ∷ past) (record { hash = hash'; nodes = nodes' })
  newest nodes' hash' links same_keys ts covered = record {
    closed = links.closed closed idle;
    tracked = ts;
    known = λ a m. subst (Among a.dep.base_addr) (sym same_keys) (elim m [
      | inl same ↦ subst (λ (c : Access). Among c.dep.base_addr (keys hash)) (sym same) here
      | inr old ↦ known a old
    ]);
    deps = λ a m. elim m [
      | inl same ↦ subst (λ (c : Access). IsDep c.dep) (sym same) dep_ok
      | inr old ↦ deps a old
    ];
    ordered = (covered, Ordered-Grows nodes nodes' past links.grows ordered);
  }

  -- A read or a write of one address leaves the entries of the others.
  put_newest :
      (e : Entry) (nodes' : Nodes)
      → ((y : ℕ)
          → (x == y) ≡ false
          → (touches access.dep y ≡ false) × (writes access.dep y ≡ false))
      → Links n nodes nodes'
      → Tracks (access ∷ past) nodes' x e
      → ((a : Access) → Among a past → Conflict a.dep access.dep → Covered nodes' a.task n)
      → IsDag (access ∷ past) (record { hash = put x e hash; nodes = nodes' })
  put_newest e nodes' only links track covered =
      newest nodes' (put x e hash) links (keys-put x e hash)
        (put-Tracks past (access ∷ past) nodes nodes' x e hash
          (λ y d off s.
            let (untouched, unwritten) = only y off in
            Tracks-more past nodes' y d access untouched unwritten
              (Tracks-Grows past nodes nodes' y d links.grows s))
          track tracked)
        covered

flip : (x y : ℕ) → (x == y) ≡ false → (y == x) ≡ false
flip x y h = ground (arith, h)

equal : (a b : ℕ) → (a == b) ≡ true → a ≡ b
equal a b = (==_iff a b).0

module _ (past : List Access) (n x : ℕ) (nodes : Nodes) (hash : Hash) (closed : Closed nodes)
    (idle : (nodes n).finished ≡ false) (tracked : AllTracks past nodes hash)
    (here : Among x (keys hash))
    (known : (a : Access) → Among a past → Among a.dep.base_addr (keys hash))
    (deps : (a : Access) → Among a past → IsDep a.dep) (ordered : Ordered nodes past) where
  abbrev of_type : DepType → Dep
  of_type t = record { base_addr = x; type = t }

  abbrev start : Dag
  start = record { hash = hash; nodes = nodes }

  unchanged : Links n nodes nodes × IsDag past start
  unchanged = (
    Links-refl n nodes,
    record { closed = closed; tracked = tracked; known = known; deps = deps; ordered = ordered },
  )

  in_Processed :
      (e : Entry)
      → Tracks past nodes x e
      → Processed past start n (of_type type_in) (put_entry x hash (node_process_dep_in e n nodes))
  in_Processed e track =
      let no_write : writes (of_type type_in) x ≡ false = refl in
      let (links, covered, track') =
        node_process_dep_in-Tracks n past nodes x e (of_type type_in) closed idle no_write track in
      (
        links,
        put_newest past n x type_in nodes hash closed idle tracked here known deps (λ h. cc) ordered
            _ _ (λ y off. (flip x y off, refl)) links track'
            (λ a m (y, at, at', w). elim w [
              | inl first ↦
                  covered a m (subst (λ (v : ℕ). writes a.dep v ≡ true) (equal y x at') first)
              | inr second ↦ absurd (ground (arith, second))
            ]),
      )

  out_Processed :
      (t : DepType) (e : Entry)
      → t ≢ type_all
      → ((y : ℕ)
          → (x == y) ≡ false
          → (touches (of_type t) y ≡ false) × (writes (of_type t) y ≡ false))
      → Tracks past nodes x e
      → Processed past start n (of_type t) (put_entry x hash (node_process_dep_out e n nodes))
  out_Processed t e not_all only track =
      let (links, covered, track') =
        node_process_dep_out-Tracks n past nodes x e (of_type t) closed idle track in
      (
        links,
        put_newest past n x t nodes hash closed idle tracked here known deps
            (λ h. absurd (not_all h)) ordered _ _ only links track'
            (λ a m (y, at, at', w). elim (touched (of_type t) y at') [
              | inl same ↦ covered a m (subst (λ (v : ℕ). touches a.dep v ≡ true) same at)
              | inr all ↦ absurd (not_all all)
            ]),
      )

  all_Processed :
      x ≡ kupl_task_dep_all_addr
      → Processed past start n (of_type type_all) (all_entries (process_all hash n nodes))
  all_Processed is_all =
      let (links, covered, ts) =
        process_all-Tracks past n (of_type type_all) hash nodes closed idle tracked in
      (
        links,
        newest past n x type_all nodes hash closed idle tracked here known deps (λ _. is_all)
            ordered _ _ links (keys-process_all hash n nodes) ts
            (λ a m (y, at, at', w). elim (touched a.dep y at) [
              | inl same ↦
                  covered a y m (subst (λ (v : ℕ). Among v (keys hash)) (sym same) (known a m)) at
              | inr all ↦ covered a x m here (rw all refl)
            ]),
      )

  by_type-Processed :
      (t : DepType) (e : Entry)
      → (t ≡ type_all → x ≡ kupl_task_dep_all_addr)
      → Tracks past nodes x e
      → Processed past start n (of_type t) (by_type t x (some e) n nodes hash)
  by_type-Processed type_in e ok track = in_Processed e track
  by_type-Processed type_out e ok track =
      out_Processed type_out e (λ h. cc) (λ y off. (flip x y off, flip x y off)) track
  by_type-Processed type_inout e ok track =
      out_Processed type_inout e (λ h. cc) (λ y off. (flip x y off, flip x y off)) track
  by_type-Processed type_all e ok track = all_Processed (ok refl)
  by_type-Processed unknown e ok track = unchanged

-- What.
pub kupl_node_process_dep-IsDag :
    (past : List Access) (n : ℕ) (dag : Dag) (dep : Dep)
    → IsDag past dag
    → IsDep dep
    → (dag.nodes n).finished ≡ false
    → Processed past dag n dep (kupl_node_process_dep n dag dep)
unfolding kupl_node_process_dep
kupl_node_process_dep-IsDag past n dag dep w ok idle =
    let x = dep.base_addr in
    let (tracked, here, kept) =
      with_entry-HasEntry past dag.nodes dag.hash x w.tracked w.known w.deps w.closed in
    let hash = with_entry x dag.nodes dag.hash in
    let (e, found) = find_known x hash here in
    let known : (a : Access) → Among a past → Among a.dep.base_addr (keys hash) =
      λ a m. kept a.dep.base_addr (w.known a m) in
    subst (λ (o : Option Entry). Processed past dag n dep (by_type dep.type x o n dag.nodes hash))
      (sym found)
      (restart (by_type dep.type x (some e) n dag.nodes hash) (
        by_type-Processed past n x dag.nodes hash w.closed idle tracked here known w.deps w.ordered
          dep.type e ok (find-Tracks past dag.nodes x e hash tracked found)))
  where
    restart :
        (out : Dag × Option ℕ)
        → Processed past
            (record { hash = with_entry dep.base_addr dag.nodes dag.hash; nodes = dag.nodes })
            n
            dep
            out
        → Processed past dag n dep out
    restart (dag', none) h = h
    restart (dag', some k) h = h

-- The accesses of a task, the newest first, on top of those before.
abbrev pub accesses : ℕ → List Dep → List Access → List Access
accesses n [] past = past
accesses n (dep ∷ deps) past = accesses n deps (record { task = n; dep = dep } ∷ past)

-- What processing dependencies comes to.
abbrev pub AllProcessed : List Access → Dag → ℕ → List Dep → Dag × Option ℕ → Type 0
AllProcessed past dag n deps (dag', none) = Links n dag.nodes dag'.nodes
AllProcessed past dag n deps (dag', some k) =
    Links n dag.nodes dag'.nodes × IsDag (accesses n deps past) dag'

AllProcessed-Links :
    (past past' : List Access) (dag dag1 : Dag) (n : ℕ) (dep : Dep) (deps : List Dep)
    (out : Dag × Option ℕ)
    → Links n dag.nodes dag1.nodes
    → AllProcessed (record { task = n; dep = dep } ∷ past) dag1 n deps out
    → AllProcessed past dag n (dep ∷ deps) out
AllProcessed-Links past past' dag dag1 n dep deps (dag', none) l h =
    Links-trans n dag.nodes dag1.nodes dag'.nodes l h
AllProcessed-Links past past' dag dag1 n dep deps (dag', some k) l (h, w) =
    (Links-trans n dag.nodes dag1.nodes dag'.nodes l h, w)

abbrev pub AllDeps : List Dep → Type 0
AllDeps [] = Unit
AllDeps (dep ∷ deps) = IsDep dep × AllDeps deps

-- All.
pub process_deps-IsDag :
    (past : List Access) (n : ℕ) (deps : List Dep) (k : ℕ) (dag : Dag)
    → IsDag past dag
    → AllDeps deps
    → (dag.nodes n).finished ≡ false
    → AllProcessed past dag n deps (process_deps n deps k dag)
unfolding process_deps
process_deps-IsDag past n [] k dag w ok idle = (Links-refl n dag.nodes, w)
process_deps-IsDag past n (dep ∷ deps) k dag w (ok, oks) idle =
    after (kupl_node_process_dep n dag dep) (kupl_node_process_dep-IsDag past n dag dep w ok idle)
      (process_deps-IsDag (record { task = n; dep = dep } ∷ past) n deps)
  where
    after :
        (out : Dag × Option ℕ)
        → Processed past dag n dep out
        → ((m : ℕ) (dag1 : Dag)
            → IsDag (record { task = n; dep = dep } ∷ past) dag1
            → AllDeps deps
            → (dag1.nodes n).finished ≡ false
            → AllProcessed
                (record { task = n; dep = dep } ∷ past)
                dag1
                n
                deps
                (process_deps n deps m dag1))
        → AllProcessed past dag n (dep ∷ deps) (next_dep k out (process_deps n deps))
    after (dag1, none) (l, w1) rest = l
    after (dag1, some m) (l, w1) rest =
        AllProcessed-Links past past dag dag1 n dep deps _ l
          (rest ((k + m) % 2 ^ 32) dag1 w1 oks (l.same n ∙ idle))
