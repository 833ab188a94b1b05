-- ===== src/Dag/Entries.antt =====
-- The entry of an address keeps track of the accesses to it: a task that comes next waits for those
-- that it conflicts with.
use kupl.Prelude.{
  ℕ, ◌≡◌, refl, sym, ap, ◌∙◌, subst, Bool, true, false, ◌==◌, List, [], ◌∷◌, Option, none, some,
  inl, inr, ◌⊎◌,
}
use kupl.Dag.{
  Dep, DepType, type_in, type_out, type_inout, type_all, unknown, Nodes, Entry, kupl_gnode_precede,
  precede_readers, precede_entry, node_process_dep_out, node_process_dep_in,
}
use kupl.Dag.Paths.{
  Among, Covered, CoveredBy, Closed, Grows, Links, Links-refl, Links-trans, itself, Covered-trans,
  Covered-Grows, kupl_gnode_precede-Links, kupl_gnode_precede-Covered,
}

-- A task and one of the dependencies that it was given.
pub record Access : Type 0 where
  pub task : ℕ
  pub dep : Dep

abbrev pub writes_as : DepType → Bool → Bool
writes_as type_in same = false
writes_as type_out same = same
writes_as type_inout same = same
writes_as type_all same = true
writes_as unknown same = false

-- Whether the dependency is a write to the address, and whether it is a read or a write.
abbrev pub writes : Dep → ℕ → Bool
writes dep x = writes_as dep.type (x == dep.base_addr)

abbrev pub touches_as : DepType → Bool → Bool
touches_as type_in same = same
touches_as type_out same = same
touches_as type_inout same = same
touches_as type_all same = true
touches_as unknown same = false

abbrev pub touches : Dep → ℕ → Bool
touches dep x = touches_as dep.type (x == dep.base_addr)

pub CoveredBy-Grows :
    (nodes nodes' : Nodes) (a : ℕ) (o : Option ℕ)
    → Grows nodes nodes'
    → CoveredBy nodes a o
    → CoveredBy nodes' a o
CoveredBy-Grows nodes nodes' a none g c = g.runs a c
CoveredBy-Grows nodes nodes' a (some o) g c = Covered-Grows nodes nodes' a o g c

-- The last writer, if there is one, comes before the task.
abbrev pub Follows : Nodes → Option ℕ → ℕ → Type 0
Follows nodes none r = Unit
Follows nodes (some o) r = Covered nodes o r

Follows-Grows :
    (nodes nodes' : Nodes) (o : Option ℕ) (r : ℕ)
    → Grows nodes nodes'
    → Follows nodes o r
    → Follows nodes' o r
Follows-Grows nodes nodes' none r g c = tt
Follows-Grows nodes nodes' (some o) r g c = Covered-Grows nodes nodes' o r g c

-- Through a reader.
CoveredBy-Follows :
    (nodes : Nodes) (a r n : ℕ) (o : Option ℕ)
    → Closed nodes
    → CoveredBy nodes a o
    → Follows nodes o r
    → Covered nodes r n
    → Covered nodes a n
CoveredBy-Follows nodes a r n none closed c f q = inl c
CoveredBy-Follows nodes a r n (some o) closed c f q =
    Covered-trans nodes a o n closed c (Covered-trans nodes o r n closed f q)

pub record Tracks (past : List Access) (nodes : Nodes) (x : ℕ) (e : Entry) : Type 0 where
  pub written : (a : Access) → Among a past → writes a.dep x ≡ true → CoveredBy nodes a.task e.out
  pub read :
      (a : Access)
      → Among a past
      → touches a.dep x ≡ true
      → Among a.task e.readers ⊎ CoveredBy nodes a.task e.out
  pub later : (r : ℕ) → Among r e.readers → Follows nodes e.out r

pub Tracks-Grows :
    (past : List Access) (nodes nodes' : Nodes) (x : ℕ) (e : Entry)
    → Grows nodes nodes'
    → Tracks past nodes x e
    → Tracks past nodes' x e
Tracks-Grows past nodes nodes' x e g t = record {
  written = λ a m w. CoveredBy-Grows nodes nodes' a.task e.out g (t.written a m w);
  read = λ a m w. elim (t.read a m w) [
    | inl r ↦ inl r
    | inr c ↦ inr (CoveredBy-Grows nodes nodes' a.task e.out g c)
  ];
  later = λ r m. Follows-Grows nodes nodes' e.out r g (t.later r m);
}

-- An access to another address.
pub Tracks-more :
    (past : List Access) (nodes : Nodes) (x : ℕ) (e : Entry) (b : Access)
    → touches b.dep x ≡ false
    → writes b.dep x ≡ false
    → Tracks past nodes x e
    → Tracks (b ∷ past) nodes x e
Tracks-more past nodes x e b untouched unwritten t = record {
  written = λ a m w. elim m [
    | inl same ↦
        let wrong : true ≡ false = sym w ∙ ap (λ (c : Access). writes c.dep x) same ∙ unwritten in
        absurd (cc)
    | inr old ↦ t.written a old w
  ];
  read = λ a m w. elim m [
    | inl same ↦
        let wrong : true ≡ false = sym w ∙ ap (λ (c : Access). touches c.dep x) same ∙ untouched in
        absurd (cc)
    | inr old ↦ t.read a old w
  ];
  later = t.later;
}

module _ (n : ℕ) where
  pub precede_readers-Links :
      (rs : List ℕ) (nodes : Nodes) → Links n nodes (precede_readers rs n nodes).0
  unfolding precede_readers
  precede_readers-Links [] nodes = Links-refl n nodes
  precede_readers-Links (r ∷ rs) nodes =
      let nodes1 = (kupl_gnode_precede (some r) n nodes).0 in
      Links-trans n nodes nodes1 (precede_readers rs n nodes1).0
        (kupl_gnode_precede-Links (some r) n nodes) (precede_readers-Links rs nodes1)

  precede_readers-Covered :
      (rs : List ℕ) (nodes : Nodes) (a : ℕ)
      → Closed nodes
      → (nodes n).finished ≡ false
      → Among a rs
      → Covered (precede_readers rs n nodes).0 a n
  unfolding precede_readers
  precede_readers-Covered [] nodes a closed idle m = absurd m
  precede_readers-Covered (r ∷ rs) nodes a closed idle m =
      let nodes1 = (kupl_gnode_precede (some r) n nodes).0 in
      let first = kupl_gnode_precede-Links (some r) n nodes in
      let next = precede_readers-Links rs nodes1 in
      elim m [
        | inl same ↦
            let by_itself : Covered nodes a r = subst (Covered nodes a) same (inr (itself a)) in
            Covered-Grows nodes1 _ a n next.grows
              (kupl_gnode_precede-Covered (some r) n nodes a closed idle by_itself)
        | inr rest ↦
            precede_readers-Covered rs nodes1 a (first.closed closed idle) (first.same n ∙ idle)
              rest
      ]

  pub precede_entry-Links :
      (rs : List ℕ) (e : Entry) (nodes : Nodes) → Links n nodes (precede_entry rs e n nodes).0
  precede_entry-Links [] e nodes = kupl_gnode_precede-Links e.out n nodes
  precede_entry-Links (r ∷ rs) e nodes = precede_readers-Links (r ∷ rs) nodes

  -- A task that the entry tracks comes before one that writes.
  precede_entry-Covered :
      (rs : List ℕ) (e : Entry) (nodes : Nodes) (a : ℕ)
      → Closed nodes
      → (nodes n).finished ≡ false
      → ((r : ℕ) → Among r rs → Follows nodes e.out r)
      → Among a rs ⊎ CoveredBy nodes a e.out
      → Covered (precede_entry rs e n nodes).0 a n
  precede_entry-Covered [] e nodes a closed idle later (inl m) = absurd m
  precede_entry-Covered [] e nodes a closed idle later (inr c) =
      kupl_gnode_precede-Covered e.out n nodes a closed idle c
  precede_entry-Covered (r ∷ rs) e nodes a closed idle later (inl m) =
      precede_readers-Covered (r ∷ rs) nodes a closed idle m
  precede_entry-Covered (r ∷ rs) e nodes a closed idle later (inr c) =
      let nodes' = (precede_readers (r ∷ rs) n nodes).0 in
      let links = precede_readers-Links (r ∷ rs) nodes in
      CoveredBy-Follows nodes' a r n e.out (links.closed closed idle)
        (CoveredBy-Grows nodes nodes' a e.out links.grows c)
        (Follows-Grows nodes nodes' e.out r links.grows (later r (inl refl)))
        (precede_readers-Covered (r ∷ rs) nodes r closed idle (inl refl))

  -- What processing an entry for a write does.
  pub node_process_dep_out-Tracks :
      (past : List Access) (nodes : Nodes) (x : ℕ) (e : Entry) (dep : Dep)
      → Closed nodes
      → (nodes n).finished ≡ false
      → Tracks past nodes x e
      → let (e', nodes', _) = node_process_dep_out e n nodes in
        Links n nodes nodes'
        × ((a : Access) → Among a past → touches a.dep x ≡ true → Covered nodes' a.task n)
        × Tracks (record { task = n; dep = dep } ∷ past) nodes' x e'
  unfolding node_process_dep_out
  node_process_dep_out-Tracks past nodes x e dep closed idle t =
      let nodes' = (precede_entry e.readers e n nodes).0 in
      let covered = λ (a : ℕ) (c : Among a e.readers ⊎ CoveredBy nodes a e.out).
        precede_entry-Covered e.readers e nodes a closed idle t.later c in
      (
        precede_entry-Links e.readers e nodes,
        λ a m w. covered a.task (t.read a m w),
        record {
          written = λ a m w. elim m [
            | inl same ↦
                subst (λ (v : ℕ). Covered nodes' v n) (ap (λ (c : Access). c.task) (sym same))
                  (inr (itself n))
            | inr old ↦ covered a.task (inr (t.written a old w))
          ];
          read = λ a m w. elim m [
            | inl same ↦ inr (
                subst (λ (v : ℕ). Covered nodes' v n) (ap (λ (c : Access). c.task) (sym same))
                  (inr (itself n)))
            | inr old ↦ inr (covered a.task (t.read a old w))
          ];
          later = λ r m. absurd m;
        },
      )

  -- What processing an entry for a read does.
  pub node_process_dep_in-Tracks :
      (past : List Access) (nodes : Nodes) (x : ℕ) (e : Entry) (dep : Dep)
      → Closed nodes
      → (nodes n).finished ≡ false
      → writes dep x ≡ false
      → Tracks past nodes x e
      → let (e', nodes', _) = node_process_dep_in e n nodes in
        Links n nodes nodes'
        × ((a : Access) → Among a past → writes a.dep x ≡ true → Covered nodes' a.task n)
        × Tracks (record { task = n; dep = dep } ∷ past) nodes' x e'
  unfolding node_process_dep_in
  node_process_dep_in-Tracks past nodes x e dep closed idle unwritten t =
      let nodes' = (kupl_gnode_precede e.out n nodes).0 in
      let links = kupl_gnode_precede-Links e.out n nodes in
      (
        links,
        λ a m w. kupl_gnode_precede-Covered e.out n nodes a.task closed idle (t.written a m w),
        record {
          written = λ a m w. elim m [
            | inl same ↦
                let wrong : true ≡ false =
                  sym w ∙ ap (λ (c : Access). writes c.dep x) same ∙ unwritten in
                absurd (cc)
            | inr old ↦ CoveredBy-Grows nodes nodes' a.task e.out links.grows (t.written a old w)
          ];
          read = λ a m w. elim m [
            | inl same ↦ inl (inl (ap (λ (c : Access). c.task) same))
            | inr old ↦ elim (t.read a old w) [
              | inl r ↦ inl (inr r)
              | inr c ↦ inr (CoveredBy-Grows nodes nodes' a.task e.out links.grows c)
            ]
          ];
          later = λ r m. elim m [
            | inl same ↦ subst (Follows nodes' e.out) (sym same) (behind e.out)
            | inr old ↦ Follows-Grows nodes nodes' e.out r links.grows (t.later r old)
          ];
        },
      )
    where
      behind : (o : Option ℕ) → Follows (kupl_gnode_precede o n nodes).0 o n
      behind none = tt
      behind (some o) = kupl_gnode_precede-Covered (some o) n nodes o closed idle (inr (itself o))
