-- ===== src/IssueGraph/Edges.antt =====
-- internal/issuegraph/graph.go: what the edges of a graph join.
use botfam.Base.{
  All-inserted, ℕ, String, ◌≡◌, refl, sym, ap, ◌∙◌, inl, inr, Bool, true, false, not, ◌||◌,
  false≢true, Option, none, some, List, [], ◌∷◌, ◌++◌, map, arith, ◌==◌, nat_eq, if◌then◌else◌,
  Bool-cases, any, filter, update, All, All-append,
}
use botfam.Forge.Closure.{has}
use botfam.Forge.Scope.{Issue, select_issues, by_num, task_refs, mention_refs}
use botfam.IssueGraph.{
  Options, Node, Edge, Graph, has_node, same_edge, mark_epic, add_edge, add_edges, edges_of,
  all_edges, insert_node, sort_nodes, insert_edge, sort_edges, edge_less, build, collect_nodes,
}

-- An edge joins two different nodes.
unfoldable pub IsLink : List Node → Edge → Type 0
IsLink nodes e =
    (nat_eq e.from e.to ≡ false) × (has_node nodes e.from ≡ true) × (has_node nodes e.to ≡ true)

unfoldable pub IsLinked : Graph → Type 0
IsLinked g = All (IsLink g.nodes) g.edges

-- the nodes of `ms` have the numbers of those of `ns`
SameNumbers : List Node → List Node → Type 0
SameNumbers ns ms = (k : ℕ) → has_node ms k ≡ has_node ns k

IsLink-same :
    (ns ms : List Node) (es : List Edge)
    → SameNumbers ns ms
    → All (IsLink ns) es
    → All (IsLink ms) es
unfolding SameNumbers IsLink
IsLink-same ns ms [] s h = tt
IsLink-same ns ms (e ∷ es) s h =
    ((h.0.0, s e.from ∙ h.0.1, s e.to ∙ h.0.2), IsLink-same ns ms es s h.1)

mark_epic-SameNumbers : (k : ℕ) (ns : List Node) → SameNumbers ns (mark_epic k ns)
unfolding SameNumbers mark_epic has_node any update
mark_epic-SameNumbers k [] j = refl
mark_epic-SameNumbers k (n ∷ ns) j = ground (arith, mark_epic-SameNumbers k ns j)

marked : (b : Bool) (k : ℕ) (ns : List Node) → SameNumbers ns (if b then mark_epic k ns else ns)
unfolding SameNumbers
marked true k ns = mark_epic-SameNumbers k ns
marked false k ns = λ j. refl

passed :
    (a b c d : Bool) → (a || not b || not c || d) ≡ false → (a ≡ false) × (b ≡ true) × (c ≡ true)
passed false true true d h = (refl, refl, refl)
passed true b c d h = absurd (false≢true (sym h))
passed false false c d h = absurd (false≢true (sym h))
passed false true false d h = absurd (false≢true (sym h))

add_edge-IsLinked : (e : Edge) (g : Graph) → IsLinked g → IsLinked (add_edge e g)
unfolding IsLinked add_edge IsLink
add_edge-IsLinked e g h =
    elim (Bool-cases (
      nat_eq e.from e.to
      || not (has_node g.nodes e.from)
      || not (has_node g.nodes e.to)
      || any (same_edge e) g.edges)) [
        | inl t ↦ rw t h
        | inr t ↦ rw t (
            let nodes = if e.kind == "subtask" then mark_epic e.from g.nodes else g.nodes in
            let k =
              passed (nat_eq e.from e.to) (has_node g.nodes e.from) (has_node g.nodes e.to)
                (any (same_edge e) g.edges) t in
            let h' = All-append (IsLink g.nodes) g.edges (e ∷ []) h ((k.0, k.1, k.2), tt) in
            IsLink-same g.nodes nodes (g.edges ++ e ∷ [])
              (marked (e.kind == "subtask") e.from g.nodes) h')
      ]

insert_node-has : (n : Node) (ns : List Node) → SameNumbers (n ∷ ns) (insert_node n ns)
unfolding SameNumbers insert_node has_node any
insert_node-has n [] k = refl
insert_node-has n (m ∷ ms) k = ground (arith, insert_node-has n ms k)

sort_nodes-SameNumbers : (ns : List Node) → SameNumbers ns (sort_nodes ns)
unfolding SameNumbers sort_nodes has_node any
sort_nodes-SameNumbers [] k = refl
sort_nodes-SameNumbers (n ∷ ns) k =
    insert_node-has n (sort_nodes ns) k
    ∙ ap (λ b. nat_eq n.number k || b) (sort_nodes-SameNumbers ns k)

module _ (P : Edge → Type 0) where
  All-insert_edge : (e : Edge) (es : List Edge) → P e → All P es → All P (insert_edge e es)
  unfolding insert_edge
  All-insert_edge e [] he h = (he, tt)
  All-insert_edge e (f ∷ fs) he h =
      All-inserted P (edge_less f e) e f (insert_edge e fs) fs he h.0 (All-insert_edge e fs he h.1)
        h.1

  All-sort_edges : (es : List Edge) → All P es → All P (sort_edges es)
  unfolding sort_edges
  All-sort_edges [] h = tt
  All-sort_edges (e ∷ es) h = All-insert_edge e (sort_edges es) h.0 (All-sort_edges es h.1)

add_edges-IsLinked :
    (n : ℕ) (kind : String) (refs : List ℕ) (g : Graph)
    → IsLinked g
    → IsLinked (add_edges n kind refs g)
unfolding add_edges
add_edges-IsLinked n kind [] g h = h
add_edges-IsLinked n kind (ref ∷ refs) g h =
    let e : Edge = record { from = n; to = ref; kind = kind } in
    add_edges-IsLinked n kind refs (add_edge e g) (add_edge-IsLinked e g h)

edges_of-IsLinked :
    (with_mentions : Bool) (n : ℕ) (o : Option Issue) (g : Graph)
    → IsLinked g
    → IsLinked (edges_of with_mentions n o g)
unfolding edges_of
edges_of-IsLinked with_mentions n none g h = h
edges_of-IsLinked true n (some iss) g h =
    let subtasks = task_refs iss.body in
    add_edges-IsLinked n "mention" (filter (λ ref. not (has ref subtasks)) (mention_refs iss.body))
      (add_edges n "subtask" subtasks g) (add_edges-IsLinked n "subtask" subtasks g h)
edges_of-IsLinked false n (some iss) g h = add_edges-IsLinked n "subtask" (task_refs iss.body) g h

all_edges-IsLinked :
    (with_mentions : Bool) (issues : List Issue) (ns : List ℕ) (g : Graph)
    → IsLinked g
    → IsLinked (all_edges with_mentions issues ns g)
unfolding all_edges
all_edges-IsLinked with_mentions issues [] g h = h
all_edges-IsLinked with_mentions issues (n ∷ ns) g h =
    all_edges-IsLinked with_mentions issues ns (edges_of with_mentions n (by_num issues n) g)
      (edges_of-IsLinked with_mentions n (by_num issues n) g h)

sorted-IsLinked :
    (g : Graph)
    → IsLinked g
    → IsLinked (record { nodes = sort_nodes g.nodes; edges = sort_edges g.edges })
unfolding IsLinked
sorted-IsLinked g h =
    IsLink-same g.nodes (sort_nodes g.nodes) (sort_edges g.edges) (sort_nodes-SameNumbers g.nodes)
      (All-sort_edges (IsLink g.nodes) g.edges h)

-- Every edge of the graph of any issues joins two different nodes of that graph.
pub build-IsLinked : (issues : List Issue) (opt : Options) → IsLinked (build issues opt)
unfolding build IsLinked
build-IsLinked issues opt =
    let nodes = collect_nodes (select_issues issues opt.scope) issues [] in
    let g : Graph = record { nodes = nodes; edges = [] } in
    let ns = map (λ n. n.number) nodes in
    sorted-IsLinked (all_edges opt.with_mentions issues ns g)
      (all_edges-IsLinked opt.with_mentions issues ns g tt)
