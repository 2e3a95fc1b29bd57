-- ===== src/IssueGraph.antt =====
-- internal/issuegraph/graph.go: the graph of the issues of a scope.
pub mod Edges
use Prim.Native.Char.{Char, code}
use Prim.Native.String.{◌++◌ as append}
use text.Mathlib.TextLemmas.{
  cons-append, nil-append, append-nil as text_append-nil, append_assoc as text_append_assoc,
}
use botfam.Base.{
  ℕ, zero, suc, ◌+◌, ◌-◌, ◌*◌, ◌/◌, ◌%◌, ◌^◌, ◌≤◌, ◌<◌, String, ◌≡◌, refl, sym, ap, ◌∙◌, fun_ext,
  ◌≢◌, ◌↔◌, ◌⊎◌, inl, inr, Bool, true, false, not, ◌&&◌, ◌||◌, false≢true, Option, none, some, List,
  [], ◌∷◌, ◌++◌, map, append-nil, append_assoc, arith, ◌==◌, eq_iff, eq_refl, ltb, leb, nat_eq,
  if◌then◌else◌, ltb→lt, nat_eq_iff, Bool-cases, Option-cases, Error, engine, message, Result, ok,
  err, Exec, pure, raise, continue, ◌>>=◌, ◌>>◌, ignore, Result-cases, length, any, find, filter,
  update, length-append, any-append, is_some, or_else, or_default, any-find, All, All-append,
}
use botfam.Base.Text.{is_space, trim_space, is_blank, join, digit, format_int}
use botfam.Base.Runes.{
  all_chars, runes, take_runes, keep_chars, fields, all_chars-append, all_chars-take_runes,
  all_chars-keep_chars, runes-take_runes-le, all_chars-trim_space, all_chars-join-fields,
  starts_clean, starts_clean-trim_space, starts_clean-take_runes,
}
use botfam.Base.Numerals.{
  ℤ, is_positive, parse_int, format_integer, parse_int-format_int, max_int64,
}
use Prim.Native.String.{compare}
use text.Mathlib.Text.{is_lt}
use botfam.Forge.Closure.{has}
use botfam.Forge.Scope.{Issue, Scope, select_issues, task_refs, mention_refs, by_num}

pub record Options : Type 0 where
  pub scope : Scope
  pub with_mentions : Bool

pub record Node : Type 0 where
  pub number : ℕ
  pub title : String
  pub state : String
  pub is_epic : Bool

pub record Edge : Type 0 where
  pub from : ℕ
  pub to : ℕ
  pub kind : String

pub record Graph : Type 0 where
  pub nodes : List Node
  pub edges : List Edge

in_scope : Option (List ℕ) → ℕ → Bool
unfolding has
in_scope none n = true
in_scope (some target) n = has n target

-- an assignment to the map of the nodes
put_node : Node → List Node → List Node
unfolding filter
put_node n nodes = filter (λ m. not (nat_eq m.number n.number)) nodes ++ n ∷ []

collect_nodes : Option (List ℕ) → List Issue → List Node → List Node
unfolding in_scope put_node
collect_nodes target [] nodes = nodes
collect_nodes target (iss ∷ issues) nodes =
    let n : Node = record {
      number = iss.index;
      title = iss.title;
      state = iss.state;
      is_epic = false;
    } in
    collect_nodes target issues
      (if iss.is_pull || not (in_scope target iss.index) then nodes else put_node n nodes)

unfoldable pub has_node : List Node → ℕ → Bool
unfolding any
has_node nodes k = any (λ n. nat_eq n.number k) nodes

unfoldable pub same_edge : Edge → Edge → Bool
same_edge e f = nat_eq e.from f.from && nat_eq e.to f.to && e.kind == f.kind

mark_epic : ℕ → List Node → List Node
unfolding update
mark_epic k nodes = update (λ n. nat_eq n.number k) (λ n. record n { is_epic = true }) nodes

-- the closure addEdge
unfoldable pub add_edge : Edge → Graph → Graph
unfolding has_node same_edge any mark_epic
add_edge e g =
    if nat_eq e.from e.to
      || not (has_node g.nodes e.from)
      || not (has_node g.nodes e.to)
      || any (same_edge e) g.edges
    then g
    else record {
      nodes = if e.kind == "subtask" then mark_epic e.from g.nodes else g.nodes;
      edges = g.edges ++ e ∷ [];
    }

add_edges : ℕ → String → List ℕ → Graph → Graph
unfolding add_edge
add_edges n kind [] g = g
add_edges n kind (ref ∷ refs) g =
    add_edges n kind refs (add_edge (record { from = n; to = ref; kind = kind }) g)

edges_of : Bool → ℕ → Option Issue → Graph → Graph
unfolding add_edges task_refs mention_refs filter has
edges_of with_mentions n none g = g
edges_of with_mentions n (some iss) g =
    let subtasks = task_refs iss.body in
    let g' = add_edges n "subtask" subtasks g in
    if with_mentions
    then add_edges n "mention" (filter (λ ref. not (has ref subtasks)) (mention_refs iss.body)) g'
    else g'

all_edges : Bool → List Issue → List ℕ → Graph → Graph
unfolding edges_of by_num
all_edges with_mentions issues [] g = g
all_edges with_mentions issues (n ∷ ns) g =
    all_edges with_mentions issues ns (edges_of with_mentions n (by_num issues n) g)

insert_node : Node → List Node → List Node
insert_node n [] = n ∷ []
insert_node n (m ∷ ms) =
    let rest = insert_node n ms in if ltb m.number n.number then m ∷ rest else n ∷ m ∷ ms

sort_nodes : List Node → List Node
unfolding insert_node
sort_nodes [] = []
sort_nodes (n ∷ ns) = insert_node n (sort_nodes ns)

edge_less : Edge → Edge → Bool
edge_less e f =
    if not (nat_eq e.from f.from)
    then ltb e.from f.from
    else if not (nat_eq e.to f.to)
    then ltb e.to f.to
    else is_lt (compare e.kind f.kind)

insert_edge : Edge → List Edge → List Edge
unfolding edge_less
insert_edge e [] = e ∷ []
insert_edge e (f ∷ fs) =
    let rest = insert_edge e fs in if edge_less f e then f ∷ rest else e ∷ f ∷ fs

sort_edges : List Edge → List Edge
unfolding insert_edge
sort_edges [] = []
sort_edges (e ∷ es) = insert_edge e (sort_edges es)

-- build
unfoldable pub build : List Issue → Options → Graph
unfolding collect_nodes select_issues all_edges sort_nodes sort_edges
build issues opt =
    let nodes = collect_nodes (select_issues issues opt.scope) issues [] in
    let g =
      all_edges opt.with_mentions issues (map (λ n. n.number) nodes)
        (record { nodes = nodes; edges = [] }) in
    record { nodes = sort_nodes g.nodes; edges = sort_edges g.edges }
