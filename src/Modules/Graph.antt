-- ===== src/Modules/Graph.antt =====
-- `_duplicates`, `_cycle_members` and `_topological_order` of
-- backend/app/agentic_modules/validation.py. A dict is an association list whose first entry for a
-- key counts.
pub mod Ends
use Prim.Native.Nat.{Ordering, compare as compare_nat}
use llm_api_mind.Base.{
  ℕ, zero, suc, ◌-◌, String, Option, none, some, List, [], ◌∷◌, ◌++◌, map, Bool, true, false, ◌==◌,
  not, nat_eq, filter, drop, length, contains, if◌then◌else◌, ◌>>=◌,
}
use llm_api_mind.Base.Sorting.{sort_by}

-- `_duplicates`
unfoldable pub duplicates : List String → List String → List String
duplicates seen [] = []
duplicates seen (v ∷ values) =
    let rest = duplicates (v ∷ seen) values in if contains seen v then v ∷ rest else rest

abbrev pub Graph : Type 0
Graph = List (String × List String)

unfoldable pub has_node : Graph → String → Bool
has_node [] i = false
has_node ((j, _) ∷ g) i = elim (i == j) [ true ↦ true | false ↦ has_node g i ]

-- `graph.get(node, [])`
unfoldable pub edges : Graph → String → List String
edges [] i = []
edges ((j, deps) ∷ g) i = if i == j then deps else edges g i

-- one item of a dict comprehension: a key that is there keeps its place
unfoldable pub put_node : Graph → String → List String → Graph
put_node [] i deps = (i, deps) ∷ []
put_node ((j, old) ∷ g) i deps = if i == j then (j, deps) ∷ g else (j, old) ∷ put_node g i deps

module _ {ℓ} {V : Type ℓ} (default : V) where
  abbrev pub get_or : List (String × V) → String → V
  get_or [] i = default
  get_or ((j, v) ∷ d) i = if i == j then v else get_or d i

abbrev pub pop_key : List (String × ℕ) → String → List (String × ℕ)
pop_key [] i = []
pop_key ((j, v) ∷ d) i = let rest = pop_key d i in if i == j then rest else (j, v) ∷ rest

-- the variables of `_cycle_members`
pub record Search : Type 0 where
  pub state : List (String × ℕ)
  pub stack : List String
  pub stack_index : List (String × ℕ)
  pub members : List String

abbrev pub state_of : Search → String → ℕ
state_of s i = get_or 0 s.state i

-- `members.update(values)`
abbrev pub add_all : List String → List String → List String
add_all members [] = members
add_all members (v ∷ values) =
    add_all (if contains members v then members else members ++ v ∷ []) values

unfoldable pub enter : String → Search → Search
enter node s = record s {
  state = (node, 1) ∷ s.state;
  stack_index = (node, length s.stack) ∷ s.stack_index;
  stack = s.stack ++ node ∷ [];
}

abbrev pub but_last : List String → List String
but_last [] = []
but_last (x ∷ []) = []
but_last (x ∷ y ∷ l) = x ∷ but_last (y ∷ l)

unfoldable pub leave : String → Search → Search
leave node s = record s {
  stack = but_last s.stack;
  stack_index = pop_key s.stack_index node;
  state = (node, 2) ∷ s.state;
}

unfoldable pub close_cycle : String → Search → Search
close_cycle dependency s = record s {
  members = add_all s.members (drop (get_or 0 s.stack_index dependency) s.stack);
}

-- the loop over a node's dependencies; `go` visits one
unfoldable pub visit_edges :
    (String → Search → Option Search) → Graph → List String → Search → Option Search
unfolding has_node close_cycle
visit_edges go g [] s = some s
visit_edges go g (d ∷ deps) s =
    if not (has_node g d)
    then visit_edges go g deps s
    else if nat_eq (state_of s d) 0
    then (do s' ← go d s; visit_edges go g deps s')
    else visit_edges go g deps (if nat_eq (state_of s d) 1 then close_cycle d s else s)

-- `visit`. Each call marks a node that had no mark, so a fuel of as many nodes as are unmarked is
-- enough; `none` means that the fuel ran out.
unfoldable pub visit : ℕ → Graph → String → Search → Option Search
unfolding enter leave visit_edges edges
visit zero g node s = none
visit (suc fuel) g node s = do
  s' ← visit_edges (visit fuel g) g (edges g node) (enter node s)
  some (leave node s')

unfoldable pub visit_nodes : ℕ → Graph → List String → Search → Option Search
unfolding visit
visit_nodes fuel g [] s = some s
visit_nodes fuel g (node ∷ nodes) s =
    if nat_eq (state_of s node) 0
    then (do s' ← visit fuel g node s; visit_nodes fuel g nodes s')
    else visit_nodes fuel g nodes s

abbrev pub nodes : Graph → List String
nodes = map (λ (i, _). i)

abbrev pub unvisited : Search
unvisited = record { state = []; stack = []; stack_index = []; members = [] }

-- `_cycle_members`
unfoldable pub cycle_members : Graph → Option (List String)
unfolding visit_nodes
cycle_members g = do s ← visit_nodes (length g) g (nodes g) unvisited; some s.members

-- `order_index[module_id]`: the last position of an id in the list
unfoldable pub order_index : ℕ → List String → String → ℕ
order_index n [] i = 0
order_index n (j ∷ l) i =
    if contains l i then order_index (suc n) l i else if i == j then n else order_index (suc n) l i

-- the dependencies of a module that are active
abbrev pub active_edges : List String → Graph → String → List String
active_edges active g i = filter (contains active) (edges g i)

-- `dependents[dependency_id]`: every module of the list once for each time it names the dependency
unfoldable pub dependents : List String → Graph → List String → String → List String
dependents active g [] d = []
dependents active g (i ∷ l) d =
    map (λ _. i) (filter (λ e. e == d) (active_edges active g i)) ++ dependents active g l d

abbrev pub Degrees : Type 0
Degrees = List (String × ℕ)

-- the inner loop: a dependent whose count falls to zero joins the queue
unfoldable pub release : List String → Degrees → List String → Degrees × List String
release [] degree queue = (degree, queue)
release (i ∷ l) degree queue =
    let n = get_or 0 degree i - 1 in
    release l ((i, n) ∷ degree) (if nat_eq n 0 then queue ++ i ∷ [] else queue)

module _ (active : List String) (g : Graph) (manifest_order : List String) where
  abbrev by_order : String → String → Ordering
  by_order i j = compare_nat (order_index 0 manifest_order i) (order_index 0 manifest_order j)

  -- `while queue`, with the number of rounds bounded by the fuel
  unfoldable pub drain : ℕ → Degrees → List String → List String → List String
  unfolding release dependents
  drain zero degree queue result = result
  drain (suc fuel) degree [] result = result
  drain (suc fuel) degree (i ∷ queue) result =
      let (degree', queue') =
        release (sort_by by_order (dependents active g active i)) degree queue in
      drain fuel degree' queue' (result ++ i ∷ [])

  -- `_topological_order`; a module enters the queue at most once, so the active modules are fuel
  -- enough
  unfoldable pub topological_order : List String
  unfolding drain order_index
  topological_order =
      let degree = map (λ i. (i, length (active_edges active g i))) active in
      drain (length active) degree
        (sort_by by_order (filter (λ i. nat_eq (length (active_edges active g i)) 0) active)) []
