-- ===== src/Modules/Graph/Ends.antt =====
-- The recursion of `_cycle_members` ends: each call of `visit` marks one more node of the graph.
use llm_api_mind.Base.{
  ℕ, zero, suc, ◌≤◌, ◌<◌, String, some, List, [], ◌∷◌, true, false, ◌≡◌, refl, arith, All, All-map,
  Option, Bool-cases, inl, inr, nat_eq, contains, eq_refl, length, ◌>>=◌,
}
use llm_api_mind.Base.Counts.{passing, passing_le, passing_lt}
use llm_api_mind.Modules.Graph.{
  Graph, has_node, edges, Search, state_of, enter, leave, close_cycle, visit_edges, visit,
  visit_nodes, nodes, unvisited, cycle_members,
}

-- a node that the first search has marked is marked in the second
abbrev Keeps : Search → Search → Type 0
Keeps s t = (i : String) → nat_eq (state_of t i) 0 ≡ true → nat_eq (state_of s i) 0 ≡ true

abbrev unmarked : Graph → Search → ℕ
unmarked g s = passing (λ i. nat_eq (state_of s i) 0) (nodes g)

unmarked_le : (g : Graph) (s t : Search) → Keeps s t → unmarked g t ≤ unmarked g s
unmarked_le g s t k =
    passing_le (λ i. nat_eq (state_of s i) 0) (λ i. nat_eq (state_of t i) 0) k (nodes g)

has_node-contains : (g : Graph) (i : String) → has_node g i ≡ contains (nodes g) i
unfolding has_node
has_node-contains [] i = refl
has_node-contains ((j, deps) ∷ g) i = ground (arith, has_node-contains g i)

enter-Keeps : (i : String) (s : Search) → Keeps s (enter i s)
unfolding enter
enter-Keeps i s j h = ground (arith, h)

leave-Keeps : (i : String) (s : Search) → Keeps s (leave i s)
unfolding leave
leave-Keeps i s j h = ground (arith, h)

enter_marks : (i : String) (s : Search) → nat_eq (state_of (enter i s) i) 0 ≡ false
unfolding enter
enter_marks i s = ground (arith, eq_refl i)

-- entering a node of the graph that has no mark leaves one node less unmarked
enter_drops :
    (g : Graph) (i : String) (s : Search)
    → has_node g i ≡ true
    → nat_eq (state_of s i) 0 ≡ true
    → unmarked g (enter i s) < unmarked g s
enter_drops g i s here free =
    passing_lt (λ j. nat_eq (state_of s j) 0) (λ j. nat_eq (state_of (enter i s) j) 0)
      (enter-Keeps i s) (nodes g) i (ground (arith, has_node-contains g i, here)) free
      (enter_marks i s)

-- the call returns a search that keeps the marks
abbrev Returns : Option Search → Search → Type 0
Returns o s = (t : Search) × (o ≡ some t) × Keeps s t

module _ (g : Graph) (go : String → Search → Option Search) (fuel : ℕ)
    (visits : (i : String) (s : Search)
      → unmarked g s ≤ fuel
      → has_node g i ≡ true
      → nat_eq (state_of s i) 0 ≡ true
      → Returns (go i s) s) where
  -- one dependency, and then the others
  edge_visited :
      (i : String) (deps : List String) (s : Search)
      → ((t : Search) → unmarked g t ≤ fuel → Returns (visit_edges go g deps t) t)
      → unmarked g s ≤ fuel
      → has_node g i ≡ true
      → nat_eq (state_of s i) 0 ≡ true
      → Returns (do t ← go i s; visit_edges go g deps t) s
  edge_visited i deps s rest enough here free =
      let (t, e, k) = visits i s enough here free in
      let below = unmarked_le g s t k in
      let (u, e', k') = rest t (omega arith) in (u, rw e e', λ j h. k j (k' j h))

  visit_edges-Returns :
      (deps : List String) (s : Search) → unmarked g s ≤ fuel → Returns (visit_edges go g deps s) s
  unfolding visit_edges close_cycle
  visit_edges-Returns [] s enough = (s, refl, λ j h. h)
  visit_edges-Returns (i ∷ deps) s enough = elim (Bool-cases (has_node g i)) [
    | inr away ↦ rw away (visit_edges-Returns deps s enough)
    | inl here ↦ elim (Bool-cases (nat_eq (state_of s i) 0)) [
      | inl free ↦
          rw (here, free) (edge_visited i deps s (visit_edges-Returns deps) enough here free)
      | inr marked ↦ elim (Bool-cases (nat_eq (state_of s i) 1)) [
        | inl open_ ↦ rw (here, marked, open_) (visit_edges-Returns deps (close_cycle i s) enough)
        | inr done ↦ rw (here, marked, done) (visit_edges-Returns deps s enough)
      ]
    ]
  ]

visit-Returns :
    (fuel : ℕ) (g : Graph) (i : String) (s : Search)
    → unmarked g s ≤ fuel
    → has_node g i ≡ true
    → nat_eq (state_of s i) 0 ≡ true
    → Returns (visit fuel g i s) s
unfolding visit
visit-Returns zero g i s enough here free = absurd (omega (arith, enter_drops g i s here free))
visit-Returns (suc fuel) g i s enough here free =
    let (t, e, k) =
      visit_edges-Returns g (visit fuel g) fuel (visit-Returns fuel g) (edges g i) (enter i s)
        (omega (arith, enter_drops g i s here free)) in
    (leave i t, rw e refl, λ j h. enter-Keeps i s j (k j (leave-Keeps i t j h)))

visit_nodes-Returns :
    (fuel : ℕ) (g : Graph) (l : List String) (s : Search)
    → unmarked g s ≤ fuel
    → All (λ i. has_node g i ≡ true) l
    → Returns (visit_nodes fuel g l s) s
unfolding visit_nodes
visit_nodes-Returns fuel g [] s enough all_here = (s, refl, λ j h. h)
visit_nodes-Returns fuel g (i ∷ l) s enough (here, rest) =
    elim (Bool-cases (nat_eq (state_of s i) 0)) [
      | inr marked ↦ rw marked (visit_nodes-Returns fuel g l s enough rest)
      | inl free ↦
          let (t, e, k) = visit-Returns fuel g i s enough here free in
          let below = unmarked_le g s t k in
          let (u, e', k') = visit_nodes-Returns fuel g l t (omega arith) rest in
          rw (free, e) (u, e', λ j h. k j (k' j h))
    ]

nodes_here : (g : Graph) → All (λ i. has_node g i ≡ true) (nodes g)
unfolding has_node
nodes_here [] = tt
nodes_here ((j, deps) ∷ g) = (
  ground (arith, eq_refl j),
  All-map (λ i. has_node g i ≡ true) (λ i. has_node ((j, deps) ∷ g) i ≡ true)
      (λ i h. ground (arith, h)) (nodes g) (nodes_here g),
)

all_unmarked : (g : Graph) → unmarked g unvisited ≤ length g
all_unmarked [] = omega arith
all_unmarked ((j, deps) ∷ g) = ground (arith, all_unmarked g)

-- The search for cycles never runs out of fuel.
pub cycle_members_total : (g : Graph) → (l : List String) × (cycle_members g ≡ some l)
unfolding cycle_members
cycle_members_total g =
    let (t, e, k) =
      visit_nodes-Returns (length g) g (nodes g) unvisited (all_unmarked g) (nodes_here g) in
    (t.members, rw e refl)
