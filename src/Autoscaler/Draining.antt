-- ===== src/Autoscaler/Draining.antt =====
-- `drainNode`, and the loop of `scaleDown` over the nodes to remove.
use gpuautoscaler.Prelude.{
  ◌≡◌, ◌↔◌, refl, ap, ◌∙◌, Option, none, some, List, [], ◌∷◌, ◌++◌, map, keep, if◌then◌else◌, Bool,
  true, false, String,
}
use gpuautoscaler.Prelude.Results.{Error, Result, ok, err}
use gpuautoscaler.Kube.{Pod, Node}
use gpuautoscaler.Autoscaler.Execute.{
  Call, cordon, evict, provider_scale_up, provider_scale_down, DrainAnswers, wait_for_eviction,
  evict_all, cordoned, drain_node, removed, remove_nodes,
}

abbrev pub succeeds : Option Error × List Call → Bool
succeeds (none, calls) = true
succeeds (some e, calls) = false

abbrev pub drains_well : (String → DrainAnswers) → Node → Bool
drains_well answers node = succeeds (drain_node (answers node.name) node)

-- The nodes that the provider is asked to remove.
abbrev pub removals : List Call → List String
removals [] = []
removals (provider_scale_down name ∷ calls) = name ∷ removals calls
removals (cordon name ∷ calls) = removals calls
removals (evict name ∷ calls) = removals calls
removals (provider_scale_up pool n ∷ calls) = removals calls

removals-append : (xs ys : List Call) → removals (xs ++ ys) ≡ removals xs ++ removals ys
removals-append [] ys = refl
removals-append (provider_scale_down name ∷ xs) ys = ap (◌∷◌ name) (removals-append xs ys)
removals-append (cordon name ∷ xs) ys = removals-append xs ys
removals-append (evict name ∷ xs) ys = removals-append xs ys
removals-append (provider_scale_up pool n ∷ xs) ys = removals-append xs ys

removals-evict : (pods : List Pod) → removals (map (λ p. evict p.name) pods) ≡ []
removals-evict [] = refl
removals-evict (p ∷ pods) = removals-evict pods

removals-drain_node : (a : DrainAnswers) (node : Node) → removals (drain_node a node).1 ≡ []
unfolding drain_node
removals-drain_node a node = go a.updated a.listed
  where
    listing : (l : Result (List Pod)) → removals (evict_all l a.polled).1 ≡ []
    listing (err e) = refl
    listing (ok pods) = removals-evict pods

    go :
        (u : Option Error) (l : Result (List Pod))
        → removals
            (cordoned u node (record { updated = u; listed = a.listed; polled = a.polled })).1
          ≡ []
    go (some e) l = refl
    go none l = listing a.listed

removals-removed :
    (o : Option Error × List Call) (node : Node)
    → removals o.1 ≡ []
    → removals (removed o node) ≡ (if succeeds o then node.name ∷ [] else [])
removals-removed (some e, calls) node h = h
removals-removed (none, calls) node h =
    removals-append calls (provider_scale_down node.name ∷ []) ∙ rw h

map-keep_cons :
    (b : Bool) (n : Node) (ns : List Node)
    → (if b then n.name ∷ [] else []) ++ map (λ x. x.name) ns
      ≡ map (λ x. x.name) (if b then n ∷ ns else ns)
map-keep_cons true n ns = refl
map-keep_cons false n ns = refl

-- `scaleDown` asks the provider to remove just the nodes whose drain succeeded, in their order.
pub remove_nodes-removals :
    (answers : String → DrainAnswers) (nodes : List Node)
    → removals (remove_nodes answers nodes) ≡ map (λ n. n.name) (keep (drains_well answers) nodes)
unfolding remove_nodes
remove_nodes-removals answers [] = refl
remove_nodes-removals answers (n ∷ ns) =
    let outcome = drain_node (answers n.name) n in
    removals-append (removed outcome n) (remove_nodes answers ns)
    ∙ rw
        (
          removals-removed outcome n (removals-drain_node (answers n.name) n),
          remove_nodes-removals answers ns,
        )
        (map-keep_cons (succeeds outcome) n (keep (drains_well answers) ns))

-- Before the ticks run out a list of the node's pods comes back empty, and all before it come back.
abbrev pub Empties : List (Result (List Pod)) → Type 0
Empties [] = ⊥
Empties (err e ∷ ticks) = ⊥
Empties (ok [] ∷ ticks) = Unit
Empties (ok (p ∷ ps) ∷ ticks) = Empties ticks

wait_succeeds :
    (ticks : List (Result (List Pod))) (calls : List Call)
    → (succeeds (wait_for_eviction ticks, calls) ≡ true) ↔ Empties ticks
unfolding wait_for_eviction
wait_succeeds [] calls = (λ e. cc, λ h. absurd h)
wait_succeeds (err e ∷ ticks) calls = (λ e. cc, λ h. absurd h)
wait_succeeds (ok [] ∷ ticks) calls = (λ _. tt, λ _. refl)
wait_succeeds (ok (p ∷ ps) ∷ ticks) calls = wait_succeeds ticks calls

-- A drain succeeds exactly when the node could be marked unschedulable, its pods could be listed, and
-- the list of its pods came back empty before an error and before the timeout.
pub drain_node-succeeds_iff :
    (a : DrainAnswers) (node : Node)
    → (succeeds (drain_node a node) ≡ true)
      ↔ ((a.updated ≡ none) × ((pods : List Pod) × (a.listed ≡ ok pods)) × Empties a.polled)
unfolding drain_node
drain_node-succeeds_iff a node = go a.updated a.listed a.polled
  where
    go :
        (u : Option Error) (l : Result (List Pod)) (ticks : List (Result (List Pod)))
        → (succeeds (cordoned u node (record { updated = u; listed = l; polled = ticks })) ≡ true)
          ↔ ((u ≡ none) × ((pods : List Pod) × (l ≡ ok pods)) × Empties ticks)
    go (some e) l ticks = (λ h. cc, λ h. cc h.0)
    go none (err e) ticks = (λ h. cc, λ h. cc h.1.1)
    go none (ok pods) ticks =
        let calls = cordon node.name ∷ map (λ p. evict p.name) pods in
        let w = wait_succeeds ticks calls in (λ h. (refl, (pods, refl), w.0 h), λ h. w.1 h.2)
