-- ===== src/Scheduler/Capacity.antt =====
-- What `getGPUNodes` reads off a node and its pods.
use gpuautoscaler.Prelude.{
  ℕ, ◌+◌, ◌<◌, ◌^◌, ◌≡◌, refl, ap, ℤ, pos, pos_part, neg_part, ◌-ℤ◌, add64, add64-eq, sub64-eq,
  one_sided, int_laws, ◌+ℤ◌, +ℤ_parts, -ℤ_parts, eq_of_parts, Option, none, some, List, [], ◌∷◌,
  ◌++◌, arith, All, if◌then◌else◌, Bool-cases, inl, inr, map_get, String, ◌∙◌,
}
use gpuautoscaler.Kube.{Pod, Node, Container, is_running, gpu_resource}
use gpuautoscaler.Scheduler.Discover.{add_request, sum_requests, copies, allocate, gpu_node}

-- The quantity of one resource that a container asks for: 0 if it does not.
abbrev pub quantity : String → Container → ℤ
quantity key c = elim (map_get key c.requests) [ none ↦ pos 0 | some q ↦ q ]

abbrev pub asked : String → List Container → ℕ
asked key [] = 0
asked key (c ∷ cs) = pos_part (quantity key c) + asked key cs

-- The API server admits no negative quantity.
abbrev pub IsNatural : String → Container → Type 0
IsNatural key c = neg_part (quantity key c) ≡ 0

-- The GPUs of the running pods of a list.
abbrev pub held : List Pod → ℕ
held [] = 0
held (p ∷ ps) = if is_running p.phase then asked gpu_resource p.containers + held ps else held ps

add_request-eq :
    (key : String) (c : Container) (t : ℕ)
    → IsNatural key c
    → t + pos_part (quantity key c) < 2 ^ 63
    → add_request key c (pos t) ≡ pos (t + pos_part (quantity key c))
add_request-eq key c t natural small = go (map_get key c.requests) natural small
  where
    go :
        (q : Option ℤ)
        → neg_part (elim q [ none ↦ pos 0 | some x ↦ x ]) ≡ 0
        → t + pos_part (elim q [ none ↦ pos 0 | some x ↦ x ]) < 2 ^ 63
        → elim q [ none ↦ pos t | some x ↦ add64 (pos t) x ]
          ≡ pos (t + pos_part (elim q [ none ↦ pos 0 | some x ↦ x ]))
    go none n h = ground arith
    go (some x) n h = ground (
      arith,
      eq_of_parts (pos t +ℤ x) (pos (t + pos_part x)),
      +ℤ_parts (pos t) x,
      one_sided (pos t +ℤ x),
      add64-eq (pos t) x,
    )

pub sum_requests-eq :
    (key : String) (cs : List Container) (t : ℕ)
    → All (IsNatural key) cs
    → t + asked key cs < 2 ^ 63
    → sum_requests key cs (pos t) ≡ pos (t + asked key cs)
unfolding sum_requests
sum_requests-eq key [] t natural small = ground arith
sum_requests-eq key (c ∷ cs) t (n, natural) small =
    rw (add_request-eq key c t n (omega arith))
      (ground (arith, sum_requests-eq key cs (t + pos_part (quantity key c)) natural (omega arith)))

allocate-eq :
    (ps : List Pod) (g : ℕ) (holders : List Pod)
    → All (λ p. All (IsNatural gpu_resource) p.containers) ps
    → g + held ps < 2 ^ 63
    → (allocate ps (pos g) holders).0 ≡ pos (g + held ps)
unfolding allocate
allocate-eq [] g holders natural small = ground arith
allocate-eq (p ∷ ps) g holders (n, natural) small = elim (Bool-cases (is_running p.phase)) [
  | inl runs ↦
      let few = rw runs at small in
      let own = asked gpu_resource p.containers in
      rw (runs, allocate, sum_requests-eq gpu_resource p.containers g n (omega arith))
        (allocate-eq ps (g + own) (holders ++ copies p p.containers) natural (omega arith)
          ∙ ap pos (omega arith))
  | inr idle ↦
      let few = rw idle at small in rw (idle, allocate) (allocate-eq ps g holders natural few)
]

-- For a node whose capacity and whose running pods' requests are not negative and fit an `int`, the
-- free GPUs and the GPUs of the running pods add up to the capacity, also when the pods hold more than
-- the node has; pods in any other phase do not count.
pub gpu_node-conserves :
    (node : Node) (capacity : ℕ) (pods : List Pod)
    → capacity < 2 ^ 63
    → held pods < 2 ^ 63
    → All (λ p. All (IsNatural gpu_resource) p.containers) pods
    → let n = gpu_node node (pos capacity) pods in
      (n.total_gpus ≡ pos capacity) × (n.available_gpus +ℤ pos (held pods) ≡ n.total_gpus)
unfolding gpu_node
gpu_node-conserves node capacity pods fits few natural =
    let spent = allocate-eq pods 0 [] natural (omega arith) in
    let free = pos capacity -ℤ pos (0 + held pods) in
    let exact =
      sub64-eq (pos capacity) (pos (0 + held pods))
        (omega (arith, one_sided free, -ℤ_parts (pos capacity) (pos (0 + held pods)))) in
    (refl, rw (spent, exact) (omega int_laws))
