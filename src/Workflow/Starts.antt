-- ===== src/Workflow/Starts.antt =====
-- How often a node is started, and what its counter of attempts says of it:
-- crates/sessionweft-orchestration/src/lib.rs, `start_node`.
use sessionweft.Common.{
  ℕ, suc, ◌+◌, ◌≤◌, ◌<◌, String, ◌≡◌, Bool, true, false, ◌&&◌, inl, inr, some, List, [], ◌∷◌,
  lookup, lookup-set_entry, arith, str_eq, eq_iff, eq_refl, if◌then◌else◌, u32_max,
  saturating_suc_cases, Option-cases, Bool-cases,
}
use sessionweft.Workflow.{
  WorkflowExecution, WorkflowNodeExecution, put_node, started, completed, failed_once, decided,
  attempts_of, start_node, ensure_running, node_state, advance_version,
}
use sessionweft.Workflow.Commands.{
  Command, Operation, starts, completes, fails, decides, perform, run, accepts,
}
use sessionweft.Workflow.Steps.{Write, Step, writes, marks, activates, wakes, Steps-keeps}
use sessionweft.Workflow.Moves.{run-Steps}

abbrev is_start : Operation → Bool
is_start (starts owner) = true
is_start _ = false

-- How many of the commands start the node and are accepted.
unfoldable pub starts_of : String → WorkflowExecution → List Command → ℕ
unfolding accepts
starts_of id e [] = 0
starts_of id e (c ∷ cs) =
    let rest = starts_of id (perform c c.operation e) cs in
    if is_start c.operation && str_eq c.node_id id && accepts c c.operation e
    then suc rest
    else rest

put_node-attempts_of :
    (id j : String) (n n' : WorkflowNodeExecution) (e : WorkflowExecution)
    → lookup id e.nodes ≡ some n
    → attempts_of j (put_node id n' e) ≡ (if str_eq id j then n'.attempts else attempts_of j e)
unfolding attempts_of put_node
put_node-attempts_of id j n n' e found =
    let there = lookup-set_entry id j n' n e.nodes found in
    elim (Bool-cases (str_eq id j)) [
      | inl same ↦ ground arith
      | inr apart ↦ elim (Option-cases (lookup j e.nodes)) [
        | inl none_there ↦ ground arith
        | inr (m, held) ↦ ground arith
      ]
    ]

Write-attempts :
    (e : WorkflowExecution) (id : String) (n n' : WorkflowNodeExecution)
    → Write e id n n'
    → n'.attempts < u32_max
    → n.attempts ≤ n'.attempts
unfolding started completed failed_once decided
Write-attempts e id n n' (activates d m i p k) small = omega arith
Write-attempts e id n n' (Write.starts io i owner m p) small =
    ground (arith, saturating_suc_cases u32_max m.attempts)
Write-attempts e id n n' (Write.completes io i m p) small = omega arith
Write-attempts e id n n' (Write.fails io i error d m p k) small = omega arith
Write-attempts e id n n' (wakes i f d m o x y z w p) small = omega arith
Write-attempts e id n n' (Write.decides io i approved m p) small = omega arith

-- Below its bound the counter only grows.
abbrev Grows : String → WorkflowExecution → WorkflowExecution → Type 0
Grows id e f = attempts_of id f < u32_max → attempts_of id e ≤ attempts_of id f

Step-Grows : (id : String) (e f : WorkflowExecution) → Step e f → Grows id e f
unfolding attempts_of
Step-Grows id e f (marks _ same) small = let kept = same.nodes in ground arith
Step-Grows id e f (writes j n n' found why) small = elim (Bool-cases (str_eq j id)) [
  | inl here ↦
      ground
        (arith, put_node-attempts_of j id n n' e found, eq_iff j id, Write-attempts e j n n' why)
  | inr apart ↦ ground (arith, put_node-attempts_of j id n n' e found)
]

run-Grows : (id : String) (e : WorkflowExecution) (cs : List Command) → Grows id e (run e cs)
run-Grows id e cs =
    Steps-keeps (Grows id e)
      (λ f g step h small.
        let more = Step-Grows id f g step small in let less = h (omega arith) in omega arith)
      (run-Steps e cs) (λ small. omega arith)

-- A start that is accepted writes the started node.
start_accepted :
    (c : Command) (owner : String) (e : WorkflowExecution)
    → accepts c (starts owner) e ≡ true
    → (n : WorkflowNodeExecution) × (lookup c.node_id e.nodes ≡ some n)
      × ((perform c (starts owner) e).nodes ≡ (put_node c.node_id (started c.io owner n) e).nodes)
unfolding accepts perform start_node ensure_running node_state advance_version put_node
start_accepted c owner e h = elim (Option-cases (lookup c.node_id e.nodes)) [
  | inl k ↦ absurd (ground arith)
  | inr (n, k) ↦ (n, k, ground arith)
]

-- So it raises the counter, below its bound.
start_counts :
    (c : Command) (o : Operation) (e : WorkflowExecution)
    → is_start o ≡ true
    → accepts c o e ≡ true
    → attempts_of c.node_id (perform c o e) < u32_max
    → attempts_of c.node_id (perform c o e) ≡ attempts_of c.node_id e + 1
unfolding attempts_of started
start_counts c (starts owner) e h done small =
    let (n, found, wrote) = start_accepted c owner e done in
    let there = put_node-attempts_of c.node_id c.node_id n (started c.io owner n) e found in
    ground (arith, eq_refl c.node_id, saturating_suc_cases u32_max n.attempts)
start_counts c completes e h done small = absurd (ground arith)
start_counts c (fails error) e h done small = absurd (ground arith)
start_counts c (decides approved) e h done small = absurd (ground arith)

perform-Grows :
    (id : String) (c : Command) (e : WorkflowExecution) → Grows id e (perform c c.operation e)
unfolding run
perform-Grows id c e = run-Grows id e (c ∷ [])

-- Below its bound the counter of a node is not less than the number of its accepted starts.
pub starts_of-attempts_of :
    (id : String) (e : WorkflowExecution) (cs : List Command)
    → attempts_of id (run e cs) < u32_max
    → starts_of id e cs + attempts_of id e ≤ attempts_of id (run e cs)
unfolding starts_of run
starts_of-attempts_of id e [] small = omega arith
starts_of-attempts_of id e (c ∷ cs) small =
    let next : WorkflowExecution = perform c c.operation e in
    let later = starts_of-attempts_of id next cs small in
    let below : attempts_of id next < u32_max = omega arith in
    let grown = perform-Grows id c e below in
    elim (Bool-cases (is_start c.operation && str_eq c.node_id id && accepts c c.operation e)) [
      | inr other ↦ ground arith
      | inl counted ↦ ground (arith, eq_iff c.node_id id, start_counts c c.operation e)
    ]
