-- ===== src/Workflow/Outcomes.antt =====
-- How each method of a workflow execution ends, for its nodes, on every branch:
-- crates/sessionweft-orchestration/src/lib.rs.
use sessionweft.Common.{
  ℕ, String, ◌&&◌, ◌==◌, ◌≡◌, refl, sym, subst, ap, Bool, true, false, ◌⊎◌, inl, inr, some, List,
  [], ◌∷◌, all, In, ltb, lookup, set_entry_same, Io, Trace, arith, Result-cases, Option-cases,
  Bool-cases, EventEnvelope,
}
use sessionweft.Definition.{WorkflowNodeDefinition}
use sessionweft.Workflow.{
  WorkflowExecution, WorkflowNodeExecution, pending, ready, running, waiting_approval, is_approval,
  is_pending, is_ready, is_running, is_waiting, is_live, find_definition, put_node,
  dependency_satisfied, activated, started, completed, failed_once, decided, node_state,
  node_definition, activate_if, refresh_node, refresh_each, refresh_ready_nodes, ensure_running,
  advance_version, set_status, finish_if_complete, wake_fallback, activate_fallback, fail_if_stuck,
  give_up, after_failure, settle, start_node, complete_node, fail_node, decide_approval, node_event,
  failure_details, attempts_of,
}
use sessionweft.Workflow.Steps.{Write, Same, writes, Steps, stop, ◌then◌, Steps-trans}

put_same :
    (id : String) (n : WorkflowNodeExecution) (e : WorkflowExecution)
    → lookup id e.nodes ≡ some n
    → put_node id n e ≡ e
unfolding put_node
put_same id n e h = ap (λ m. record e { nodes = m }) (set_entry_same id n e.nodes h)

-- One node of the loop: nothing happens, or the node is activated.
pub refresh_node_outcome :
    (d : WorkflowNodeDefinition) (e : WorkflowExecution)
    → ((refresh_node d e).1 ≡ e)
      ⊎ ((n : WorkflowNodeExecution) × (lookup d.id e.nodes ≡ some n)
          × (n.status ≡ pending)
          × (all (dependency_satisfied e) d.dependencies ≡ true)
          × ((refresh_node d e).1 ≡ put_node d.id (record n { status = activated d.kind }) e))
unfolding refresh_node activate_if node_state
refresh_node_outcome d e = elim (Option-cases (lookup d.id e.nodes)) [
  | inl h ↦ inl (ground arith)
  | inr (n, h) ↦ elim (Bool-cases (all (dependency_satisfied e) d.dependencies)) [
    | inl k ↦ elim (Bool-cases (is_pending n.status)) [
      | inl p ↦ inr (n, h, ground arith, k, ground arith)
      | inr p ↦ inl (ground arith)
    ]
    | inr k ↦ inl (ground arith)
  ]
]

pub refresh_node-Steps :
    (d : WorkflowNodeDefinition) (e : WorkflowExecution)
    → In d e.definition.nodes
    → Steps e (refresh_node d e).1 × ((refresh_node d e).1.definition ≡ e.definition)
unfolding put_node
refresh_node-Steps d e m = elim (refresh_node_outcome d e) [
  | inl h ↦ rw h (stop e, refl)
  | inr (n, found, p, k, h) ↦ rw h (
    writes d.id n (record n { status = activated d.kind }) found (Write.activates d n m p k)
        then stop _,
    refl,
  )
]

pub refresh_each-Steps :
    (ds : List WorkflowNodeDefinition) (e : WorkflowExecution)
    → ((d : WorkflowNodeDefinition) → In d ds → In d e.definition.nodes)
    → Steps e (refresh_each ds e).1
unfolding refresh_each
refresh_each-Steps [] e known = stop e
refresh_each-Steps (d ∷ ds) e known =
    let (first, kept) = refresh_node-Steps d e (known d (inl refl)) in
    elim (Result-cases (refresh_node d e).0) [
      | inr (x, h) ↦ rw (h, refresh_each) first
      | inl (u, h) ↦
          rw (h, refresh_each)
            (Steps-trans first (
              refresh_each-Steps ds (refresh_node d e).1
                (λ a m. subst (λ w. In a w.nodes) (sym kept) (known a (inr m)))))
    ]

pub refresh-Steps : (e : WorkflowExecution) → Steps e (refresh_ready_nodes e).1
unfolding refresh_ready_nodes
refresh-Steps e = refresh_each-Steps e.definition.nodes e (λ d m. m)

-- How a command ends, for the nodes: as it began, or by one write, with or without what follows it.
pub start_outcome :
    (io : Io) (expected : ℕ) (id owner : String) (trace : Trace) (e : WorkflowExecution)
    → ((start_node io expected id owner trace e).1 ≡ e)
      ⊎ ((n : WorkflowNodeExecution) × (lookup id e.nodes ≡ some n)
          × (n.status ≡ ready)
          × Same (put_node id (started io owner n) e) (start_node io expected id owner trace e).1)
unfolding start_node ensure_running node_state advance_version put_node
start_outcome io expected id owner trace e = elim (Option-cases (lookup id e.nodes)) [
  | inl h ↦ inl (ground arith)
  | inr (n, h) ↦
      elim (Bool-cases (is_ready n.status && e.version == expected && is_live e.status)) [
        | inl r ↦
            inr (n, h, ground arith, record { nodes = ground arith; definition = ground arith })
        | inr r ↦ inl (ground arith)
      ]
]

pub complete_outcome :
    (io : Io) (expected : ℕ) (id : String) (trace : Trace) (e : WorkflowExecution)
    → ((complete_node io expected id trace e).1 ≡ e)
      ⊎ ((n : WorkflowNodeExecution) × (lookup id e.nodes ≡ some n)
          × (n.status ≡ running)
          × Same
              (refresh_ready_nodes
                (advance_version (io.clock 1) (put_node id (completed io n) e))).1
              (complete_node io expected id trace e).1)
unfolding complete_node ensure_running node_state finish_if_complete set_status
complete_outcome io expected id trace e = elim (Option-cases (lookup id e.nodes)) [
  | inl h ↦ inl (ground arith)
  | inr (n, h) ↦
      elim (Bool-cases (is_running n.status && e.version == expected && is_live e.status)) [
        | inl r ↦
            inr (n, h, ground arith, record { nodes = ground arith; definition = ground arith })
        | inr r ↦ inl (ground arith)
      ]
]

pub decide_outcome :
    (io : Io) (expected : ℕ) (id : String) (approved : Bool) (trace : Trace) (e : WorkflowExecution)
    → ((decide_approval io expected id approved trace e).1 ≡ e)
      ⊎ ((n : WorkflowNodeExecution) × (lookup id e.nodes ≡ some n)
          × (n.status ≡ waiting_approval)
          × Same
              (refresh_ready_nodes
                (advance_version (io.clock 1) (put_node id (decided io approved n) e))).1
              (decide_approval io expected id approved trace e).1)
unfolding decide_approval ensure_running node_state node_definition finish_if_complete set_status
    settle
decide_outcome io expected id approved trace e = elim (Option-cases (lookup id e.nodes)) [
  | inl h ↦ inl (ground arith)
  | inr (n, h) ↦ elim (Option-cases (find_definition id e.definition.nodes)) [
    | inl k ↦ inl (ground arith)
    | inr (d, k) ↦
        elim (Bool-cases (
          is_approval d.kind && is_waiting n.status && e.version == expected && is_live e.status)) [
            | inl r ↦
                inr (n, h, ground arith, record { nodes = ground arith; definition = ground arith })
            | inr r ↦ inl (ground arith)
          ]
  ]
]

pub give_up_outcome :
    (io : Io) (d : WorkflowNodeDefinition) (id : String) (trace : Trace)
    (events : List EventEnvelope) (e : WorkflowExecution)
    → ((give_up io d id trace events e).1 ≡ e)
      ⊎ (Same (refresh_ready_nodes e).1 (give_up io d id trace events e).1
          ⊎ ((f : String) × (n : WorkflowNodeExecution) × (d.fallback ≡ some f)
              × (lookup f e.nodes ≡ some n)
              × (n.status ≡ pending)
              × Same
                  (refresh_ready_nodes (put_node f (record n { status = ready }) e)).1
                  (give_up io d id trace events e).1))
unfolding give_up activate_fallback node_state wake_fallback fail_if_stuck set_status
give_up_outcome io d id trace events e = elim (Option-cases d.fallback) [
  | inl h ↦ inr (inl (record { nodes = ground arith; definition = ground arith }))
  | inr (f, h) ↦ elim (Option-cases (lookup f e.nodes)) [
    | inl k ↦ inl (ground arith)
    | inr (n, k) ↦ elim (Bool-cases (is_pending n.status)) [
      | inl p ↦ inr (
          inr
            (f, n, h, k, ground arith, record { nodes = ground arith; definition = ground arith }))
      | inr p ↦ inr (
          inl (record {
            nodes = ground (arith, put_same f n e k);
            definition = ground (arith, put_same f n e k);
          }))
    ]
  ]
]

pub fail_outcome :
    (io : Io) (expected : ℕ) (id error : String) (trace : Trace) (e : WorkflowExecution)
    → ((fail_node io expected id error trace e).1 ≡ e)
      ⊎ ((n : WorkflowNodeExecution) × (d : WorkflowNodeDefinition) × (lookup id e.nodes ≡ some n)
          × (find_definition id e.definition.nodes ≡ some d)
          × (n.status ≡ running)
          × (((ltb n.attempts d.max_attempts ≡ true)
                × ((fail_node io expected id error trace e).1
                    ≡ advance_version (io.clock 1) (put_node id (failed_once io error true n) e)))
              ⊎ ((ltb n.attempts d.max_attempts ≡ false)
                  × (events : List EventEnvelope) × ((fail_node io expected id error trace e).1
                      ≡ (give_up io d id trace events (
                          advance_version
                            (io.clock 1)
                            (put_node id (failed_once io error false n) e))).1))))
unfolding fail_node ensure_running node_state node_definition after_failure
fail_outcome io expected id error trace e = elim (Option-cases (lookup id e.nodes)) [
  | inl h ↦ inl (ground arith)
  | inr (n, h) ↦ elim (Option-cases (find_definition id e.definition.nodes)) [
    | inl k ↦ inl (ground arith)
    | inr (d, k) ↦
        elim (Bool-cases (is_running n.status && e.version == expected && is_live e.status)) [
          | inr r ↦ inl (ground arith)
          | inl r ↦ elim (Bool-cases (ltb n.attempts d.max_attempts)) [
            | inl t ↦ inr (n, d, h, k, ground arith, inl (t, ground arith))
            | inr t ↦ inr (
              n,
              d,
              h,
              k,
              ground arith,
              inr (
                t,
                node_event io 0 2 "workflow.node_failed" id trace
                      (failure_details
                        (attempts_of id (
                          advance_version (io.clock 1)
                            (put_node id (failed_once io error false n) e)))
                        d error)
                      (advance_version (io.clock 1) (put_node id (failed_once io error false n) e))
                    ∷ [],
                ground arith,
              ),
            )
          ]
        ]
  ]
]
