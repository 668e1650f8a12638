-- ===== src/Scheduler/Store/Claims.antt =====
-- Claims, agents and nodes agree: crates/sessionweft-scheduler-sqlite/src/lib.rs and recovery.rs. A
-- history is the list of the transactions in the order in which they are made. Handover, the claims
-- under lock requirements (prerequisites.rs) and task_execution.rs, which write the same tables, are
-- not in it.
use sessionweft.Common.{
  ℕ, String, ◌≡◌, sym, subst, inl, inr, none, some, List, [], ◌∷◌, arith, Option-cases, Io, Trace,
  find_by,
}
use sessionweft.Scheduler.{SchedulerPlan, TaskClaim}
use sessionweft.Scheduler.Store.{
  Store, ClaimRequest, plan_key, workflow_key, claim_key, claim_next, Finish, finish_claim,
  register_plan, transaction, load_workflow, put_plan,
}
use sessionweft.Scheduler.Store.Outcome.{claim_outcome, finish_outcome}
use sessionweft.Scheduler.Store.Consistent.{IsConsistent, same_tables}
use sessionweft.Scheduler.Store.Claimed.{claimed-IsConsistent}
use sessionweft.Scheduler.Store.Recovery.{recover_stale_claim, recover_outcome, reason}
use sessionweft.Scheduler.Store.Finished.{finished-IsConsistent}

register_plan-tables :
    (p : SchedulerPlan) (s : Store)
    → ((register_plan p s).1.workflows ≡ s.workflows)
      × ((register_plan p s).1.agents ≡ s.agents)
      × ((register_plan p s).1.claims ≡ s.claims)
unfolding register_plan transaction load_workflow put_plan
register_plan-tables p s = elim (Option-cases (find_by workflow_key p.workflow_id s.workflows)) [
  | inl k ↦ ground arith
  | inr (w, k) ↦ elim (Option-cases (find_by plan_key p.workflow_id s.plans)) [
    | inl l ↦ ground arith
    | inr (q, l) ↦ ground arith
  ]
]

pub data Request : Type 0 where
  registers : SchedulerPlan → Request
  claims : ClaimRequest → Request
  completes : ℕ → Request
  fails : ℕ → String → Request
  recovers : ℕ → ℕ → Request

pub record Call : Type 0 where
  pub io : Io
  pub trace : Trace
  pub request : Request

module _ (show_id : ℕ → String) where
  serve_request : Io → Trace → Request → Store → Store
  serve_request io trace (registers p) s = (register_plan p s).1
  serve_request io trace (claims r) s = (claim_next show_id io trace r s).1
  serve_request io trace (completes id) s = (finish_claim io trace none id s).1
  serve_request io trace (fails id error) s = (finish_claim io trace (some error) id s).1
  serve_request io trace (recovers id now) s = (recover_stale_claim io trace id now s).1

  unfoldable pub run : Store → List Call → Store
  unfolding serve_request
  run s [] = s
  run s (c ∷ cs) = run (serve_request c.io c.trace c.request s) cs

  keep_same : (s s' : Store) → s' ≡ s → IsConsistent s → IsConsistent s'
  keep_same s s' e v = subst IsConsistent (sym e) v

  finish-IsConsistent :
      (io : Io) (trace : Trace) (how : Finish) (id : ℕ) (s : Store)
      → IsConsistent s
      → IsConsistent (finish_claim io trace how id s).1
  finish-IsConsistent io trace how id s v = elim (finish_outcome io trace how id s) [
    | inl h ↦ keep_same s _ h v
    | inr (c, c', m) ↦ finished-IsConsistent s _ how c c' v m
  ]

  serve_request-IsConsistent :
      (io : Io) (trace : Trace) (q : Request) (s : Store)
      → IsConsistent s
      → IsConsistent (serve_request io trace q s)
  unfolding serve_request
  serve_request-IsConsistent io trace (registers p) s v =
      let (workflows, agents, rows) = register_plan-tables p s in
      same_tables s (register_plan p s).1 workflows agents rows v
  serve_request-IsConsistent io trace (claims r) s v = elim (claim_outcome show_id io trace r s) [
    | inl h ↦ keep_same s _ h v
    | inr (c, m) ↦ claimed-IsConsistent s _ c v m
  ]
  serve_request-IsConsistent io trace (completes id) s v = finish-IsConsistent io trace none id s v
  serve_request-IsConsistent io trace (fails id error) s v =
      finish-IsConsistent io trace (some error) id s v
  serve_request-IsConsistent io trace (recovers id now) s v =
      elim (recover_outcome io trace id now s) [
        | inl h ↦ keep_same s _ h v
        | inr (c, c', m) ↦ finished-IsConsistent s _ (some reason) c c' v m
      ]

  run-IsConsistent : (s : Store) (cs : List Call) → IsConsistent s → IsConsistent (run s cs)
  unfolding run
  run-IsConsistent s [] v = v
  run-IsConsistent s (c ∷ cs) v =
      run-IsConsistent (serve_request c.io c.trace c.request s) cs
        (serve_request-IsConsistent c.io c.trace c.request s v)

  nothing :
      (xs : List TaskClaim) (i : ℕ) (c : TaskClaim) → xs ≡ [] → ¬ (find_by claim_key i xs ≡ some c)
  unfolding find_by
  nothing xs i c e at =
      let h : none ≡ some c = subst (λ ys. find_by claim_key i ys ≡ some c) e at in ground arith

  -- From a store without claims, after any history of the transactions `register_plan`, `claim_next`,
  -- `complete_claim`, `fail_claim` and `recover_stale_claim`: the agent of every active claim owns its
  -- task, its node runs, at its attempt, and no two active claims share an agent or a node.
  pub run_scheduler-IsConsistent :
      (s : Store) (cs : List Call) → s.claims ≡ [] → IsConsistent (run s cs)
  run_scheduler-IsConsistent s cs e = run-IsConsistent s cs (record {
    held = λ i c at live. absurd (nothing s.claims i c e at);
    one_agent = λ i j c d at. absurd (nothing s.claims i c e at);
    one_node = λ i j c d at. absurd (nothing s.claims i c e at);
  })
