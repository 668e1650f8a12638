-- ===== src/Workflow/Steps.antt =====
-- What a workflow execution may do to one node, as a step relation:
-- crates/sessionweft-orchestration/src/lib.rs, the writes through `node_state_mut`.
use sessionweft.Common.{
  String, ◌≡◌, Bool, true, false, some, all, In, ltb, lookup, Io, ◌⊎◌, str_eq, lookup-set_entry,
  eq_iff, arith,
}
use sessionweft.Definition.{WorkflowNodeDefinition}
use sessionweft.Workflow.{
  WorkflowExecution, WorkflowNodeExecution, pending, ready, running, failed, waiting_approval,
  find_definition, put_node, dependency_satisfied, activated, started, completed, failed_once,
  decided,
}

-- The reasons to write `n'` over the entry `n` of the node `id`.
pub data Write (e : WorkflowExecution)
    : String → WorkflowNodeExecution → WorkflowNodeExecution → Type 0 where
  activates :
      (d : WorkflowNodeDefinition) (n : WorkflowNodeExecution)
      → In d e.definition.nodes
      → n.status ≡ pending
      → all (dependency_satisfied e) d.dependencies ≡ true
      → Write e d.id n (record n { status = activated d.kind })
  starts :
      (io : Io) (id owner : String) (n : WorkflowNodeExecution)
      → n.status ≡ ready
      → Write e id n (started io owner n)
  completes :
      (io : Io) (id : String) (n : WorkflowNodeExecution)
      → n.status ≡ running
      → Write e id n (completed io n)
  fails :
      (io : Io) (id error : String) (d : WorkflowNodeDefinition) (n : WorkflowNodeExecution)
      → n.status ≡ running
      → find_definition id e.definition.nodes ≡ some d
      → Write e id n (failed_once io error (ltb n.attempts d.max_attempts) n)
  wakes :
      (id fallback : String) (d : WorkflowNodeDefinition) (m n : WorkflowNodeExecution)
      → find_definition id e.definition.nodes ≡ some d
      → d.fallback ≡ some fallback
      → lookup id e.nodes ≡ some m
      → m.status ≡ failed
      → n.status ≡ pending
      → Write e fallback n (record n { status = ready })
  decides :
      (io : Io) (id : String) (approved : Bool) (n : WorkflowNodeExecution)
      → n.status ≡ waiting_approval
      → Write e id n (decided io approved n)

-- The nodes and the definition of the one execution are those of the other.
pub record Same (e f : WorkflowExecution) : Type 0 where
  pub nodes : f.nodes ≡ e.nodes
  pub definition : f.definition ≡ e.definition

pub data Step (e : WorkflowExecution) : WorkflowExecution → Type 0 where
  writes :
      (id : String) (n n' : WorkflowNodeExecution)
      → lookup id e.nodes ≡ some n
      → Write e id n n'
      → Step e (put_node id n' e)
  marks : (f : WorkflowExecution) → Same e f → Step e f

infixr 20 ◌then◌
pub data Steps : WorkflowExecution → WorkflowExecution → Type 0 where
  stop : (e : WorkflowExecution) → Steps e e
  ◌then◌ : {e f g : WorkflowExecution} → Step e f → Steps f g → Steps e g

pub Steps-trans : {e f g : WorkflowExecution} → Steps e f → Steps f g → Steps e g
Steps-trans (stop e) rest = rest
Steps-trans (step then more) rest = step then Steps-trans more rest

-- What every step keeps, a sequence of steps keeps.
pub Steps-keeps :
    (P : WorkflowExecution → Type 0)
    → ((e f : WorkflowExecution) → Step e f → P e → P f)
    → {e f : WorkflowExecution} → Steps e f
    → P e
    → P f
Steps-keeps P one (stop e) h = h
Steps-keeps P one (◌then◌ {e = e} {f = f} step more) h = Steps-keeps P one more (one e f step h)

-- Where an entry stands after a write: it is the one written, or it was there.
pub lookup-put_node :
    (id j : String) (n n' m : WorkflowNodeExecution) (e : WorkflowExecution)
    → lookup id e.nodes ≡ some n
    → lookup j (put_node id n' e).nodes ≡ some m
    → ((id ≡ j) × (n' ≡ m)) ⊎ ((str_eq id j ≡ false) × (lookup j e.nodes ≡ some m))
unfolding put_node
lookup-put_node id j n n' m e found h =
    ground (arith, lookup-set_entry id j n' n e.nodes found, eq_iff id j)
