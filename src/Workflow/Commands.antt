-- ===== src/Workflow/Commands.antt =====
-- The four methods of a workflow execution as commands, one after another:
-- crates/sessionweft-orchestration/src/lib.rs, `start_node`, `complete_node`, `fail_node`,
-- `decide_approval`. Only the state that a command leaves matters here.
use sessionweft.Common.{ℕ, String, Bool, List, [], ◌∷◌, Io, Trace, is_ok}
use sessionweft.Workflow.{WorkflowExecution, start_node, complete_node, fail_node, decide_approval}

pub data Operation : Type 0 where
  starts : String → Operation
  completes : Operation
  fails : String → Operation
  decides : Bool → Operation

pub record Command : Type 0 where
  pub io : Io
  pub trace : Trace
  pub expected : ℕ
  pub node_id : String
  pub operation : Operation

unfoldable pub perform : Command → Operation → WorkflowExecution → WorkflowExecution
unfolding start_node complete_node fail_node decide_approval
perform c (starts owner) e = (start_node c.io c.expected c.node_id owner c.trace e).1
perform c completes e = (complete_node c.io c.expected c.node_id c.trace e).1
perform c (fails error) e = (fail_node c.io c.expected c.node_id error c.trace e).1
perform c (decides approved) e = (decide_approval c.io c.expected c.node_id approved c.trace e).1

unfoldable pub run : WorkflowExecution → List Command → WorkflowExecution
unfolding perform
run e [] = e
run e (c ∷ cs) = run (perform c c.operation e) cs

-- The command succeeds.
unfoldable pub accepts : Command → Operation → WorkflowExecution → Bool
unfolding start_node complete_node fail_node decide_approval
accepts c (starts owner) e = is_ok (start_node c.io c.expected c.node_id owner c.trace e).0
accepts c completes e = is_ok (complete_node c.io c.expected c.node_id c.trace e).0
accepts c (fails error) e = is_ok (fail_node c.io c.expected c.node_id error c.trace e).0
accepts c (decides approved) e =
    is_ok (decide_approval c.io c.expected c.node_id approved c.trace e).0
