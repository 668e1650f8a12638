-- ===== src/Examples/Policies.antt =====
-- The policy engine and the gateways: crates/sessionweft-execution/src/lib.rs.
use sessionweft.Common.{
  ℕ, ◌≡◌, refl, ◌↔◌, inl, List, [], ◌∷◌, All, none, some, ok, is_ok, false, Map, lookup, obj, end,
  null, any, is_blank,
}
use sessionweft.Agent.{AgentRecord, worker, running, Capability}
use sessionweft.Policy.{
  Permission, same_permission, low, ToolDescriptor, PolicyConfig, allow, evaluate, ApprovalGrant,
  ToolInvocation, ToolResult, ToolHandler, McpTransport, allows, contains, authorizes, in_scope,
  validate_descriptor, register, invoke, invoke_mcp, is_high_risk, discover, find_tool,
}
use sessionweft.Policy.Decision.{Passes, evaluate-allow_iff}
use sessionweft.Policy.Gateway.{Admits, invoke-Admits, invoke_despite_denial, register_duplicate}

abbrev agent : AgentRecord
agent = record {
  schema_version = 1;
  id = 7;
  session_id = 3;
  version = 0;
  manifest = record {
    name = "worker-1";
    role = worker;
    capabilities = Capability.git_write ∷ Capability.network ∷ Capability.tool "push" ∷ [];
    heartbeat_timeout_seconds = 30;
  };
  status = running;
  heartbeat_at = 100;
  current_task_id = none;
  last_error = none;
  created_at = 100;
  updated_at = 100;
}

abbrev push_tool : List Permission
push_tool = Permission.git_write ∷ Permission.network ∷ Permission.tool "push" ∷ []

abbrev descriptor : ToolDescriptor
descriptor = record {
  name = "push";
  version = "1";
  permissions = push_tool;
  risk = low;
  input_schema = obj end;
}

abbrev output : ToolResult
output = record { content = null; metadata = [] }

abbrev handler : ToolHandler
handler = record { descriptor = descriptor; invoke = λ i. ok output }

abbrev tools : Map ToolHandler
tools = ("push", handler) ∷ []

abbrev open_policy : PolicyConfig
open_policy = record { allowed = push_tool; approval_required = []; denied = [] }

-- Writes to Git ask for approval, and the network is denied.
abbrev strict_policy : PolicyConfig
strict_policy = record {
  allowed = push_tool;
  approval_required = Permission.git_write ∷ [];
  denied = Permission.network ∷ [];
}

abbrev invocation : ToolInvocation
invocation = record {
  session_id = 3;
  task_id = none;
  agent_id = 7;
  tool_name = "push";
  arguments = null;
  correlation_id = 1;
}

abbrev grant : ApprovalGrant
grant = record { id = 1; session_id = 3; agent_id = 7; tool_name = "push"; expires_at = 500 }

evaluate-allow_iff_example :
    ((evaluate open_policy agent descriptor).effect ≡ allow)
    ↔ (All (Passes open_policy agent) push_tool × (is_high_risk low ≡ false))
evaluate-allow_iff_example = evaluate-allow_iff open_policy agent descriptor

open_invoke : invoke open_policy tools agent invocation none 100 ≡ ok output
unfolding invoke lookup any allows contains evaluate same_permission in_scope
open_invoke = refl

invoke-Admits_example :
    (h : ToolHandler) × (lookup "push" tools ≡ some h)
    × (◌≡◌ {A = ℕ} 3 3)
    × (◌≡◌ {A = ℕ} 7 7)
    × Admits (evaluate open_policy agent h.descriptor) none invocation 100
    × (h.invoke invocation ≡ ok output)
invoke-Admits_example = invoke-Admits open_policy tools agent invocation none 100 output open_invoke

abbrev transport : McpTransport
transport = record { list_tools = ok (descriptor ∷ []); call_tool = λ i. ok output }

mcp_invoke : invoke_mcp open_policy transport agent invocation none 100 ≡ ok output
unfolding invoke_mcp any allows contains validate_descriptor is_blank discover find_tool evaluate
    same_permission in_scope
mcp_invoke = refl

invoke_despite_denial_example :
    invoke strict_policy tools agent invocation (some grant) 100 ≡ ok output
unfolding lookup allows contains any authorizes in_scope same_permission
invoke_despite_denial_example =
    invoke_despite_denial strict_policy tools agent invocation grant 100 handler []
      Permission.git_write Permission.network (Permission.network ∷ Permission.tool "push" ∷ [])
      refl refl refl refl tt (record { held = refl; not_denied = refl }) refl (inl refl) refl

abbrev impostor : ToolHandler
impostor = record handler { invoke = λ i. ok (record { content = obj end; metadata = [] }) }

register_duplicate_example :
    (is_ok (register impostor tools).0 ≡ false)
    × (lookup "push" (register impostor tools).1 ≡ some impostor)
unfolding lookup validate_descriptor is_blank contains any same_permission
register_duplicate_example = register_duplicate impostor handler tools refl refl
