-- ===== src/Policy.antt =====
-- crates/sessionweft-execution/src/lib.rs: permissions, tools, the policy engine, approval grants, the
-- tool registry and the two gateways. A set of permissions is the list of its elements in ascending
-- order. Handlers and the MCP transport are implemented by their users: they are parameters. The
-- reasons of a decision, which the source formats to text, are data.
pub mod Decision
pub mod Gateway
use sessionweft.Common.{
  ℕ, String, Bool, true, false, not, ◌&&◌, ◌||◌, Option, none, some, List, [], ◌∷◌, any, ltb, ◌==◌,
  str_eq, if◌then◌else◌, is_blank, Map, lookup, insert, Result, ok, err, Value, null, obj,
}
use sessionweft.Agent.{AgentRecord, Capability}

pub data Permission : Type 0 where
  workspace_read workspace_write git_read git_write terminal network secret_read : Permission
  tool : String → Permission

pub data RiskLevel : Type 0 where
  low medium high critical : RiskLevel

pub record ToolDescriptor : Type 0 where
  pub name : String
  pub version : String
  pub permissions : List Permission
  pub risk : RiskLevel
  pub input_schema : Value

unfoldable pub same_permission : Permission → Permission → Bool
same_permission Permission.workspace_read Permission.workspace_read = true
same_permission Permission.workspace_write Permission.workspace_write = true
same_permission Permission.git_read Permission.git_read = true
same_permission Permission.git_write Permission.git_write = true
same_permission Permission.terminal Permission.terminal = true
same_permission Permission.network Permission.network = true
same_permission Permission.secret_read Permission.secret_read = true
same_permission (Permission.tool a) (Permission.tool b) = str_eq a b
same_permission _ _ = false

unfoldable pub same_capability : Capability → Capability → Bool
same_capability Capability.provider Capability.provider = true
same_capability Capability.workspace_read Capability.workspace_read = true
same_capability Capability.workspace_write Capability.workspace_write = true
same_capability Capability.git_read Capability.git_read = true
same_capability Capability.git_write Capability.git_write = true
same_capability Capability.terminal Capability.terminal = true
same_capability Capability.network Capability.network = true
same_capability Capability.secret_read Capability.secret_read = true
same_capability (Capability.tool a) (Capability.tool b) = str_eq a b
same_capability _ _ = false

-- `set.contains(permission)`.
unfoldable pub contains : List Permission → Permission → Bool
contains set p = any (same_permission p) set

capability_for : Permission → Capability
capability_for Permission.workspace_read = Capability.workspace_read
capability_for Permission.workspace_write = Capability.workspace_write
capability_for Permission.git_read = Capability.git_read
capability_for Permission.git_write = Capability.git_write
capability_for Permission.terminal = Capability.terminal
capability_for Permission.network = Capability.network
capability_for Permission.secret_read = Capability.secret_read
capability_for (Permission.tool name) = Capability.tool name

-- `AgentRecord::allows`.
unfoldable pub allows : AgentRecord → Permission → Bool
unfolding same_capability capability_for
allows a p = any (same_capability (capability_for p)) a.manifest.capabilities

is_object : Value → Bool
is_object (obj fields) = true
is_object _ = false

-- `ToolDescriptor::validate`, with the message of its error.
unfoldable pub validate_descriptor : ToolDescriptor → Result String Unit
unfolding is_object contains
validate_descriptor d =
    if is_blank d.name || is_blank d.version
    then err "tool name and version are required"
    else if not (is_object d.input_schema)
    then err "tool input schema must be a JSON object"
    else if not (contains d.permissions (Permission.tool d.name))
    then err "tool descriptor must include its self-named Tool permission"
    else ok tt

pub record PolicyConfig : Type 0 where
  pub allowed : List Permission
  pub approval_required : List Permission
  pub denied : List Permission

-- `PolicyConfig::default`.
abbrev pub deny_all : PolicyConfig
deny_all = record { allowed = []; approval_required = []; denied = [] }

pub data PolicyEffect : Type 0 where
  allow deny require_approval : PolicyEffect

pub data Reason : Type 0 where
  lacks explicitly_denied requires_approval not_allowlisted : Permission → Reason
  high_risk all_allowed : Reason

pub record PolicyDecision : Type 0 where
  pub effect : PolicyEffect
  pub reason : Reason

abbrev pub decision : PolicyEffect → Reason → PolicyDecision
decision e r = record { effect = e; reason = r }

abbrev pub is_high_risk : RiskLevel → Bool
is_high_risk high = true
is_high_risk critical = true
is_high_risk _ = false

judge_risk : RiskLevel → PolicyDecision
judge_risk risk =
    if is_high_risk risk then decision require_approval high_risk else decision allow all_allowed

-- The loop over the permissions returns at the first that does not pass.
judge : PolicyConfig → AgentRecord → RiskLevel → List Permission → PolicyDecision
unfolding allows contains judge_risk
judge c a risk [] = judge_risk risk
judge c a risk (p ∷ ps) =
    let rest = judge c a risk ps in
    if not (allows a p)
    then decision deny (lacks p)
    else if contains c.denied p
    then decision deny (explicitly_denied p)
    else if contains c.approval_required p
    then decision require_approval (requires_approval p)
    else if not (contains c.allowed p)
    then decision deny (not_allowlisted p)
    else rest

-- `PolicyEngine::evaluate`.
unfoldable pub evaluate : PolicyConfig → AgentRecord → ToolDescriptor → PolicyDecision
unfolding judge
evaluate c a d = judge c a d.risk d.permissions

pub record ApprovalGrant : Type 0 where
  pub id : ℕ
  pub session_id : ℕ
  pub agent_id : ℕ
  pub tool_name : String
  pub expires_at : ℕ

pub record ToolInvocation : Type 0 where
  pub session_id : ℕ
  pub task_id : Option String
  pub agent_id : ℕ
  pub tool_name : String
  pub arguments : Value
  pub correlation_id : ℕ

pub record ToolResult : Type 0 where
  pub content : Value
  pub metadata : Map String

-- What a handler or a transport fails with is its own.
pub data ToolError : Type 0 where
  scope_mismatch : ToolError
  not_found : String → ToolError
  denied approval_required : Reason → ToolError
  invalid_descriptor failed : String → ToolError

-- `ApprovalGrant::authorizes`, for the invocation's session, agent and tool.
unfoldable pub authorizes : ApprovalGrant → ToolInvocation → ℕ → Bool
authorizes g i now =
    g.session_id == i.session_id
    && g.agent_id == i.agent_id
    && str_eq g.tool_name i.tool_name
    && ltb now g.expires_at

is_authorized : Option ApprovalGrant → ToolInvocation → ℕ → Bool
unfolding authorizes
is_authorized none i now = false
is_authorized (some g) i now = authorizes g i now

pub record ToolHandler : Type 0 where
  pub descriptor : ToolDescriptor
  pub invoke : ToolInvocation → Result ToolError ToolResult

-- `ToolRegistry::register`: the map is written before the result tells whether it held the name.
pub register : ToolHandler → Map ToolHandler → Result String Unit × Map ToolHandler
unfolding validate_descriptor
register h tools = elim (validate_descriptor h.descriptor) [
  | err m ↦ (err m, tools)
  | ok _ ↦ (
    elim (lookup h.descriptor.name tools) [
      | none ↦ ok tt
      | some old ↦ err "tool is already registered"
    ],
    insert h.descriptor.name h tools,
  )
]

-- The `match` on the decision, before the call that it guards.
admit : {A : Type 0} → PolicyDecision → Bool → Result ToolError A → Result ToolError A
admit d authorized call = elim d.effect [
  | allow ↦ call
  | deny ↦ err (denied d.reason)
  | require_approval ↦ if authorized then call else err (approval_required d.reason)
]

unfoldable pub in_scope : AgentRecord → ToolInvocation → Bool
in_scope a i = i.session_id == a.session_id && i.agent_id == a.id

-- `ToolGateway::invoke` at the instant `now`.
unfoldable pub invoke :
    PolicyConfig
    → Map ToolHandler
    → AgentRecord
    → ToolInvocation
    → Option ApprovalGrant
    → ℕ
    → Result ToolError ToolResult
unfolding in_scope evaluate is_authorized admit
invoke c tools a i approval now =
    if not (in_scope a i) then err scope_mismatch else elim (lookup i.tool_name tools) [
      | none ↦ err (not_found i.tool_name)
      | some h ↦ admit (evaluate c a h.descriptor) (is_authorized approval i now) (h.invoke i)
    ]

pub record McpTransport : Type 0 where
  pub list_tools : Result ToolError (List ToolDescriptor)
  pub call_tool : ToolInvocation → Result ToolError ToolResult

check_all : List ToolDescriptor → List ToolDescriptor → Result ToolError (List ToolDescriptor)
unfolding validate_descriptor
check_all found [] = ok found
check_all found (d ∷ ds) =
    let rest = check_all found ds in
    elim (validate_descriptor d) [ ok _ ↦ rest | err m ↦ err (invalid_descriptor m) ]

-- `McpGateway::discover`.
unfoldable pub discover : McpTransport → Result ToolError (List ToolDescriptor)
unfolding check_all
discover t = elim t.list_tools [ ok tools ↦ check_all tools tools | err e ↦ err e ]

unfoldable pub find_tool : String → List ToolDescriptor → Option ToolDescriptor
find_tool name [] = none
find_tool name (d ∷ ds) = if str_eq d.name name then some d else find_tool name ds

-- `McpGateway::invoke` at the instant `now`.
unfoldable pub invoke_mcp :
    PolicyConfig
    → McpTransport
    → AgentRecord
    → ToolInvocation
    → Option ApprovalGrant
    → ℕ
    → Result ToolError ToolResult
unfolding in_scope discover find_tool evaluate is_authorized admit
invoke_mcp c t a i approval now =
    if not (in_scope a i) then err scope_mismatch else elim (discover t) [
      | err e ↦ err e
      | ok tools ↦ elim (find_tool i.tool_name tools) [
        | none ↦ err (not_found i.tool_name)
        | some d ↦ admit (evaluate c a d) (is_authorized approval i now) (t.call_tool i)
      ]
    ]
