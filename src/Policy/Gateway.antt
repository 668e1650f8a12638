-- ===== src/Policy/Gateway.antt =====
-- What a gateway calls, and when: crates/sessionweft-execution/src/lib.rs, `ToolGateway::invoke`,
-- `McpGateway::invoke` and `ToolRegistry::register`.
use sessionweft.Common.{
  ℕ, ◌≡◌, refl, ◌⊎◌, inl, inr, true, false, Option, none, some, List, ◌∷◌, ◌++◌, All, In, arith,
  Map, lookup, lookup-insert, eq_refl, Result, ok, is_ok, Option-cases, Result-cases, Bool-cases,
}
use sessionweft.Agent.{AgentRecord}
use sessionweft.Policy.{
  Permission, ToolDescriptor, PolicyConfig, PolicyEffect, allow, deny, require_approval,
  PolicyDecision, contains, evaluate, ApprovalGrant, ToolInvocation, ToolResult, ToolError,
  ToolHandler, authorizes, is_authorized, in_scope, admit, register, invoke, McpTransport, discover,
  find_tool, invoke_mcp, validate_descriptor,
}
use sessionweft.Policy.Decision.{Passes, Passed, evaluate-require_approval}

-- The decision lets the call through: it allows it, or asks for an approval that was given for the
-- same session, agent and tool and that has not expired.
pub data Admits (d : PolicyDecision) (approval : Option ApprovalGrant) (i : ToolInvocation)
    (now : ℕ) : Type 0 where
  allowed : d.effect ≡ allow → Admits d approval i now
  approved :
      (g : ApprovalGrant)
      → d.effect ≡ require_approval
      → approval ≡ some g
      → authorizes g i now ≡ true
      → Admits d approval i now

is_authorized-grant :
    (approval : Option ApprovalGrant) (i : ToolInvocation) (now : ℕ)
    → is_authorized approval i now ≡ true
    → (g : ApprovalGrant) × (approval ≡ some g) × (authorizes g i now ≡ true)
unfolding is_authorized
is_authorized-grant none i now h = cc
is_authorized-grant (some g) i now h = (g, refl, h)

admit-Admits :
    (d : PolicyDecision) (approval : Option ApprovalGrant) (i : ToolInvocation) (now : ℕ)
    (call : Result ToolError ToolResult) {r : ToolResult}
    → admit d (is_authorized approval i now) call ≡ ok r
    → Admits d approval i now × (call ≡ ok r)
unfolding admit
admit-Admits d approval i now call h = elim (Bool-cases (is_authorized approval i now)) [
  | inl e ↦
      let (g, same, good) = is_authorized-grant approval i now e in
      elim (effect_cases d.effect) [
        | inl a ↦ (allowed a, ground arith)
        | inr (inl b) ↦ ground arith
        | inr (inr c) ↦ (approved g c same good, ground arith)
      ]
  | inr e ↦ (allowed (ground arith), ground arith)
]
  where
    effect_cases : (e : PolicyEffect) → (e ≡ allow) ⊎ ((e ≡ deny) ⊎ (e ≡ require_approval))
    effect_cases allow = inl refl
    effect_cases deny = inr (inl refl)
    effect_cases require_approval = inr (inr refl)

-- A result of the gateway comes from the handler that is registered under the invocation's name, for
-- an agent that calls in its own session and under its own identifier, and only after the policy
-- has admitted the call.
pub invoke-Admits :
    (c : PolicyConfig) (tools : Map ToolHandler) (a : AgentRecord) (i : ToolInvocation)
    (approval : Option ApprovalGrant) (now : ℕ) (r : ToolResult)
    → invoke c tools a i approval now ≡ ok r
    → (h : ToolHandler) × (lookup i.tool_name tools ≡ some h)
      × (i.session_id ≡ a.session_id)
      × (i.agent_id ≡ a.id)
      × Admits (evaluate c a h.descriptor) approval i now
      × (h.invoke i ≡ ok r)
unfolding invoke
invoke-Admits c tools a i approval now r done = elim (Option-cases (lookup i.tool_name tools)) [
  | inl e ↦ ground arith
  | inr (h, e) ↦
      let (admitted, called) =
        admit-Admits (evaluate c a h.descriptor) approval i now (h.invoke i) {r = r}
          (ground arith) in
      (h, e, ground arith, ground arith, admitted, called)
]

-- The same of the MCP gateway: the descriptor that decides is the transport's own, found by name
-- after each listed descriptor was validated.
pub invoke_mcp-Admits :
    (c : PolicyConfig) (t : McpTransport) (a : AgentRecord) (i : ToolInvocation)
    (approval : Option ApprovalGrant) (now : ℕ) (r : ToolResult)
    → invoke_mcp c t a i approval now ≡ ok r
    → (tools : List ToolDescriptor) × (d : ToolDescriptor) × (discover t ≡ ok tools)
      × (find_tool i.tool_name tools ≡ some d)
      × (i.session_id ≡ a.session_id)
      × (i.agent_id ≡ a.id)
      × Admits (evaluate c a d) approval i now
      × (t.call_tool i ≡ ok r)
unfolding invoke_mcp
invoke_mcp-Admits c t a i approval now r done = elim (Result-cases (discover t)) [
  | inr (x, e) ↦ ground arith
  | inl (tools, e) ↦ elim (Option-cases (find_tool i.tool_name tools)) [
    | inl f ↦ ground arith
    | inr (d, f) ↦
        let (admitted, called) =
          admit-Admits (evaluate c a d) approval i now (t.call_tool i) {r = r} (ground arith) in
        (tools, d, e, f, ground arith, ground arith, admitted, called)
  ]
]

-- An approval for a permission lets a later permission through that the configuration denies: with a
-- valid grant the handler is called, whatever the permissions behind the first that requires
-- approval.
pub invoke_despite_denial :
    (c : PolicyConfig) (tools : Map ToolHandler) (a : AgentRecord) (i : ToolInvocation)
    (g : ApprovalGrant) (now : ℕ) (h : ToolHandler) (ps : List Permission) (p : Permission)
    (q : Permission) (rest : List Permission)
    → in_scope a i ≡ true
    → lookup i.tool_name tools ≡ some h
    → authorizes g i now ≡ true
    → h.descriptor.permissions ≡ ps ++ p ∷ rest
    → All (Passes c a) ps
    → Passed c a p
    → contains c.approval_required p ≡ true
    → In q rest
    → contains c.denied q ≡ true
    → invoke c tools a i (some g) now ≡ h.invoke i
unfolding invoke is_authorized
invoke_despite_denial c tools a i g now h ps p q rest scope found good perms hs ok_p asks m bad =
    ground (arith, evaluate-require_approval c a h.descriptor ps p rest perms hs ok_p asks)

-- A second registration under a name is an error, and yet its handler takes the place of the first.
pub register_duplicate :
    (h old : ToolHandler) (tools : Map ToolHandler)
    → is_ok (validate_descriptor h.descriptor) ≡ true
    → lookup h.descriptor.name tools ≡ some old
    → (is_ok (register h tools).0 ≡ false)
      × (lookup h.descriptor.name (register h tools).1 ≡ some h)
unfolding register
register_duplicate h old tools valid found =
    elim (Result-cases (validate_descriptor h.descriptor)) [
      | inl (u, e) ↦ ground (
        arith,
        lookup-insert h.descriptor.name h.descriptor.name h tools,
        eq_refl h.descriptor.name,
      )
      | inr (m, e) ↦ ground arith
    ]
