-- ===== src/Policy/Decision.antt =====
-- When the policy engine allows a tool, and what it overlooks:
-- crates/sessionweft-execution/src/lib.rs, `PolicyEngine::evaluate`.
use sessionweft.Common.{◌≡◌, ◌↔◌, ◌⊎◌, true, false, List, [], ◌∷◌, ◌++◌, All, arith}
use sessionweft.Agent.{AgentRecord}
use sessionweft.Policy.{
  Permission, RiskLevel, ToolDescriptor, PolicyConfig, allow, deny, require_approval, allows,
  contains, is_high_risk, judge, evaluate,
}

-- A permission that needs no further question.
pub record Passes (c : PolicyConfig) (a : AgentRecord) (p : Permission) : Type 0 where
  pub held : allows a p ≡ true
  pub not_denied : contains c.denied p ≡ false
  pub unattended : contains c.approval_required p ≡ false
  pub listed : contains c.allowed p ≡ true

judge-allow :
    (c : PolicyConfig) (a : AgentRecord) (risk : RiskLevel) (ps : List Permission)
    → (judge c a risk ps).effect ≡ allow
    → All (Passes c a) ps × (is_high_risk risk ≡ false)
unfolding judge
judge-allow c a risk [] h = (tt, ground arith)
judge-allow c a risk (p ∷ ps) h =
    let (rest, quiet) = judge-allow c a risk ps (ground arith) in
    (
      (
        record {
          held = ground arith;
          not_denied = ground arith;
          unattended = ground arith;
          listed = ground arith;
        },
        rest,
      ),
      quiet,
    )

allow-judge :
    (c : PolicyConfig) (a : AgentRecord) (risk : RiskLevel) (ps : List Permission)
    → All (Passes c a) ps
    → is_high_risk risk ≡ false
    → (judge c a risk ps).effect ≡ allow
unfolding judge
allow-judge c a risk [] h quiet = ground arith
allow-judge c a risk (p ∷ ps) (h, hs) quiet = ground (arith, allow-judge c a risk ps hs quiet)

-- A tool is allowed exactly when the agent holds each of its permissions, none of them is denied or
-- requires approval, all are allowed by the configuration, and its risk is low or medium.
pub evaluate-allow_iff :
    (c : PolicyConfig) (a : AgentRecord) (d : ToolDescriptor)
    → ((evaluate c a d).effect ≡ allow)
      ↔ (All (Passes c a) d.permissions × (is_high_risk d.risk ≡ false))
unfolding evaluate
evaluate-allow_iff c a d =
    (judge-allow c a d.risk d.permissions, λ h. allow-judge c a d.risk d.permissions h.0 h.1)

-- A permission that is asked about before any that needs approval.
pub record Passed (c : PolicyConfig) (a : AgentRecord) (p : Permission) : Type 0 where
  pub held : allows a p ≡ true
  pub not_denied : contains c.denied p ≡ false

judge-deny :
    (c : PolicyConfig) (a : AgentRecord) (risk : RiskLevel) (ps : List Permission) (q : Permission)
    (rest : List Permission)
    → All (Passes c a) ps
    → (allows a q ≡ false) ⊎ (contains c.denied q ≡ true)
    → (judge c a risk (ps ++ q ∷ rest)).effect ≡ deny
unfolding judge
judge-deny c a risk [] q rest hs bad = ground arith
judge-deny c a risk (p ∷ ps) q rest (h, hs) bad =
    ground (arith, judge-deny c a risk ps q rest hs bad)

judge-require :
    (c : PolicyConfig) (a : AgentRecord) (risk : RiskLevel) (ps : List Permission) (p : Permission)
    (rest : List Permission)
    → All (Passes c a) ps
    → Passed c a p
    → contains c.approval_required p ≡ true
    → (judge c a risk (ps ++ p ∷ rest)).effect ≡ require_approval
unfolding judge
judge-require c a risk [] p rest hs h asks = ground arith
judge-require c a risk (q ∷ ps) p rest (g, hs) h asks =
    ground (arith, judge-require c a risk ps p rest hs h asks)

-- A permission that the agent lacks, or that is denied, makes the decision a denial if all before it
-- pass.
pub evaluate-deny :
    (c : PolicyConfig) (a : AgentRecord) (d : ToolDescriptor) (ps : List Permission)
    (q : Permission) (rest : List Permission)
    → d.permissions ≡ ps ++ q ∷ rest
    → All (Passes c a) ps
    → (allows a q ≡ false) ⊎ (contains c.denied q ≡ true)
    → (evaluate c a d).effect ≡ deny
unfolding evaluate
evaluate-deny c a d ps q rest e hs bad = rw e (judge-deny c a d.risk ps q rest hs bad)

-- The loop stops at the first permission that requires approval: whatever permissions follow it,
-- denied ones and ones that the agent lacks included, the decision asks for approval only.
pub evaluate-require_approval :
    (c : PolicyConfig) (a : AgentRecord) (d : ToolDescriptor) (ps : List Permission)
    (p : Permission) (rest : List Permission)
    → d.permissions ≡ ps ++ p ∷ rest
    → All (Passes c a) ps
    → Passed c a p
    → contains c.approval_required p ≡ true
    → (evaluate c a d).effect ≡ require_approval
unfolding evaluate
evaluate-require_approval c a d ps p rest e hs h asks =
    rw e (judge-require c a d.risk ps p rest hs h asks)
