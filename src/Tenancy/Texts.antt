-- ===== src/Tenancy/Texts.antt =====
-- The texts of the tables and of the interface are read back as they were written:
-- crates/sessionweft-tenancy/src/lib.rs and crates/sessionweft-saas-postgres/src/tenancy.rs.
use sessionweft.Common.{String, ◌≡◌, refl, subst, sym, ◌↔◌, ok, eq_iff, arith}
use sessionweft.Tenancy.{
  QuotaDimension, sessions, active_agents, queued_tasks, indexed_files, event_backlog,
  provider_tokens, tool_invocations, storage_bytes, ResourceKind, session, workflow, agent, memory,
  workspace, git_worktree, plugin, provider_credential, billing_account, TenantStatus, active,
  suspended, closed, dimension_text, parse_dimension, kind_text, parse_kind,
}
use sessionweft.Tenancy.Store.{status_text, status_from_text}

read_dimension : (d : QuotaDimension) → parse_dimension (dimension_text d) ≡ ok d
unfolding parse_dimension dimension_text
read_dimension sessions = refl
read_dimension active_agents = refl
read_dimension queued_tasks = refl
read_dimension indexed_files = refl
read_dimension event_backlog = refl
read_dimension provider_tokens = refl
read_dimension tool_invocations = refl
read_dimension storage_bytes = refl

dimension_read : (s : String) (d : QuotaDimension) → parse_dimension s ≡ ok d → s ≡ dimension_text d
unfolding parse_dimension dimension_text
dimension_read s sessions h = ground (arith, eq_iff s "sessions")
dimension_read s active_agents h = ground (arith, eq_iff s "active_agents")
dimension_read s queued_tasks h = ground (arith, eq_iff s "queued_tasks")
dimension_read s indexed_files h = ground (arith, eq_iff s "indexed_files")
dimension_read s event_backlog h = ground (arith, eq_iff s "event_backlog")
dimension_read s provider_tokens h = ground (arith, eq_iff s "provider_tokens")
dimension_read s tool_invocations h = ground (arith, eq_iff s "tool_invocations")
dimension_read s storage_bytes h = ground (arith, eq_iff s "storage_bytes")

read_kind : (k : ResourceKind) → parse_kind (kind_text k) ≡ ok k
unfolding parse_kind kind_text
read_kind session = refl
read_kind workflow = refl
read_kind agent = refl
read_kind memory = refl
read_kind workspace = refl
read_kind git_worktree = refl
read_kind plugin = refl
read_kind provider_credential = refl
read_kind billing_account = refl

kind_read : (s : String) (k : ResourceKind) → parse_kind s ≡ ok k → s ≡ kind_text k
unfolding parse_kind kind_text
kind_read s session h = ground (arith, eq_iff s "session")
kind_read s workflow h = ground (arith, eq_iff s "workflow")
kind_read s agent h = ground (arith, eq_iff s "agent")
kind_read s memory h = ground (arith, eq_iff s "memory")
kind_read s workspace h = ground (arith, eq_iff s "workspace")
kind_read s git_worktree h = ground (arith, eq_iff s "git_worktree")
kind_read s plugin h = ground (arith, eq_iff s "plugin")
kind_read s provider_credential h = ground (arith, eq_iff s "provider_credential")
kind_read s billing_account h = ground (arith, eq_iff s "billing_account")

-- Of quota dimensions and resource kinds: a text is read as a value exactly when it is the one that the
-- value is displayed as.
pub parse_tenancy_iff :
    (s t : String) (d : QuotaDimension) (k : ResourceKind)
    → ((parse_dimension s ≡ ok d) ↔ (s ≡ dimension_text d))
      × ((parse_kind t ≡ ok k) ↔ (t ≡ kind_text k))
parse_tenancy_iff s t d k = (
  (dimension_read s d, λ e. subst (λ x. parse_dimension x ≡ ok d) (sym e) (read_dimension d)),
  (kind_read t k, λ e. subst (λ x. parse_kind x ≡ ok k) (sym e) (read_kind k)),
)

pub status_from_text-status_text : (v : TenantStatus) → status_from_text (status_text v) ≡ ok v
unfolding status_from_text status_text
status_from_text-status_text active = refl
status_from_text-status_text suspended = refl
status_from_text-status_text closed = refl
