-- ===== src/Session.antt =====
-- crates/sessionweft-core/src/lib.rs: the durable Session and its operations. An operation on
-- `&mut self` is an `Exec Session`; `u64` versions saturate; the clock and the new identifiers come
-- from `Io`, in the order in which the source reads them.
pub mod Commands
pub mod History
pub mod Archive
use sessionweft.Common.{
  ℕ, ◌+◌, String, len, Bool, true, false, not, ◌||◌, Option, none, some, List, [], ◌∷◌, ◌++◌, ltb,
  ◌==◌, if◌then◌else◌, u64_max, saturating_suc, is_blank, trim, is_empty_text, Result, ok, err,
  Exec, pure, gets, modify, refuse_if, ◌>>=◌, ◌>>◌, Io, Trace, Value, Fields, num, uuid, str, null,
  obj, field, end, EventEnvelope, new_event,
}

pub data SessionStatus : Type 0 where
  active archived : SessionStatus

pub data MessageRole : Type 0 where
  system user assistant tool : MessageRole

pub record Message : Type 0 where
  pub id : ℕ
  pub role : MessageRole
  pub content : String
  pub created_at : ℕ

pub record ProviderSelection : Type 0 where
  pub provider : String
  pub model : String

pub record Session : Type 0 where
  pub schema_version : ℕ
  pub id : ℕ
  pub version : ℕ
  pub status : SessionStatus
  pub title : String
  pub messages : List Message
  pub provider : Option ProviderSelection
  pub created_at : ℕ
  pub updated_at : ℕ

pub data DomainError : Type 0 where
  validation : String → DomainError
  conflict : ℕ → ℕ → DomainError
  already_archived : DomainError

abbrev pub session_schema_version : ℕ
session_schema_version = 1

abbrev pub max_title : ℕ
max_title = 200

abbrev pub max_content : ℕ
max_content = 1000000

build : Io → String → Session
build io title = record {
  schema_version = session_schema_version;
  id = io.uuid 0;
  version = 0;
  status = active;
  title = title;
  messages = [];
  provider = none;
  created_at = io.clock 0;
  updated_at = io.clock 0;
}

-- `Session::new`.
unfoldable pub new : Io → String → Result DomainError Session
unfolding build
new io given =
    let title = trim given in
    if is_empty_text title
    then err (validation "title cannot be empty")
    else if ltb max_title (len title)
    then err (validation "title cannot exceed 200 bytes")
    else ok (build io title)

abbrev pub is_archived : SessionStatus → Bool
is_archived archived = true
is_archived active = false

pub ensure_version : ℕ → Exec Session DomainError Unit
ensure_version expected s =
    if s.version == expected then (ok tt, s) else (err (conflict expected s.version), s)

ensure_mutable : ℕ → Exec Session DomainError Unit
unfolding ensure_version
ensure_mutable expected = do
  ensure_version expected
  archived_already ← gets (λ s. is_archived s.status)
  refuse_if archived_already already_archived

advance_version : ℕ → Session → Session
unfolding saturating_suc
advance_version now s = record s { version = saturating_suc u64_max s.version; updated_at = now }

role_name : MessageRole → String
role_name system = "system"
role_name user = "user"
role_name assistant = "assistant"
role_name tool = "tool"

push_message : Message → Session → Session
push_message m s = record s { messages = s.messages ++ m ∷ [] }

appended : Io → Trace → Message → Session → EventEnvelope
unfolding role_name
appended io trace m s =
    new_event (io.uuid 1) (io.clock 2) "session.message_appended" (some s.id) trace (
      obj (
        field "session_version" (num s.version)
          (field "message_id" (uuid m.id) (field "role" (str (role_name m.role)) end))))

pub append_message : Io → ℕ → MessageRole → String → Trace → Exec Session DomainError EventEnvelope
unfolding ensure_mutable advance_version push_message appended
append_message io expected role content trace = do
  ensure_mutable expected
  refuse_if (is_blank content) (validation "message content cannot be empty")
  refuse_if (ltb max_content (len content))
      (validation "message content exceeds the configured hard limit")
  let message : Message = record {
    id = io.uuid 0;
    role = role;
    content = content;
    created_at = io.clock 0;
  }
  modify (push_message message)
  modify (advance_version (io.clock 1))
  gets (appended io trace message)

selection_value : Option ProviderSelection → Value
selection_value none = null
selection_value (some p) = obj (field "provider" (str p.provider) (field "model" (str p.model) end))

choose : ProviderSelection → Session → Session
choose p s = record s { provider = some p }

switched : Io → Trace → Option ProviderSelection → ProviderSelection → Session → EventEnvelope
unfolding selection_value
switched io trace previous p s =
    new_event (io.uuid 0) (io.clock 1) "provider.switched" (some s.id) trace (
      obj (
        field "session_version" (num s.version) (
          field "previous" (selection_value previous)
            (field "current" (selection_value (some p)) end))))

pub select_provider : Io → ℕ → String → String → Trace → Exec Session DomainError EventEnvelope
unfolding ensure_mutable advance_version choose switched
select_provider io expected given_provider given_model trace = do
  ensure_mutable expected
  let provider = trim given_provider
  let model = trim given_model
  refuse_if (is_empty_text provider || is_empty_text model)
      (validation "provider and model are required")
  previous ← gets (λ s. s.provider)
  let selection : ProviderSelection = record { provider = provider; model = model }
  modify (choose selection)
  modify (advance_version (io.clock 0))
  gets (switched io trace previous selection)

close : Session → Session
close s = record s { status = archived }

closed : Io → Trace → Session → EventEnvelope
closed io trace s =
    new_event (io.uuid 0) (io.clock 1) "session.archived" (some s.id) trace
      (obj (field "session_version" (num s.version) end))

pub archive : Io → ℕ → Trace → Exec Session DomainError EventEnvelope
unfolding ensure_version advance_version close closed
archive io expected trace = do
  ensure_version expected
  archived_already ← gets (λ s. is_archived s.status)
  refuse_if archived_already already_archived
  modify close
  modify (advance_version (io.clock 0))
  gets (closed io trace)
