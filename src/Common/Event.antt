-- ===== src/Common/Event.antt =====
-- `EventEnvelope` of crates/sessionweft-core/src/lib.rs, with the JSON values that the operations put
-- into it. `Io` is what an operation reads from outside: its readings of the clock, `Utc::now`, and
-- the identifiers that `Uuid::new_v4` gives it, each in order. Identifiers and instants are numbers.
use Prim.Native.Nat.{ℕ}
use Prim.Native.String.{String}
use mathlib.Core.Bool.{Bool}
use mathlib.Core.List.{List}
use mathlib.Core.Option.{Option, none}

pub record Io : Type 0 where
  pub clock : ℕ → ℕ
  pub uuid : ℕ → ℕ

mutual
  pub data Value : Type 0 where
    null : Value
    flag : Bool → Value
    num : ℕ → Value
    uuid : ℕ → Value
    time : ℕ → Value
    str : String → Value
    strs : List String → Value
    obj : Fields → Value

  pub data Fields : Type 0 where
    end : Fields
    field : String → Value → Fields → Fields

pub record EventEnvelope : Type 0 where
  pub event_id : ℕ
  pub event_type : String
  pub schema_version : ℕ
  pub session_id : Option ℕ
  pub actor_id : Option String
  pub correlation_id : ℕ
  pub causation_id : Option ℕ
  pub occurred_at : ℕ
  pub payload : Value

abbrev pub event_schema_version : ℕ
event_schema_version = 1

-- Who asked, for tracing: the two arguments that every operation passes on to its events.
pub record Trace : Type 0 where
  pub correlation_id : ℕ
  pub actor_id : Option String

-- `EventEnvelope::new`, with its identifier and its instant.
unfoldable pub new_event : ℕ → ℕ → String → Option ℕ → Trace → Value → EventEnvelope
new_event event_id now event_type session_id trace payload = record {
  event_id = event_id;
  event_type = event_type;
  schema_version = event_schema_version;
  session_id = session_id;
  actor_id = trace.actor_id;
  correlation_id = trace.correlation_id;
  causation_id = none;
  occurred_at = now;
  payload = payload;
}
