-- ===== src/Publisher.antt =====
-- api-server/src/threadforge_api/infrastructure/event_publisher.py and domain/events.py. `sent` is
-- what was handed to `EventBroker.publish`, in order. The event id (`uuid4`) and the timestamp,
-- which nothing reads, are left out; a payload is a dictionary of texts.
use Prim.Native.String
use Prim.Native.String.{◌++◌ as append_text}
use Prim.Native.Char.{Char, code}
use thread_forge.Prelude.{
  ℕ, zero, suc, ◌+◌, String, Bool, true, false, Option, none, some, List, [], ◌∷◌, ◌++◌, ◌||◌,
  if◌then◌else◌, ◌==◌, eqb, contains,
}
use thread_forge.Prelude.Dict.{Dict, get, put, remove}
pub mod Sequence

-- The optional arguments of `publish`.
pub record Envelope : Type 0 where
  pub trace_id : String
  pub parent_event_id : String
  pub phase : String
  pub attempt : Option ℕ
  pub status : String
  pub summary : String

abbrev pub no_envelope : Envelope
no_envelope = record {
  trace_id = "";
  parent_event_id = "";
  phase = "";
  attempt = none;
  status = "";
  summary = "";
}

pub record PublicEvent : Type 0 where
  pub sequence : ℕ
  pub kind : String
  pub task_id : String
  pub run_id : String
  pub envelope : Envelope
  pub payload : Dict String

abbrev terminal_types : List String
terminal_types =
    "task.completed" ∷ "task.cancelled" ∷ "task.failed" ∷ "task.interrupted" ∷ "task.blocked" ∷ []

-- event_type in _TERMINAL_TYPES
unfoldable pub is_terminal_type : String → Bool
is_terminal_type kind = contains kind terminal_types

abbrev phase_by_type : Dict String
phase_by_type =
    ("plan.", "plan")
    ∷ ("model.", "model")
    ∷ ("assistant.", "talk")
    ∷ ("tool.", "execute")
    ∷ ("approval.", "approval")
    ∷ ("review.", "review")
    ∷ ("policy.", "execute")
    ∷ ("sandbox.", "execute")
    ∷ ("workspace.", "execute")
    ∷ ("message.completed", "final")
    ∷ ("task.completed", "final")
    ∷ ("task.cancelled", "final")
    ∷ ("task.failed", "final")
    ∷ ("task.interrupted", "final")
    ∷ ("task.blocked", "final")
    ∷ ("task.cancel_requested", "final")
    ∷ ("task.queued", "system")
    ∷ ("task.started", "system")
    ∷ ("task.snapshot", "system")
    ∷ []

-- event_type.split(".", 1)[0]
unfoldable pub before_dot : String → String
before_dot String.[] = String.[]
before_dot (String.◌∷◌ c s) =
    let rest = before_dot s in if eqb (code c) b'.' then String.[] else String.◌∷◌ c rest

abbrev or_text : Option String → String → String
or_text none d = d
or_text (some s) d = s

abbrev or_prefix : Option String → String → String
or_prefix (some p) kind = p
or_prefix none kind = or_text (get phase_by_type (append_text (before_dot kind) ".")) "system"

-- A stable coarse phase for an event type.
unfoldable pub event_phase : String → String
event_phase kind = or_prefix (get phase_by_type kind) kind

-- The envelope as `PublicEvent.to_dict` completes it.
unfoldable pub complete : PublicEvent → PublicEvent
unfolding event_phase
complete e =
    let v = e.envelope in
    record e {
      envelope = record v {
        trace_id = if v.trace_id == "" then e.run_id else v.trace_id;
        phase = if v.phase == "" then event_phase e.kind else v.phase;
      };
    }

pub record Publisher : Type 0 where
  pub sequences : Dict ℕ
  pub sent : List PublicEvent

abbrev pub new : Publisher
new = record { sequences = []; sent = [] }

-- next(counter), where a task with no counter gets a new one.
abbrev pub next_sequence : Option ℕ → ℕ
next_sequence none = 0
next_sequence (some n) = n

unfoldable pub publish : String → String → String → Dict String → Envelope → Publisher → Publisher
unfolding complete
publish task run kind payload v p =
    let n = next_sequence (get p.sequences task) in
    let counted = put p.sequences task (n + 1) in
    let event : PublicEvent = record {
      sequence = n;
      kind = kind;
      task_id = task;
      run_id = run;
      envelope = record v { trace_id = if v.trace_id == "" then run else v.trace_id };
      payload = payload;
    } in
    record {
      sequences = if is_terminal_type kind then remove counted task else counted;
      sent = p.sent ++ complete event ∷ [];
    }
