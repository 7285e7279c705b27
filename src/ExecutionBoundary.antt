-- ===== src/ExecutionBoundary.antt =====
-- api-server/src/threadforge_api/infrastructure/execution_boundary.py: the hooks through which the
-- runtime's model and tool calls reach the public events. A hook holds the run's gate, so it is one
-- step. What an event's payload holds besides texts (`usage`, paths, previews, the fields of a retry) is
-- an argument, as `entries`; so is the text of a number. Times are left out.
pub mod Silence
pub mod Slots
use Prim.Native.String.{◌++◌ as append_text}
use thread_forge.Prelude.{
  ℕ, suc, String, Bool, true, false, Option, none, some, List, [], ◌∷◌, ◌++◌, ◌==◌, ◌||◌, not,
  if◌then◌else◌, contains,
}
use thread_forge.Prelude.Dict.{Dict, get, put, remove}
use thread_forge.Json.{clip}
use thread_forge.Domain.{Error, run_cancelled}
use thread_forge.Publisher.{Envelope, no_envelope}
use thread_forge.Control.{Control, Run, Result, ok, err, publish}

pub record Slot : Type 0 where
  pub tool_call_id : String
  pub tool_name : String

pub record Boundary : Type 0 where
  pub active_tools : Dict Slot
  pub model_round : ℕ
  pub model_round_id : String

-- What a hook returns or raises, and the two states after it.
pub record Hooked : Type 0 where
  pub answer : Result (Unit {0})
  pub boundary : Boundary
  pub control : Control

-- A call of a hook. `after_tool` has the id, the status and the content's preview of the result.
pub data HookCall : Type 0 where
  before_model : HookCall
  after_model : Dict String → String → HookCall
  tool_requested : String → String → String → HookCall
  before_tool : String → String → HookCall
  after_tool : String → String → String → Dict String → HookCall
  commentary : String → HookCall
  model_retrying : String → Dict String → ℕ → HookCall
  model_protocol_retrying : String → Dict String → ℕ → HookCall

-- `_check`, on the run as it is now.
unfoldable pub is_stopped : Run → Control → Bool
is_stopped r c = elim (get c.runs r.run_id) [
  | none ↦ r.closed || r.cancelled
  | some s ↦ s.closed || s.cancelled
]

-- An event of the run, and `b` is the state of the hooks after it; it stays `old` if `_check` raises.
unfoldable pub emit : Run → Boundary → Boundary → String → Dict String → Envelope → Control → Hooked
emit r old b kind payload v c =
    if is_stopped r c
    then record { answer = err run_cancelled; boundary = old; control = c }
    else record {
      answer = ok tt;
      boundary = b;
      control = (publish r.task_id r.run_id kind payload v c).1;
    }

-- The slot that a result belongs to: the one of its id, or the first, if it has none.
unfoldable pub slot_id : String → Dict Slot → String
slot_id id [] = id
slot_id id ((k, s) ∷ tools) = if id == "" then k else id

abbrev or_text : String → String → String
or_text a b = if a == "" then b else a

abbrev named : Option Slot → String → String
named none last = last
named (some s) last = or_text s.tool_name last

abbrev pub result_event : String → String
result_event status =
    if contains status ("ok" ∷ "partial_success" ∷ []) then "tool.completed" else "tool.failed"

abbrev pub result_envelope : Boundary → String → String → Envelope
result_envelope b status name = record no_envelope {
  phase = "execute";
  parent_event_id = b.model_round_id;
  status = status;
  summary = name;
}

module _ (show : ℕ → String) where
  abbrev begin_round : Boundary → Boundary
  begin_round b = record b {
    model_round = suc b.model_round;
    model_round_id = append_text "model_round_" (show (suc b.model_round));
  }

  unfoldable pub hook : Run → HookCall → Boundary → Control → Hooked
  unfolding emit slot_id
  hook r before_model b =
      let b' = begin_round b in
      emit r b b' "model.started"
        (("round", show b'.model_round) ∷ ("round_id", b'.model_round_id) ∷ [])
        (record no_envelope {
          phase = "model";
          attempt = some b'.model_round;
          summary = append_text "模型第 " (append_text (show b'.model_round) " 轮请求");
        })
  hook r (after_model usage summary) b =
      emit r b b "model.completed" (usage ++ ("round_id", b.model_round_id) ∷ [])
        (record no_envelope {
          phase = "model";
          attempt = some b.model_round;
          status = "completed";
          summary = summary;
        })
  hook r (tool_requested id name preview) b =
      emit r b b "tool.requested"
        (("tool_call_id", id)
          ∷ ("tool_name", name)
          ∷ (if preview == "" then [] else ("args_preview", preview) ∷ []))
        (record no_envelope { phase = "execute"; parent_event_id = b.model_round_id })
  hook r (before_tool id name) b =
      emit r b
        (record b {
          active_tools = put b.active_tools id (record { tool_call_id = id; tool_name = name });
        })
        "tool.started"
        (("tool_call_id", id) ∷ ("tool_name", name) ∷ ("parent_event_id", b.model_round_id) ∷ [])
        (record no_envelope {
          phase = "execute";
          parent_event_id = b.model_round_id;
          status = "running";
        })
  hook r (after_tool given status last_tool entries) b =
      let id = slot_id given b.active_tools in
      let name = named (get b.active_tools id) last_tool in
      let b' = record b { active_tools = remove b.active_tools id } in
      emit r b' b' (result_event status)
        (("tool_call_id", id)
          ∷ ("tool_name", name)
          ∷ ("tool_status", status)
          ∷ ("parent_event_id", b.model_round_id)
          ∷ entries)
        (result_envelope b status name)
  hook r (commentary t) b =
      emit r b b "assistant.commentary" (("text", clip 1000 t) ∷ [])
        (record no_envelope { phase = "talk"; summary = clip 1000 t })
  hook r (model_retrying stage details attempt) b =
      emit r b b "model.retrying" (("stage", stage) ∷ details)
        (record no_envelope { phase = "model"; attempt = some attempt })
  hook r (model_protocol_retrying stage details attempt) b =
      emit r b b "model.protocol_retrying" (("stage", stage) ∷ details)
        (record no_envelope { phase = "model"; attempt = some attempt })

  -- The hooks that a runtime calls, one after the other, whatever they raise.
  unfoldable pub run_hooks : Run → List HookCall → Boundary → Control → Boundary × Control
  unfolding hook
  run_hooks r [] b c = (b, c)
  run_hooks r (call ∷ calls) b c = let h = hook r call b c in run_hooks r calls h.boundary h.control
