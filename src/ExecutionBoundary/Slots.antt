-- ===== src/ExecutionBoundary/Slots.antt =====
-- The results of tools that run side by side are told under the right names.
use thread_forge.Prelude.{
  ℕ, String, ◌≡◌, refl, ◌∙◌, Bool, true, false, Option, some, List, [], ◌∷◌, ◌&&◌, not, ◌==◌, inl,
  inr, Bool-cases, arith,
}
use thread_forge.Prelude.Dict.{Dict, get, put, remove, get-put, get-put_self, get-remove}
use thread_forge.Publisher.{Envelope}
use thread_forge.Control.{Control, Run}
use thread_forge.ExecutionBoundary.{
  Boundary, Slot, HookCall, before_model, after_model, tool_requested, before_tool, after_tool,
  commentary, model_retrying, model_protocol_retrying, is_stopped, emit, hook, run_hooks, slot_id,
  result_event, result_envelope,
}

-- The call is about another tool call, and a result names the call that it belongs to.
abbrev pub spares : String → HookCall → Bool
spares id (before_tool i name) = not (i == id)
spares id (after_tool given status last entries) = not (given == id) && not (given == "")
spares id _ = true

abbrev pub all_spare : String → List HookCall → Bool
all_spare id [] = true
all_spare id (call ∷ calls) = spares id call && all_spare id calls

either :
    (r : Run) (old b : Boundary) (kind : String) (payload : Dict String) (v : Envelope)
    (c : Control) (id : String) (o : Option Slot)
    → get old.active_tools id ≡ o
    → get b.active_tools id ≡ o
    → get (emit r old b kind payload v c).boundary.active_tools id ≡ o
unfolding emit
either r old b kind payload v c id o h k = elim (Bool-cases (is_stopped r c)) [
  | inl stopped ↦ rw stopped h
  | inr goes ↦ rw goes k
]

given-slot_id : (id : String) (tools : Dict Slot) → (id == "") ≡ false → slot_id id tools ≡ id
unfolding slot_id
given-slot_id id [] h = refl
given-slot_id id ((k, s) ∷ tools) h = rw h refl

put-other :
    (d : Dict Slot) (k j : String) (s : Slot) → (k == j) ≡ false → get (put d k s) j ≡ get d j
put-other d k j s h = rw (get-put d k j s, h) refl

remove-other :
    (d : Dict Slot) (k j : String)
    → (k == j) ≡ false
    → (k == "") ≡ false
    → get (remove d (slot_id k d)) j ≡ get d j
remove-other d k j h n = rw (given-slot_id k d n, get-remove d k j, h) refl

is_false : (b : Bool) → not b ≡ true → b ≡ false
is_false true h = cc
is_false false h = refl

hook-spares :
    (show : ℕ → String) (r : Run) (call : HookCall) (b : Boundary) (c : Control) (id : String)
    → spares id call ≡ true
    → get (hook show r call b c).boundary.active_tools id ≡ get b.active_tools id
unfolding hook
hook-spares show r before_model b c id h = either r b _ _ _ _ c id _ refl refl
hook-spares show r (after_model usage summary) b c id h = either r b b _ _ _ c id _ refl refl
hook-spares show r (tool_requested i name preview) b c id h = either r b b _ _ _ c id _ refl refl
hook-spares show r (before_tool i name) b c id h =
    either r b
      (record b {
        active_tools = put b.active_tools i (record { tool_call_id = i; tool_name = name });
      })
      _ _ _ c id _ refl
      (put-other b.active_tools i id (record { tool_call_id = i; tool_name = name }) (is_false _ h))
hook-spares show r (after_tool given status last entries) b c id h =
    let b' : Boundary = record b {
      active_tools = remove b.active_tools (slot_id given b.active_tools);
    } in
    let other = remove-other b.active_tools given id (ground arith) (ground arith) in
    either r b' b' _ _ _ c id _ other other
hook-spares show r (commentary t) b c id h = either r b b _ _ _ c id _ refl refl
hook-spares show r (model_retrying stage details attempt) b c id h =
    either r b b _ _ _ c id _ refl refl
hook-spares show r (model_protocol_retrying stage details attempt) b c id h =
    either r b b _ _ _ c id _ refl refl

run_hooks-spares :
    (show : ℕ → String) (r : Run) (calls : List HookCall) (b : Boundary) (c : Control) (id : String)
    → all_spare id calls ≡ true
    → get (run_hooks show r calls b c).0.active_tools id ≡ get b.active_tools id
unfolding run_hooks
run_hooks-spares show r [] b c id h = refl
run_hooks-spares show r (call ∷ calls) b c id h =
    run_hooks-spares show r calls (hook show r call b c).boundary (hook show r call b c).control id
      (ground arith)
    ∙ hook-spares show r call b c id (ground arith)

-- The state of the hooks in which a result is told.
abbrev pub settled : String → Boundary → Boundary
settled id b = record b { active_tools = remove b.active_tools id }

started-slot :
    (show : ℕ → String) (r : Run) (id name : String) (b : Boundary) (c : Control)
    → is_stopped r c ≡ false
    → get (hook show r (before_tool id name) b c).boundary.active_tools id
      ≡ some (record { tool_call_id = id; tool_name = name })
unfolding hook emit
started-slot show r id name b c goes = rw goes (get-put_self b.active_tools id _)

after_tool-named :
    (show : ℕ → String) (r : Run) (id name status last : String) (entries : Dict String)
    (b : Boundary) (c : Control)
    → (id == "") ≡ false
    → (name == "") ≡ false
    → get b.active_tools id ≡ some (record { tool_call_id = id; tool_name = name })
    → hook show r (after_tool id status last entries) b c
      ≡ emit r
          (settled id b)
          (settled id b)
          (result_event status)
          (("tool_call_id", id)
            ∷ ("tool_name", name)
            ∷ ("tool_status", status)
            ∷ ("parent_event_id", b.model_round_id)
            ∷ entries)
          (result_envelope b status name)
          c
unfolding hook
after_tool-named show r id name status last entries b c i n found =
    rw (given-slot_id id b.active_tools i, found, n) refl

-- A tool call with an id and a name is told under them, whatever other tool calls were started, ended
-- or told in between: the event for its result has the id and the name that its start had, where the
-- start was not refused, no call in between used its id, and each result in between had one.
pub run_hooks-attributes :
    (show : ℕ → String) (r : Run) (id name status last : String) (entries : Dict String)
    (calls : List HookCall) (b : Boundary) (c : Control)
    → is_stopped r c ≡ false
    → (id == "") ≡ false
    → (name == "") ≡ false
    → all_spare id calls ≡ true
    → let (b', c') = run_hooks show r (before_tool id name ∷ calls) b c in
      hook show r (after_tool id status last entries) b' c'
      ≡ emit r
          (settled id b')
          (settled id b')
          (result_event status)
          (("tool_call_id", id)
            ∷ ("tool_name", name)
            ∷ ("tool_status", status)
            ∷ ("parent_event_id", b'.model_round_id)
            ∷ entries)
          (result_envelope b' status name)
          c'
unfolding run_hooks
run_hooks-attributes show r id name status last entries calls b c goes i n spare =
    let h = hook show r (before_tool id name) b c in
    let (b', c') = run_hooks show r calls h.boundary h.control in
    after_tool-named show r id name status last entries b' c' i n (
      run_hooks-spares show r calls h.boundary h.control id spare
      ∙ started-slot show r id name b c goes)
