-- ===== src/ExecutionBoundary/Silence.antt =====
-- A stopped run says nothing more.
use thread_forge.Prelude.{
  ℕ, String, ◌≡◌, refl, ap, ◌∙◌, Bool, true, Option, none, some, List, [], ◌∷◌, ◌||◌, arith,
}
use thread_forge.Prelude.Dict.{Dict, get}
use thread_forge.Domain.{run_cancelled}
use thread_forge.Publisher.{Envelope}
use thread_forge.Control.{Control, Run, ok, err}
use thread_forge.TaskRunner.{cancel, get_context}
use thread_forge.TaskRunner.Cancelling.{IsCancelled, cancel-effective}
use thread_forge.ExecutionBoundary.{
  Boundary, HookCall, before_model, after_model, tool_requested, before_tool, after_tool,
  commentary, model_retrying, model_protocol_retrying, is_stopped, emit, hook, run_hooks,
}

emit-stopped :
    (r : Run) (old b : Boundary) (kind : String) (payload : Dict String) (v : Envelope)
    (c : Control)
    → is_stopped r c ≡ true
    → emit r old b kind payload v c
      ≡ record { answer = err run_cancelled; boundary = old; control = c }
unfolding emit
emit-stopped r old b kind payload v c h = rw h refl

-- A hook of a stopped run raises and publishes nothing.
pub hook-stopped :
    (show : ℕ → String) (r : Run) (call : HookCall) (b : Boundary) (c : Control)
    → is_stopped r c ≡ true
    → ((hook show r call b c).answer ≡ err run_cancelled) × ((hook show r call b c).control ≡ c)
unfolding hook
hook-stopped show r before_model b c h = rw (emit-stopped, h) (refl, refl)
hook-stopped show r (after_model usage summary) b c h = rw (emit-stopped, h) (refl, refl)
hook-stopped show r (tool_requested id name preview) b c h = rw (emit-stopped, h) (refl, refl)
hook-stopped show r (before_tool id name) b c h = rw (emit-stopped, h) (refl, refl)
hook-stopped show r (after_tool given status last entries) b c h = rw (emit-stopped, h) (refl, refl)
hook-stopped show r (commentary t) b c h = rw (emit-stopped, h) (refl, refl)
hook-stopped show r (model_retrying stage details attempt) b c h = rw (emit-stopped, h) (refl, refl)
hook-stopped show r (model_protocol_retrying stage details attempt) b c h =
    rw (emit-stopped, h) (refl, refl)

run_hooks-stopped :
    (show : ℕ → String) (r : Run) (calls : List HookCall) (b : Boundary) (c : Control)
    → is_stopped r c ≡ true
    → (run_hooks show r calls b c).1 ≡ c
unfolding run_hooks
run_hooks-stopped show r [] b c h = refl
run_hooks-stopped show r (call ∷ calls) b c h =
    let (raised, same) = hook-stopped show r call b c h in
    run_hooks-stopped show r calls (hook show r call b c).boundary (hook show r call b c).control
      (ap (is_stopped r) same ∙ h)
    ∙ same

cancelled-stopped :
    (r : Run) (c : Control) → IsCancelled (get c.runs r.run_id) → is_stopped r c ≡ true
unfolding is_stopped
cancelled-stopped r c h = go (get c.runs r.run_id) h
  where
    go :
        (o : Option Run)
        → IsCancelled o
        → elim o [ none ↦ r.closed || r.cancelled | some s ↦ s.closed || s.cancelled ] ≡ true
    go none h = absurd h
    go (some s) h = ground arith

-- Once a cancellation has reported success, the hooks of the run publish nothing and change nothing of
-- the control plane, whatever the runtime still calls.
pub cancel-run_hooks :
    (show : ℕ → String) (task : String) (ids : List String) (shell : Option Bool) (c : Control)
    (r : Run) (calls : List HookCall) (b : Boundary)
    → get_context task c ≡ some r
    → get c.runs r.run_id ≡ some r
    → (cancel task ids shell c).0 ≡ ok true
    → (run_hooks show r calls b (cancel task ids shell c).1).1 ≡ (cancel task ids shell c).1
cancel-run_hooks show task ids shell c r calls b found live h =
    run_hooks-stopped show r calls b (cancel task ids shell c).1 (
      cancelled-stopped r (cancel task ids shell c).1
        (cancel-effective task ids shell c r found live h).0)
