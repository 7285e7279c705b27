-- ===== src/ToolExecutor/Fits.antt =====
-- The metadata of a tool that has run fit what happened.
use thread_forge.Prelude.{
  String, ◌≡◌, refl, Bool, true, false, ◌==◌, ◌&&◌, ◌||◌, not, if◌then◌else◌, Bool-cases, inl, inr,
  eq_refl, contains, ltb, length, List, [],
}
use thread_forge.Prelude.Dict.{get}
use thread_forge.ToolExecutor.{
  Agent, tell, report_run, failure_text, shell_status, success, failure, changes, ran, escapes,
  returned_status,
}
use thread_forge.ToolExecutor.Calls.{
  after_tool, Metadata, ToolExecutionResult, Ran, returned, failed, cleanup_failed, interrupted,
  Answer, ok, raised,
}
use thread_forge.ToolExecutor.Snapshots.{differs, diff_workspace_snapshots-differs}

-- A status and an error code that fit what happened: a rejection if and only if the tool did not run, a
-- partial success only if a file has changed, an error only if none has, and a code if and only if the status is not
-- ok.
abbrev pub sound : Bool → Bool → String → String → Bool
sound ran changed status code =
    ((not ran || not (status == "rejected")) && (ran || status == "rejected"))
    && ((not (status == "partial_success") || changed)
        && ((not (status == "error") || not changed)
            && ((not (status == "ok") || code == "") && (status == "ok" || not (code == "")))))

abbrev agree : Bool → Bool → Bool
agree true b = b
agree false b = not b

-- The affected paths hold the path if and only if it is to be among them, and the workspace has changed if
-- and only if there are any.
abbrev pub tells : String → Bool → Metadata → Bool
tells path affected m =
    agree (contains path m.affected_paths) affected
    && agree m.workspace_changed (ltb 0 (length m.affected_paths))

-- `differs` says whether the content of the path was another after the run of the tool than before.
abbrev pub fits : String → Bool → String → Bool → ToolExecutionResult → Bool
fits path differs id ran r =
    let m = r.metadata in
    (m.tool_call_id == id && sound ran m.workspace_changed m.tool_status m.tool_error_code)
    && tells path (ran && differs) m

abbrev pub Fits : String → Bool → String → Bool → Answer ToolExecutionResult → Type 0
Fits path differs id ran (ok r) = fits path differs id ran r ≡ true
Fits path differs id ran (raised e) = Unit {0}

agree_refl : (b : Bool) → agree b b ≡ true
agree_refl true = refl
agree_refl false = refl

agrees : (b b' : Bool) → b ≡ b' → agree b b' ≡ true
agrees b b' h = rw h (agree_refl b')

both : (a b : Bool) → a ≡ true → b ≡ true → a && b ≡ true
both a b h k = rw (h, k) refl

-- Whether the snapshots of a risky tool's run differ at the path.
abbrev pub changed_at : Agent → Bool → String → Bool
changed_at a risky path = risky && differs a.before_snapshot a.after_snapshot path

module _ (a : Agent) (path : String)
    (keeps : (x : String) (l : List String) → contains x (a.sorted l) ≡ contains x l) where
  Fits-tell :
      (d : Bool) (id : String) (ran : Bool) (r : ToolExecutionResult)
      → fits path d id ran r ≡ true
      → Fits path d id ran (tell a r).0
  Fits-tell d id ran r h = elim (Bool-cases (a.stops (after_tool r))) [
    | inl s ↦ rw s tt
    | inr s ↦ rw s h
  ]

  shell_status-sound :
      (changed : Bool) (content : String)
      → let (status, code) = shell_status a changed content in sound true changed status code ≡ true
  shell_status-sound changed content = elim (Bool-cases (a.mentions "[tool timed out" content)) [
    | inl m ↦ rw m (timed_out changed)
    | inr m ↦ elim (Bool-cases (a.exits_badly content)) [
      | inl x ↦ rw (m, x) (exited changed)
      | inr x ↦ rw (m, x) refl
    ]
  ]
    where
      timed_out :
          (b : Bool) → sound true b (if b then "partial_success" else "error") "tool_timeout" ≡ true
      timed_out true = refl
      timed_out false = refl

      exited :
          (b : Bool)
          → let p : String × String =
              if b then ("partial_success", "tool_partial_success") else ("error", "tool_failed") in
            sound true b p.0 p.1 ≡ true
      exited true = refl
      exited false = refl

  ran-tells :
      (risky : Bool) (status code event id : String)
      → tells path (changed_at a risky path) (ran a risky status code event id) ≡ true
  unfolding get
  ran-tells true status code event id =
      both _ _
        (agrees _ _ (
          (diff_workspace_snapshots-differs a.sorted a.before_snapshot a.after_snapshot path
            keeps).0))
        (agree_refl (changes a true))
  ran-tells false status code event id =
      both _ _ (agrees _ false ((diff_workspace_snapshots-differs a.sorted [] [] path keeps).0))
        (agree_refl (changes a false))

  success-sound :
      (risky : Bool) (name content id : String)
      → let m = success a risky name content id in
        m.tool_call_id == id && sound true m.workspace_changed m.tool_status m.tool_error_code
        ≡ true
  success-sound risky name content id = elim (Bool-cases (name == "run_shell")) [
    | inl n ↦ rw (eq_refl id, n) (shell_status-sound (changes a risky) content)
    | inr n ↦ rw (eq_refl id, n) refl
  ]

  success-fits :
      (risky : Bool) (name content id : String)
      → fits path
          (changed_at a risky path)
          id
          true
          (record { content = content; metadata = success a risky name content id })
        ≡ true
  success-fits risky name content id = both _ _ (success-sound risky name content id) (
      ran-tells risky (returned_status a name (changes a risky) content).0
        (returned_status a name (changes a risky) content).1 "" id)

  failure-fits :
      (risky : Bool) (name message content id : String)
      → fits path
          (changed_at a risky path)
          id
          true
          (record { content = content; metadata = failure a risky name message id })
        ≡ true
  failure-fits risky name message content id = go (changes a risky) refl
    where
      go :
          (b : Bool)
          → changes a risky ≡ b
          → fits path (changed_at a risky path) id true (record {
            content = content;
            metadata =
                if b
                then ran a risky "partial_success" "tool_partial_success" (escapes a message) id
                else ran a risky "error" "tool_failed" (escapes a message) id;
          })
            ≡ true
      go true h =
          both _ _ (rw (eq_refl id, h) refl)
            (ran-tells risky "partial_success" "tool_partial_success" (escapes a message) id)
      go false h =
          both _ _ (rw (eq_refl id, h) refl)
            (ran-tells risky "error" "tool_failed" (escapes a message) id)

  pub report_run-Fits :
      (risky : Bool) (name id : String) (x : Ran)
      → Fits path (changed_at a risky path) id true (report_run a risky name id x).0
  unfolding report_run
  report_run-Fits risky name id (returned content) =
      Fits-tell _ id true _ (success-fits risky name content id)
  report_run-Fits risky name id (failed message) =
      Fits-tell _ id true _ (failure-fits risky name message (failure_text name message) id)
  report_run-Fits risky name id cleanup_failed = tt
  report_run-Fits risky name id interrupted = tt
