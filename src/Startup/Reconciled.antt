-- ===== src/Startup/Reconciled.antt =====
-- What a start that reports success has reconciled.
use thread_forge.Prelude.{String, ◌≡◌, Bool, true, false, Option, some, List, []}
use thread_forge.Json.{Python}
use thread_forge.Security.{Secrets}
use thread_forge.Journal.{Intent, incomplete}
use thread_forge.Prelude.Dict.{Dict}
use thread_forge.Domain.{record_unavailable}
use thread_forge.Control.{Control, Fault, Result, ok, err}
use thread_forge.Startup.Loops.{If}
use thread_forge.Startup.Restoring.{AllSettled}
use thread_forge.Startup.Tasks.{TasksDone}
use thread_forge.Startup.Approvals.{AllDecided, AllWithdrawn}

-- The transitions that the journal leaves open.
abbrev pub open_transitions : Control → Option (List Intent)
open_transitions c = (incomplete c.journal).0

-- The listed tasks have ended, the listed approvals are decided, and the transitions that the journal of
-- `c` left open are closed, with their approvals withdrawn.
pub record Reconciled (tasks approvals : List String) (c d : Control) : Type 0 where
  pub settled : AllSettled tasks d.tasks
  pub decided : AllDecided approvals d.approvals
  pub found : List Intent
  pub found_at : open_transitions c ≡ some found
  pub withdrawn : AllWithdrawn found d.approvals
  pub closed : open_transitions d ≡ some []

-- The last loop, from a state in which the tasks and the approvals are done.
abbrev Closed : List String → List String → Control → Control → Type 0
Closed tasks ids c d =
    TasksDone tasks d
    × AllDecided ids d.approvals
    × ((rs : List Intent) × (open_transitions c ≡ some rs) × AllWithdrawn rs d.approvals)
    × (open_transitions d ≡ some [])

abbrev truncated : List Fault → Control → Control
truncated fs c = record c {
  faults = fs;
  journal = record { lines = c.journal.lines; torn = false };
}

module _ (py : Python) (z : Secrets) (now : String) (checks : List Bool)
    (tasks approvals : List String) where
  -- What a start that ends so leaves behind.
  abbrev Ends : Control → Result Bool → Control → Type 0
  Ends c (ok b) d = If b (Reconciled tasks approvals c d)
  Ends c (err e) d = e ≡ record_unavailable

-- What the start leaves behind, by its flag, or by its error.
abbrev pub Started : List String → List String → Control → Result Bool → Control → Type 0
Started tasks approvals c (ok true) d = Reconciled tasks approvals c d
Started tasks approvals c (ok false) d = d.degraded ≡ true
Started tasks approvals c (err e) d = e ≡ record_unavailable
