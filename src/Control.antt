-- ===== src/Control.antt =====
-- The state of the control plane that the repositories, the approval gate and the task runner
-- share, and the actions on it. Every disk operation takes its outcome from `faults`: a list of
-- what the operating system will answer, where no answer left means success. A failed write leaves
-- the record as it was. `runs` are the `RunContext` objects with their `RunGate` and their token;
-- the dictionaries of gates and contexts hold run ids. An action that holds a lock in the source is
-- one step here.
use thread_forge.Prelude.{
  ℕ, suc, String, Bool, true, false, Option, none, some, List, [], ◌∷◌, ◌&&◌, not, eqb,
}
use thread_forge.Prelude.Dict.{Dict, get, put}
use thread_forge.Domain.{Task, Approval, Error, record_unavailable, record_corrupted}
use thread_forge.RunFiles.{RunFiles}
use thread_forge.Journal.{JournalFile}
use thread_forge.Publisher
use thread_forge.Publisher.{Publisher, Envelope}

-- Success, an `OSError`, or a file that is no JSON record.
pub data Fault : Type 0 where
  fine unavailable corrupted : Fault

-- infrastructure/run_gate.py and cancellation.py, and the `RunContext` of approval_gate.py.
pub record Run : Type 0 where
  pub task_id : String
  pub run_id : String
  pub owner_id : String
  pub closed : Bool
  pub generation : ℕ
  pub cancelled : Bool
  pub process_cleanup_succeeded : Bool

pub record Control : Type 0 where
  pub tasks : Dict Task
  pub approvals : Dict Approval
  pub journal : JournalFile
  pub run_files : Dict RunFiles
  pub publisher : Publisher
  pub runs : Dict Run
  pub task_gates : Dict String
  pub contexts : Dict String
  pub active_task : Option String
  pub degraded : Bool
  pub shutting_down : Bool
  pub clock : ℕ
  pub faults : List Fault

pub data Result (A : Type 0) : Type 0 where
  ok : A → Result A
  err : Error → Result A

-- An action returns or raises; what it wrote before a raise stays written.
abbrev pub Exec : Type 0 → Type 0
Exec A = Control → Result A × Control

abbrev pub continue : {A B : Type 0} → Result A → (A → Exec B) → Exec B
continue (ok a) f c = f a c
continue (err e) f c = (err e, c)

infixl 5 ◌>>=◌ ◌>>◌
abbrev pub ◌>>=◌ : {A B : Type 0} → Exec A → (A → Exec B) → Exec B
◌>>=◌ m f c = let (r, c') = m c in continue r f c'

abbrev pub ◌>>◌ : {A B : Type 0} → Exec A → Exec B → Exec B
m >> k = m >>= λ _. k

abbrev pub pure : {A : Type 0} → A → Exec A
pure a c = (ok a, c)

abbrev pub raise : {A : Type 0} → Error → Exec A
raise e c = (err e, c)

abbrev pub gets : {A : Type 0} → (Control → A) → Exec A
gets f c = (ok (f c), c)

abbrev pub modify : (Control → Control) → Exec (Unit {0})
modify f c = (ok tt, f c)

-- `try`: the outcome as a value.
abbrev pub attempt : {A : Type 0} → Exec A → Exec (Result A)
attempt m c = let (r, c') = m c in (ok r, c')

abbrev pub succeeded : {A : Type 0} → Result A → Bool
succeeded (ok a) = true
succeeded (err e) = false

abbrev pub answer : Fault → List Fault → Exec (Unit {0})
answer fine fs c = (ok tt, record c { faults = fs })
answer unavailable fs c = (err record_unavailable, record c { faults = fs })
answer corrupted fs c = (err record_corrupted, record c { faults = fs })

abbrev pub draw : List Fault → Exec (Unit {0})
draw [] c = (ok tt, record c { faults = [] })
draw (f ∷ fs) c = answer f fs c

-- One disk operation.
unfoldable pub disk : Exec (Unit {0})
disk c = draw c.faults c

abbrev pub mark_degraded : Exec (Unit {0})
mark_degraded = modify (λ c. record c { degraded = true })

abbrev pub publish : String → String → String → Dict String → Envelope → Exec (Unit {0})
publish task run kind payload v =
    modify (λ c. record c { publisher = Publisher.publish task run kind payload v c.publisher })

-- RunGate.close
unfoldable pub close : Run → Run
close r = record r { closed = true; generation = suc r.generation }

-- RunGate.check_generation
unfoldable pub check_generation : ℕ → Run → Bool
check_generation expected r = not r.closed && eqb expected r.generation

-- A write to a `RunContext` object.
unfoldable pub set_run : String → (Run → Run) → Control → Control
set_run run f c = elim (get c.runs run) [
  | none ↦ c
  | some r ↦ record c { runs = put c.runs run (f r) }
]
