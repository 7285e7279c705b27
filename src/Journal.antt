-- ===== src/Journal.antt =====
-- api-server/src/threadforge_api/infrastructure/recovery_journal.py. The file is its complete
-- lines and a flag for a last line whose newline a crash cut off; an append after such a tail
-- joins onto it. A transition id (`uuid4`) is the caller's.
use thread_forge.Prelude.{
  String, Bool, true, false, Option, none, some, List, [], ◌∷◌, ◌++◌, if◌then◌else◌, ◌==◌, map,
}
use thread_forge.Prelude.Dict.{Dict, put, remove}
pub mod Recovery

pub record Intent : Type 0 where
  pub transition_id : String
  pub kind : String
  pub task_id : String
  pub approval_id : String

-- A complete line: blank, a record of either phase, or text that is no such record.
pub data Line : Type 0 where
  blank broken : Line
  begin : Intent → Line
  commit : String → Line

pub record JournalFile : Type 0 where
  pub lines : List Line
  pub torn : Bool

abbrev pub new : JournalFile
new = record { lines = []; torn = false }

-- `_append`: one line, with its newline.
unfoldable pub append : Line → JournalFile → JournalFile
append l f =
    if f.torn
    then record { lines = f.lines ++ broken ∷ []; torn = false }
    else record { lines = f.lines ++ l ∷ []; torn = false }

-- The loop of `incomplete`; `none` is a raise. An id that is empty is refused.
unfoldable pub scan : Dict Intent → List Line → Option (Dict Intent)
scan pending [] = some pending
scan pending (blank ∷ ls) = scan pending ls
scan pending (broken ∷ ls) = none
scan pending (begin r ∷ ls) =
    let rest = scan (put pending r.transition_id r) ls in
    if r.transition_id == "" then none else rest
scan pending (commit t ∷ ls) =
    let rest = scan (remove pending t) ls in if t == "" then none else rest

abbrev pub values : Dict Intent → List Intent
values [] = []
values ((k, r) ∷ d) = r ∷ values d

abbrev pub map_values : Option (Dict Intent) → Option (List Intent)
map_values none = none
map_values (some d) = some (values d)

abbrev torn_after : Bool → Option (Dict Intent) → Bool
torn_after torn none = torn
torn_after torn (some d) = false

-- The loop reaches a torn tail, the last line, if no line before it raises; then it cuts the tail off.
unfoldable pub incomplete : JournalFile → Option (List Intent) × JournalFile
unfolding scan
incomplete f =
    let read = scan [] f.lines in
    (map_values read, record { lines = f.lines; torn = torn_after f.torn read })
