-- ===== src/Inbox.antt =====
-- agent-orchestrator/src/langgraph_pico/inbox.py: the requests that are added while a run is on. An
-- operation holds the lock, so it is one step.
pub mod Refinement
use thread_forge.Prelude.{
  ℕ, String, Bool, true, false, Option, none, some, List, [], ◌∷◌, ◌++◌, length, ◌||◌,
  if◌then◌else◌, ◌==◌,
}

pub record InboxItem : Type 0 where
  pub message : String
  pub wake : Bool
  pub priority : ℕ

unfoldable pub append_item : (String → String) → InboxItem → List InboxItem → List InboxItem
append_item strip x items =
    if strip x.message == "" then items else items ++ record x { message = strip x.message } ∷ []

-- The constructor of InboxSource.
unfoldable pub open_inbox : (String → String) → String → List InboxItem
unfolding append_item
open_inbox strip initial =
    append_item strip (record { message = initial; wake = true; priority = 0 }) []

abbrev pub keep : InboxItem → Option InboxItem × List InboxItem → Option InboxItem × List InboxItem
keep x (found, rest) = (found, x ∷ rest)

unfoldable pub pop_wake : List InboxItem → Option InboxItem × List InboxItem
pop_wake [] = (none, [])
pop_wake (x ∷ xs) = let rest = pop_wake xs in if x.wake then (some x, xs) else keep x rest

unfoldable pub has_wake : List InboxItem → Bool
has_wake [] = false
has_wake (x ∷ xs) = x.wake || has_wake xs

unfoldable pub pending : List InboxItem → ℕ
pending items = length items

-- A call, and what it returns.
pub data Call : Type 0 where
  append : String → Bool → ℕ → Call
  pop : Call
  ask : Call
  count : Call

pub data Answer : Type 0 where
  nothing : Answer
  popped : Option InboxItem → Answer
  asked : Bool → Answer
  counted : ℕ → Answer

abbrev give : Option InboxItem × List InboxItem → Answer × List InboxItem
give (x, items) = (popped x, items)

unfoldable pub step : (String → String) → Call → List InboxItem → Answer × List InboxItem
unfolding append_item pop_wake has_wake pending
step strip (append message wake priority) items = (
  nothing,
  append_item strip (record { message = message; wake = wake; priority = priority }) items,
)
step strip pop items = give (pop_wake items)
step strip ask items = (asked (has_wake items), items)
step strip count items = (counted (pending items), items)

unfoldable pub answers : (String → String) → List Call → List InboxItem → List Answer
unfolding step
answers strip [] items = []
answers strip (c ∷ cs) items = let (a, items') = step strip c items in a ∷ answers strip cs items'
