-- ===== src/Examples/Streams.antt =====
-- Concrete inputs: a journal, the events of a task, a subscriber's queue, the state of a run.
use thread_forge.Prelude.{
  if◌then◌else◌, ◌⊎◌, ◌≤◌, ◌<◌, ℕ, suc, zero, String, ◌≡◌, refl, Bool, true, false, Option, none,
  some, List, [], ◌∷◌, ◌++◌, ◌<◌, ◌≤◌, ◌+◌, length, arith,
}
use thread_forge.Prelude.Int.{ℤ, pos, negsuc}
use thread_forge.Prelude.Dict
use thread_forge.Json.{Json, Python, IsPython}
use thread_forge.Domain.{TaskStatus}
use thread_forge.Examples.{task_with}
use thread_forge.Journal
use thread_forge.Journal.{Intent, JournalFile}
use thread_forge.Journal.Recovery
use thread_forge.Publisher
use thread_forge.Publisher.Sequence
use thread_forge.Broker
use thread_forge.Broker.{Broker, Item}
use thread_forge.Broker.Queue
use thread_forge.Broker.Routing
use thread_forge.TaskRunner.Outcome
use thread_forge.TaskState.Fields
use thread_forge.TaskState.Fields.{TaskState}
use thread_forge.TaskState.History
use thread_forge.TaskState.History.{Op}
use thread_forge.TaskState.Progress
use thread_forge.TaskState.Codec

abbrev first_intent : Intent
first_intent = record {
  transition_id = "x1";
  kind = "approval_request";
  task_id = "t1";
  approval_id = "a1";
}

abbrev second_intent : Intent
second_intent = record {
  transition_id = "x2";
  kind = "approval_resolution";
  task_id = "t1";
  approval_id = "a1";
}

abbrev one_open : JournalFile
one_open = record { lines = Journal.begin first_intent ∷ []; torn = false }

one_open-Reads : Recovery.Reads one_open (("x1", first_intent) ∷ [])
unfolding Journal.scan Dict.put
one_open-Reads = record { whole = refl; open_at = refl }

torn_tail_recovered_example :
    let crashed = record one_open { torn = true } in
    (Journal.incomplete crashed ≡ (some (first_intent ∷ []), one_open))
    × ((Journal.incomplete
          (Journal.append (Journal.begin second_intent) (Journal.incomplete crashed).1)).0
        ≡ some (first_intent ∷ second_intent ∷ []))
    × ((Journal.incomplete (Journal.append (Journal.begin second_intent) crashed)).0 ≡ none)
unfolding Dict.get
torn_tail_recovered_example =
    Recovery.torn_tail_recovered one_open (("x1", first_intent) ∷ []) second_intent one_open-Reads
      refl refl

abbrev call_of : String → String → Sequence.Call
call_of task kind = record {
  task = task;
  run = "r1";
  kind = kind;
  payload = [];
  envelope = Publisher.no_envelope;
}

abbrev calls : List Sequence.Call
calls =
    call_of "t1" "task.started"
    ∷ call_of "t2" "task.started"
    ∷ call_of "t1" "task.completed"
    ∷ call_of "t1" "task.started"
    ∷ []

publish_all-numbers_example :
    Sequence.numbers "t1" (Sequence.publish_all calls Publisher.new).sent
    ≡ Sequence.numbers "t1" [] ++ Sequence.expected "t1" (Sequence.next_of "t1" Publisher.new) calls
publish_all-numbers_example = Sequence.publish_all-numbers "t1" calls Publisher.new

calls_numbered : Sequence.expected "t1" 0 calls ≡ 0 ∷ 1 ∷ 0 ∷ []
unfolding Sequence.expected Publisher.is_terminal_type
calls_numbered = refl

abbrev items : List (Item ℕ)
items = Item.event 1 ∷ Item.event 2 ∷ Item.event 3 ∷ []

enqueue_all_lem_example :
    (length (Queue.enqueue_all 2 items []) ≤ 2)
    × (((0 + length items ≤ 2) × (Queue.enqueue_all 2 items [] ≡ items))
        ⊎ ((2 < 0 + length items) × (Queue.has_closed (Queue.enqueue_all 2 items []) ≡ true)))
enqueue_all_lem_example = Queue.enqueue_all_lem 2 items [] (omega arith) (omega arith)

abbrev two_subscribers : Broker ℕ
two_subscribers = record {
  queue_size = 4;
  running = true;
  subscribers = ("t1", 0 ∷ 1 ∷ []) ∷ [];
  queues = λ q. [];
  next_queue = 2;
  scheduled = [];
}

publish-delivers_example : (Broker.run_loop (Broker.publish "t1" 7 two_subscribers)).queues 1 ≡ (
    if Broker.member 1 (Routing.subscribers_of "t1" two_subscribers)
    then Broker.enqueue 4 (Item.event 7) []
    else [])
unfolding Dict.get
publish-delivers_example =
    Routing.publish-delivers "t1" 7 two_subscribers 1 refl refl (refl, (refl, tt))

-- The conversions that are the identity where a value has the type already.
abbrev pub plain : Python
plain = record {
  to_text = plain_text;
  to_int = plain_int;
  to_bool = plain_bool;
  strip = λ s. s;
  upper = λ s. s;
}
  where
    plain_text : Json → String
    plain_text (Json.text s) = s
    plain_text j = "other"

    plain_int : Json → Option ℤ
    plain_int (Json.num n) = some n
    plain_int j = none

    plain_bool : Json → Bool
    plain_bool (Json.bool b) = b
    plain_bool (Json.num (pos zero)) = false
    plain_bool j = true

pub plain-IsPython : IsPython plain
plain-IsPython = record {
  text_of_text = λ s. refl;
  int_of_num = λ n. refl;
  bool_of_bool = λ b. refl;
  zero_of_falsy = only_zero;
}
  where
    only_zero : (n : ℤ) → plain.to_bool (Json.num n) ≡ false → n ≡ pos 0
    only_zero (pos zero) h = refl
    only_zero (pos (suc n)) h = cc
    only_zero (negsuc n) h = cc

abbrev ops : List Op
ops = Op.read_file ∷ Op.item "Read the files" ∷ Op.item "Read the files" ∷ Op.success "done" ∷ []

abbrev started : TaskState
started = Progress.create "r1" "t1" "fix the build" (pos 0) (negsuc 0) none "s1" "w1"

run-recoverable_example :
    Codec.from_dict plain (Codec.to_dict (History.run plain (λ xs. xs) ops started))
    ≡ some (History.run plain (λ xs. xs) ops started)
run-recoverable_example =
    History.run-recoverable plain (λ xs. xs) "r1" "t1" "fix the build" (pos 0) (negsuc 0) none "s1"
      "w1" ops plain-IsPython

abbrev gathered : TaskState
gathered = record started { completed_items = "Gather context" ∷ [] }

abbrev limited : TaskState
limited = record started { status = "stopped"; stop_reason = "step_limit_reached" }

abbrev stopped_outcome : Outcome.Outcome
stopped_outcome = record {
  status = TaskStatus.blocked;
  stop_reason = "step_limit_reached";
  final_answer = "";
}

limited_recovered :
    Outcome.terminal_task_from_run (some limited) (task_with TaskStatus.running none)
    ≡ some stopped_outcome
unfolding Outcome.terminal_task_from_run Outcome.failure_status Progress.create Fields.new_state
limited_recovered = refl

recovered-converged_example : Outcome.converged false true (some limited) ≡ stopped_outcome
recovered-converged_example =
    Outcome.recovered-converged limited (task_with TaskStatus.running none) stopped_outcome
      limited_recovered refl refl
