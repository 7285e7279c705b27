-- ===== src/Broker.antt =====
-- api-server/src/threadforge_api/infrastructure/event_broker.py. Queues are objects behind numbers;
-- a subscriber group is a set, kept as a list. What `call_soon_threadsafe` schedules runs later on
-- the loop, in order: `scheduled` holds it, and `run_loop` runs it. The events are of any type.
use thread_forge.Prelude.{
  ℕ, suc, String, Bool, true, false, Option, none, some, List, [], ◌∷◌, ◌++◌, ◌||◌, ◌&&◌, not,
  if◌then◌else◌, eqb, leb, ltb, length,
}
use thread_forge.Prelude.Dict
use thread_forge.Prelude.Dict.{Dict, put, remove}
pub mod Queue
pub mod Routing

-- An event, or the sentinel that ends the stream.
pub data Item (E : Type 0) : Type 0 where
  event : E → Item E
  closed : Item E

pub record Broker (E : Type 0) : Type 0 where
  pub queue_size : ℕ
  pub running : Bool
  pub subscribers : Dict (List ℕ)
  pub queues : ℕ → List (Item E)
  pub next_queue : ℕ
  pub scheduled : List (ℕ × Item E)

abbrev pub group_of : Option (List ℕ) → List ℕ
group_of none = []
group_of (some qs) = qs

-- set.add, set.discard and `in`
abbrev pub member : ℕ → List ℕ → Bool
member q [] = false
member q (x ∷ xs) = eqb x q || member q xs

unfoldable pub discard : ℕ → List ℕ → List ℕ
discard q [] = []
discard q (x ∷ xs) = let rest = discard q xs in if eqb x q then rest else x ∷ rest

-- asyncio's `Queue.full`: a queue of size 0 has no bound.
abbrev pub full {ℓ} : {A : Type ℓ} → ℕ → List A → Bool
full size q = ltb 0 size && leb size (length q)

-- Queue.get_nowait, its result dropped
abbrev pub drop_first {ℓ} : {A : Type ℓ} → List A → List A
drop_first [] = []
drop_first (x ∷ xs) = xs

-- A group that is left empty is taken out of the table.
unfoldable pub regroup : Dict (List ℕ) → String → List ℕ → Dict (List ℕ)
regroup d task [] = remove d task
regroup d task (q ∷ qs) = put d task (q ∷ qs)

unfoldable pub all_queues : Dict (List ℕ) → List ℕ
all_queues [] = []
all_queues ((task, qs) ∷ d) = qs ++ all_queues d

module _ {E : Type 0} where
  unfoldable pub enqueue : ℕ → Item E → List (Item E) → List (Item E)
  enqueue size x q =
      if full size q
      then (let q' = drop_first q in if full size q' then q' else q' ++ closed ∷ [])
      else q ++ x ∷ []

  unfoldable pub new : ℕ → Broker E
  new size = record {
    queue_size = size;
    running = true;
    subscribers = [];
    queues = λ _. [];
    next_queue = 0;
    scheduled = [];
  }

  -- `none` as the snapshot is a factory that raises: the queue is taken out again.
  unfoldable pub subscribe {ℓ} :
      {A : Type ℓ} → String → Option A → Broker E → Option (ℕ × A) × Broker E
  unfolding discard
  subscribe task snapshot b =
      let q = b.next_queue in
      let group = group_of (Dict.get b.subscribers task) ++ q ∷ [] in
      let registered : Broker E = record b {
        subscribers = put b.subscribers task group;
        next_queue = suc q;
      } in
      elim snapshot [
        | none ↦
            (none, record registered { subscribers = put b.subscribers task (discard q group) })
        | some a ↦ (some (q, a), registered)
      ]

  unfoldable pub unsubscribe : String → ℕ → Broker E → Broker E
  unfolding discard regroup
  unsubscribe task q b = record b {
    subscribers = regroup b.subscribers task (discard q (group_of (Dict.get b.subscribers task)));
  }

  unfoldable pub schedule : List ℕ → Item E → List (ℕ × Item E)
  schedule [] x = []
  schedule (q ∷ qs) x = (q, x) ∷ schedule qs x

  -- A loop that is shutting down refuses the callbacks.
  unfoldable pub publish : String → E → Broker E → Broker E
  unfolding schedule
  publish task e b =
      if b.running
      then record b {
        scheduled = b.scheduled ++ schedule (group_of (Dict.get b.subscribers task)) (event e);
      }
      else b

  unfoldable pub close_all : Broker E → Broker E
  unfolding schedule all_queues
  close_all b =
      let calls = if b.running then schedule (all_queues b.subscribers) closed else [] in
      record b { subscribers = []; scheduled = b.scheduled ++ calls }

  unfoldable pub run_calls : ℕ → List (ℕ × Item E) → (ℕ → List (Item E)) → ℕ → List (Item E)
  unfolding enqueue
  run_calls size [] queues = queues
  run_calls size ((q, x) ∷ cs) queues =
      run_calls size cs (λ j. if eqb q j then enqueue size x (queues q) else queues j)

  unfoldable pub run_loop : Broker E → Broker E
  unfolding run_calls
  run_loop b = record b { queues = run_calls b.queue_size b.scheduled b.queues; scheduled = [] }
