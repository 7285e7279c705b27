-- ===== src/Inbox/Refinement.antt =====
-- The inbox as two queues: the requests that wake, first in first out, and the injected ones, which
-- only count.
use thread_forge.Prelude.{
  ℕ, suc, ◌+◌, String, ◌≡◌, refl, ap, ◌∙◌, Bool, true, false, Option, none, some, List, [], ◌∷◌,
  ◌++◌, length, if◌then◌else◌, ◌==◌, arith, Bool-cases, inl, inr,
}
use thread_forge.Inbox.{
  InboxItem, Call, append, pop, ask, count, Answer, nothing, popped, asked, counted, append_item,
  pop_wake, has_wake, pending, step, answers,
}

pub record Queues : Type 0 where
  pub waking : List InboxItem
  pub injected : ℕ

abbrev inject : Queues → Queues
inject q = record q { injected = suc q.injected }

abbrev admit : InboxItem → Queues → Queues
admit x q = if x.wake then record q { waking = q.waking ++ x ∷ [] } else inject q

abbrev is_waking : List InboxItem → Bool
is_waking [] = false
is_waking (x ∷ xs) = true

abbrev first : List InboxItem → Option InboxItem
first [] = none
first (x ∷ xs) = some x

abbrev rest_of : List InboxItem → List InboxItem
rest_of [] = []
rest_of (x ∷ xs) = xs

-- What a call does to the two queues.
unfoldable pub promised : (String → String) → Call → Queues → Answer × Queues
promised strip (append message wake priority) q = (
  nothing,
  (if strip message == ""
      then q
      else admit (record { message = strip message; wake = wake; priority = priority }) q),
)
promised strip pop q = (popped (first q.waking), record q { waking = rest_of q.waking })
promised strip ask q = (asked (is_waking q.waking), q)
promised strip count q = (counted (length q.waking + q.injected), q)

unfoldable pub promised_answers : (String → String) → List Call → Queues → List Answer
unfolding promised
promised_answers strip [] q = []
promised_answers strip (c ∷ cs) q =
    let (a, q') = promised strip c q in a ∷ promised_answers strip cs q'

abbrev add : InboxItem → Queues → Queues
add x q = if x.wake then record q { waking = x ∷ q.waking } else inject q

-- The two queues of an inbox.
unfoldable pub view : List InboxItem → Queues
view [] = record { waking = []; injected = 0 }
view (x ∷ xs) = add x (view xs)

add-admit : (y x : InboxItem) (q : Queues) → add y (admit x q) ≡ admit x (add y q)
add-admit y x q = elim (Bool-cases x.wake) [
  | inl w ↦ elim (Bool-cases y.wake) [ inl v ↦ rw (w, v) refl | inr v ↦ rw (w, v) refl ]
  | inr w ↦ elim (Bool-cases y.wake) [ inl v ↦ rw (w, v) refl | inr v ↦ rw (w, v) refl ]
]

view-append :
    (items : List InboxItem) (x : InboxItem) → view (items ++ x ∷ []) ≡ admit x (view items)
unfolding view
view-append [] x = ground arith
view-append (y ∷ items) x = ap (add y) (view-append items x) ∙ add-admit y x (view items)

has_wake-view : (items : List InboxItem) → has_wake items ≡ is_waking (view items).waking
unfolding has_wake view
has_wake-view [] = refl
has_wake-view (x ∷ xs) = ground (arith, has_wake-view xs)

pending-view :
    (items : List InboxItem) → pending items ≡ length (view items).waking + (view items).injected
unfolding pending view
pending-view [] = refl
pending-view (x ∷ xs) = ground (arith, pending-view xs)

pop_wake-view :
    (items : List InboxItem)
    → ((pop_wake items).0 ≡ first (view items).waking)
      × (view (pop_wake items).1 ≡ record (view items) { waking = rest_of (view items).waking })
unfolding pop_wake view
pop_wake-view [] = (refl, refl)
pop_wake-view (x ∷ xs) = elim (Bool-cases x.wake) [
  | inl w ↦ (rw w refl, rw w refl)
  | inr w ↦ let (a, b) = pop_wake-view xs in (rw w a, rw w (ap inject b))
]

step-view :
    (strip : String → String) (c : Call) (items : List InboxItem)
    → ((step strip c items).0 ≡ (promised strip c (view items)).0)
      × (view (step strip c items).1 ≡ (promised strip c (view items)).1)
unfolding step promised append_item
step-view strip (append message wake priority) items = (
  refl,
  elim (Bool-cases (strip message == "")) [
    | inl e ↦ rw e refl
    | inr e ↦
        rw e
          (view-append items (record { message = strip message; wake = wake; priority = priority }))
  ],
)
step-view strip pop items = let (a, b) = pop_wake-view items in (ap popped a, b)
step-view strip ask items = (ap asked (has_wake-view items), refl)
step-view strip count items = (ap counted (pending-view items), refl)

-- Whatever is called in whatever order, the inbox answers as its two queues would: the requests that
-- wake come out in the order they came in, each once, and the injected ones stay and are counted.
pub answers-view :
    (strip : String → String) (cs : List Call) (items : List InboxItem)
    → answers strip cs items ≡ promised_answers strip cs (view items)
unfolding answers promised_answers
answers-view strip [] items = refl
answers-view strip (c ∷ cs) items =
    let (a, b) = step-view strip c items in
    let rest = answers-view strip cs (step strip c items).1 in
    λ i. a i ∷ (rest ∙ ap (promised_answers strip cs) b) i
