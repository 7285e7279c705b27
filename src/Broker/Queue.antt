-- ===== src/Broker/Queue.antt =====
-- One subscriber's queue: its bound, its order, and the sentinel of a slow consumer.
use mathlib.Core.List.{append-nil, append_assoc}
use thread_forge.Prelude.{
  ℕ, ◌+◌, ◌≤◌, ◌<◌, ◌≡◌, refl, sym, ◌∙◌, Bool, true, false, List, [], ◌∷◌, ◌++◌, arith, length,
  length-append, inl, inr, ◌⊎◌, leb, Bool-cases,
}
use thread_forge.Broker.{Item, event, closed, full, enqueue, drop_first}

fitting : (a b : ℕ) → leb a b ≡ true → a ≤ b
fitting a b h = ground arith

passing : (a b : ℕ) → leb a b ≡ false → b < a
passing a b h = ground arith

module _ {E : Type 0} where
  abbrev pub has_closed : List (Item E) → Bool
  has_closed [] = false
  has_closed (closed ∷ q) = true
  has_closed (event e ∷ q) = has_closed q

  -- The loop's calls for one queue.
  unfoldable pub enqueue_all : ℕ → List (Item E) → List (Item E) → List (Item E)
  enqueue_all size [] q = q
  enqueue_all size (x ∷ xs) q = enqueue_all size xs (enqueue size x q)

  has_closed-snoc : (q : List (Item E)) → has_closed (q ++ closed ∷ []) ≡ true
  has_closed-snoc [] = refl
  has_closed-snoc (closed ∷ q) = refl
  has_closed-snoc (event e ∷ q) = has_closed-snoc q

  has_closed-append : (q r : List (Item E)) → has_closed q ≡ true → has_closed (q ++ r) ≡ true
  has_closed-append [] r h = cc
  has_closed-append (closed ∷ q) r h = refl
  has_closed-append (event e ∷ q) r h = has_closed-append q r h

  length-enqueue :
      (size : ℕ) (x : Item E) (q : List (Item E))
      → 0 < size
      → length q ≤ size
      → length (enqueue size x q) ≤ size
  unfolding enqueue
  length-enqueue size x [] h b = ground (arith, length-append [] (x ∷ []))
  length-enqueue size x (y ∷ q) h b =
      ground (arith, length-append q (closed ∷ []), length-append q (x ∷ []))

  enqueue-full :
      (size : ℕ) (x : Item E) (q : List (Item E))
      → 0 < size
      → length q ≤ size
      → full size q ≡ true
      → enqueue size x q ≡ drop_first q ++ closed ∷ []
  unfolding enqueue
  enqueue-full size x [] h b f = ground arith
  enqueue-full size x (y ∷ q) h b f = ground arith

  enqueue-room :
      (size : ℕ) (x : Item E) (q : List (Item E))
      → full size q ≡ false
      → enqueue size x q ≡ q ++ x ∷ []
  unfolding enqueue
  enqueue-room size x q f = rw f refl

  has_closed-enqueue :
      (size : ℕ) (x : Item E) (q : List (Item E))
      → 0 < size
      → length q ≤ size
      → has_closed q ≡ true
      → has_closed (enqueue size x q) ≡ true
  has_closed-enqueue size x q h b c = elim (Bool-cases (full size q)) [
    | inl f ↦ rw (enqueue-full size x q h b f) (has_closed-snoc (drop_first q))
    | inr f ↦ rw (enqueue-room size x q f) (has_closed-append q (x ∷ []) c)
  ]

  length-enqueue_all :
      (size : ℕ) (xs q : List (Item E))
      → 0 < size
      → length q ≤ size
      → length (enqueue_all size xs q) ≤ size
  unfolding enqueue_all
  length-enqueue_all size [] q h b = b
  length-enqueue_all size (x ∷ xs) q h b =
      length-enqueue_all size xs (enqueue size x q) h (length-enqueue size x q h b)

  has_closed-enqueue_all :
      (size : ℕ) (xs q : List (Item E))
      → 0 < size
      → length q ≤ size
      → has_closed q ≡ true
      → has_closed (enqueue_all size xs q) ≡ true
  unfolding enqueue_all
  has_closed-enqueue_all size [] q h b c = c
  has_closed-enqueue_all size (x ∷ xs) q h b c =
      has_closed-enqueue_all size xs (enqueue size x q) h (length-enqueue size x q h b)
        (has_closed-enqueue size x q h b c)

  fits :
      (size : ℕ) (xs q : List (Item E))
      → 0 < size
      → length q + length xs ≤ size
      → enqueue_all size xs q ≡ q ++ xs
  unfolding enqueue_all
  fits size [] q h b = sym (append-nil q)
  fits size (x ∷ xs) q h b = rw (enqueue-room size x q (ground arith)) (
      fits size xs (q ++ x ∷ []) h (omega (arith, length-append q (x ∷ [])))
      ∙ append_assoc q (x ∷ []) xs)

  overflow :
      (size : ℕ) (xs q : List (Item E))
      → 0 < size
      → length q ≤ size
      → size < length q + length xs
      → has_closed (enqueue_all size xs q) ≡ true
  unfolding enqueue_all
  overflow size [] q h b o = absurd (omega arith)
  overflow size (x ∷ xs) q h b o = elim (Bool-cases (full size q)) [
    | inl f ↦
        has_closed-enqueue_all size xs (enqueue size x q) h (length-enqueue size x q h b)
          (rw (enqueue-full size x q h b f) (has_closed-snoc (drop_first q)))
    | inr f ↦
        overflow size xs (enqueue size x q) h (length-enqueue size x q h b)
          (rw (enqueue-room size x q f) (omega (arith, length-append q (x ∷ []))))
  ]

  -- A queue with a bound never passes it, whatever is delivered. While everything fits, the queue
  -- holds what was delivered, in order; when something does not fit, the queue holds the sentinel,
  -- and keeps it until the subscriber reads it.
  pub enqueue_all_lem :
      (size : ℕ) (xs q : List (Item E))
      → 0 < size
      → length q ≤ size
      → (length (enqueue_all size xs q) ≤ size)
        × (((length q + length xs ≤ size) × (enqueue_all size xs q ≡ q ++ xs))
            ⊎ ((size < length q + length xs) × (has_closed (enqueue_all size xs q) ≡ true)))
  enqueue_all_lem size xs q h b = (
    length-enqueue_all size xs q h b,
    elim (Bool-cases (leb (length q + length xs) size)) [
      | inl room ↦ let f = fitting (length q + length xs) size room in inl (f, fits size xs q h f)
      | inr over ↦
          let o = passing (length q + length xs) size over in inr (o, overflow size xs q h b o)
    ],
  )
