-- ===== src/OneUse.antt =====
-- The short-lived stores of the API server whose entries are used once: `PairingCodeStore` of
-- infrastructure/device_store.py and `OAuthAttemptStore` of infrastructure/auth.py, which are the
-- same but for what they keep. The code or state (`secrets`), made upper case and stripped by the
-- caller, and the time are arguments. The limit is not 0 in either.
use thread_forge.Prelude.{
  ℕ, ◌+◌, ◌≤◌, ◌<◌, String, ◌≡◌, refl, Option, none, some, [], ◌∷◌, if◌then◌else◌, leb, length,
  arith, eq_iff, Bool-cases, inl, inr,
}
use thread_forge.Prelude.Dict.{Dict, get, put, remove, get-remove_self, length-put-le}

-- An owner or a verifier, and the time at which it is too late.
pub record Entry (A : Type 0) : Type 0 where
  pub item : A
  pub expires_at : ℕ

abbrev item_of : {A : Type 0} → Option (Entry A) → Option A
item_of none = none
item_of (some e) = some e.item

module _ {A : Type 0} where
  -- `_purge`
  unfoldable pub purge : ℕ → Dict (Entry A) → Dict (Entry A)
  purge now [] = []
  purge now ((k, e) ∷ d) =
      let rest = purge now d in if leb e.expires_at now then rest else (k, e) ∷ rest

  -- The `while` of `create`: the oldest entries make room.
  unfoldable pub evict : ℕ → Dict (Entry A) → Dict (Entry A)
  evict limit [] = []
  evict limit (x ∷ d) =
      let rest = evict limit d in if leb limit (length (x ∷ d)) then rest else x ∷ d

  unfoldable pub create_entry : ℕ → ℕ → ℕ → String → A → Dict (Entry A) → Dict (Entry A)
  create_entry ttl limit now key a d =
      put (evict limit (purge now d)) key (record { item = a; expires_at = now + ttl })

  -- `none` is the error.
  unfoldable pub consume : ℕ → String → Dict (Entry A) → Option A × Dict (Entry A)
  consume now key d = let live = purge now d in (item_of (get live key), remove live key)

  purge-absent :
      (now : ℕ) (d : Dict (Entry A)) (k : String) → get d k ≡ none → get (purge now d) k ≡ none
  unfolding purge get
  purge-absent now [] k h = refl
  purge-absent now ((j, e) ∷ d) k h = ground (arith, purge-absent now d k)

  evict-absent :
      (limit : ℕ) (d : Dict (Entry A)) (k : String) → get d k ≡ none → get (evict limit d) k ≡ none
  unfolding evict get
  evict-absent limit [] k h = refl
  evict-absent limit ((j, e) ∷ d) k h = ground (arith, evict-absent limit d k)

  length-evict : (limit : ℕ) (d : Dict (Entry A)) → 0 < limit → length (evict limit d) < limit
  unfolding evict
  length-evict limit [] h = omega arith
  length-evict limit (x ∷ d) h = ground (arith, length-evict limit d h)

  get-purge-put :
      (now : ℕ) (d : Dict (Entry A)) (k : String) (e : Entry A)
      → get d k ≡ none
      → get (purge now (put d k e)) k ≡ (if leb e.expires_at now then none else some e)
  unfolding purge get put
  get-purge-put now [] k e h = ground (arith, eq_iff k k)
  get-purge-put now ((j, f) ∷ d) k e h = ground (arith, get-purge-put now d k e)

  -- What is created under a new code is handed out to that code until it is too late, and then not.
  pub create-consume :
      (ttl limit now later : ℕ) (key : String) (a : A) (d : Dict (Entry A))
      → get d key ≡ none
      → (consume later key (create_entry ttl limit now key a d)).0
        ≡ (if leb (now + ttl) later then none else some a)
  unfolding consume create_entry
  create-consume ttl limit now later key a d h =
      let absent = evict-absent limit (purge now d) key (purge-absent now d key h) in
      rw
        (get-purge-put later (evict limit (purge now d)) key
          (record { item = a; expires_at = now + ttl }) absent)
        (elim (Bool-cases (leb (now + ttl) later)) [
          | inl over ↦ rw over refl
          | inr live ↦ rw live refl
        ])

  -- A code is used once: whatever it was and whenever it is tried again, it is refused.
  pub consume-once :
      (now later : ℕ) (key : String) (d : Dict (Entry A))
      → (consume later key (consume now key d).1).0 ≡ none
  unfolding consume
  consume-once now later key d =
      rw (purge-absent later (remove (purge now d) key) key (get-remove_self (purge now d) key))
        refl

  -- The store never holds more than its limit after an entry is made.
  pub create-bounded :
      (ttl limit now : ℕ) (key : String) (a : A) (d : Dict (Entry A))
      → 0 < limit
      → length (create_entry ttl limit now key a d) ≤ limit
  unfolding create_entry
  create-bounded ttl limit now key a d h = omega (
    arith,
    length-evict limit (purge now d) h,
    length-put-le (evict limit (purge now d)) key (record { item = a; expires_at = now + ttl }),
  )
