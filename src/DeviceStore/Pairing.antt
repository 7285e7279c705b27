-- ===== src/DeviceStore/Pairing.antt =====
-- The life of a device's token: from its pairing to its revocation.
use thread_forge.Prelude.{
  String, ◌≡◌, refl, ap, sym, ◌∙◌, List, length, as_set, eqb, if◌then◌else◌, Bool, true, false,
  Option, none, some, [], ◌∷◌, ◌==◌, ◌&&◌, ◌||◌, not, ltb, Bool-cases, Option-cases, inl, inr,
  eq_refl, arith,
}
use mathlib.Core.Option.{some-injective}
use mathlib.Core.Path.{subst}
use thread_forge.Prelude.Dict.{Dict, get, put, remove, get-put_self}
use thread_forge.DeviceStore.{
  Device, System, Presence, Answer, update_presence, present, ids_of, ok, refused,
  authorization_denied, pair_or_reuse, paired, is_machine, find_machine, find_by_fingerprint,
  find_digest, authenticate, get_device, get_for_owner, revoke,
}

-- No device has the digest.
abbrev pub unused : String → Dict Device → Bool
unused digest [] = true
unused digest ((k, v) ∷ d) = not (v.token_digest == digest) && unused digest d

module _ (y : System) where
  find_digest-put :
      (digest : String) (d : Dict Device) (k : String) (v : Device)
      → unused digest d ≡ true
      → (v.token_digest == digest) ≡ true
      → find_digest y digest (put d k v) ≡ ok v
  unfolding find_digest put
  find_digest-put digest [] k v h e = rw e refl
  find_digest-put digest ((j, w) ∷ d) k v h e = ground (arith, find_digest-put digest d k v)

  find_digest-unused :
      (digest : String) (d : Dict Device) (k : String)
      → unused digest d ≡ true
      → find_digest y digest (remove d k) ≡ refused authorization_denied
  unfolding find_digest remove
  find_digest-unused digest [] k h = refl
  find_digest-unused digest ((j, w) ∷ d) k h = ground (arith, find_digest-unused digest d k)

  find_digest-remove :
      (digest : String) (d : Dict Device) (k : String) (v : Device)
      → unused digest d ≡ true
      → find_digest y digest (remove (put d k v) k) ≡ refused authorization_denied
  unfolding find_digest put remove
  find_digest-remove digest [] k v h = rw (eq_refl k) refl
  find_digest-remove digest ((j, w) ∷ d) k v h =
      ground (arith, find_digest-remove digest d k v, find_digest-unused digest d k, eq_refl k)

  find_machine-owner :
      (owner fingerprint : String) (d : Dict Device) (v : Device)
      → find_machine y owner fingerprint d ≡ some v
      → (v.owner_id == owner) ≡ true
  unfolding find_machine
  find_machine-owner owner fingerprint [] v h = cc
  find_machine-owner owner fingerprint ((k, w) ∷ d) v h =
      elim (Bool-cases (is_machine y owner fingerprint w)) [
        | inr o ↦ find_machine-owner owner fingerprint d v (rw o at h)
        | inl m ↦
            subst (λ (x : Device). (x.owner_id == owner) ≡ true) (some-injective _ _ (rw m at h))
              (ground (arith, m))
      ]

  paired-owner :
      (id token now owner name fingerprint : String) (d : Dict Device)
      → ((paired y id token now owner name fingerprint
            (find_by_fingerprint y owner fingerprint d)).owner_id
          == y.canonical_owner_id owner)
        ≡ true
  unfolding find_by_fingerprint
  paired-owner id token now owner name fingerprint d =
      elim (Bool-cases (y.strip fingerprint == "")) [
        | inl e ↦ rw e (eq_refl (y.canonical_owner_id owner))
        | inr e ↦
            elim (Option-cases
              (find_machine y (y.canonical_owner_id owner) (y.strip fingerprint) d)) [
                | inl n ↦ rw (e, n) (eq_refl (y.canonical_owner_id owner))
                | inr (v, f) ↦
                    rw (e, f)
                      (find_machine-owner (y.canonical_owner_id owner) (y.strip fingerprint) d v f)
              ]
      ]

  paired-digest :
      (id token now owner name fingerprint : String) (x : Option Device)
      → ((paired y id token now owner name fingerprint x).token_digest == y.token_digest token)
        ≡ true
  paired-digest id token now owner name fingerprint none = eq_refl (y.token_digest token)
  paired-digest id token now owner name fingerprint (some v) = eq_refl (y.token_digest token)

-- The id of the device that has the digest.
abbrev holder : String → Dict Device → Option String
holder digest [] = none
holder digest ((k, v) ∷ d) = if v.token_digest == digest then some v.device_id else holder digest d

-- The id of the device that an answer lets in.
abbrev pub let_in : Answer Device → Option String
let_in (refused e) = none
let_in (ok v) = some v.device_id

find_digest-holder :
    (y : System) (digest : String) (d : Dict Device)
    → let_in (find_digest y digest d) ≡ holder digest d
unfolding find_digest
find_digest-holder y digest [] = refl
find_digest-holder y digest ((k, v) ∷ d) = elim (Bool-cases (v.token_digest == digest)) [
  | inl e ↦ rw e refl
  | inr e ↦ rw e (find_digest-holder y digest d)
]

holder-put :
    (digest : String) (d : Dict Device) (k : String) (v w : Device)
    → get d k ≡ some v
    → w.token_digest ≡ v.token_digest
    → w.device_id ≡ v.device_id
    → holder digest (put d k w) ≡ holder digest d
unfolding get put
holder-put digest [] k v w h t i = cc
holder-put digest ((j, u) ∷ d) k v w h t i = elim (Bool-cases (j == k)) [
  | inr e ↦ rw e (
      ap (λ (x : Option String). if u.token_digest == digest then some u.device_id else x)
        (holder-put digest d k v w (rw e at h) t i))
  | inl e ↦
      let p : u ≡ v = some-injective _ _ (rw e at h) in
      rw (e, t, i)
        (ap (λ (x : Device). if x.token_digest == digest then some x.device_id else holder digest d)
          (sym p))
]

-- What workers report, in order: of which device, when, and what.
abbrev pub Report : Type 0
Report = String × String × Presence

abbrev pub update_all : System → List Report → Dict Device → Dict Device
update_all y [] d = d
update_all y ((device, now, p) ∷ rs) d = update_all y rs (update_presence y now device p d).1

update_presence-holder :
    (y : System) (digest device now : String) (p : Presence) (d : Dict Device)
    → holder digest (update_presence y now device p d).1 ≡ holder digest d
unfolding update_presence get_device
update_presence-holder y digest device now p d =
    elim (Bool-cases (
      ltb 100 (length p.workspaces)
      || not (eqb (length (as_set (ids_of y p.workspaces))) (length p.workspaces)))) [
        | inl bad ↦ rw bad refl
        | inr good ↦ elim (Bool-cases (y.is_device_id device)) [
          | inr other ↦ rw (good, other) refl
          | inl form ↦ elim (Option-cases (get d device)) [
            | inl gone ↦ rw (good, form, gone) refl
            | inr (v, stored) ↦
                rw (good, form, stored)
                  (holder-put digest d device v (present y now p v) stored refl refl)
          ]
        ]
      ]

update_all-holder :
    (y : System) (digest : String) (rs : List Report) (d : Dict Device)
    → holder digest (update_all y rs d) ≡ holder digest d
update_all-holder y digest [] d = refl
update_all-holder y digest ((device, now, p) ∷ rs) d =
    update_all-holder y digest rs (update_presence y now device p d).1
    ∙ update_presence-holder y digest device now p d

-- A pairing hands out a token that lets its device in, and lets it in after any reports of any
-- devices. If the owner revokes the device right after the pairing, he can, and the token is refused.
-- The token is one that can be used, its digest is no other device's, and the device's id has the form
-- of one.
pub pair_or_reuse-revoke :
    (y : System) (id token now owner name fingerprint : String) (d : Dict Device) (rs : List Report)
    → unused (y.token_digest token) d ≡ true
    → (token == "" || ltb 512 (y.size token)) ≡ false
    → y.is_ascii token ≡ true
    → y.is_device_id (pair_or_reuse y id token now owner name fingerprint d).0.device_id ≡ true
    → let (v, e) = pair_or_reuse y id token now owner name fingerprint d in
      (authenticate y token e ≡ ok v)
      × (let_in (authenticate y token (update_all y rs e)) ≡ some v.device_id)
      × ((revoke y v.device_id owner e).0 ≡ ok tt)
      × (authenticate y token (revoke y v.device_id owner e).1 ≡ refused authorization_denied)
unfolding pair_or_reuse authenticate revoke get_for_owner get_device
pair_or_reuse-revoke y id token now owner name fingerprint d rs h short ascii form =
    let v =
      paired y id token now owner name fingerprint (find_by_fingerprint y owner fingerprint d) in
    let digest = y.token_digest token in
    let own = paired-owner y id token now owner name fingerprint d in
    let there = get-put_self d v.device_id v in
    let e = put d v.device_id v in
    let enters = find_digest-put y digest d v.device_id v h (
      paired-digest y id token now owner name fingerprint
        (find_by_fingerprint y owner fingerprint d)) in
    (
      rw (short, ascii) enters,
      rw (short, ascii)
          (find_digest-holder y digest (update_all y rs e)
            ∙ update_all-holder y digest rs e
            ∙ sym (find_digest-holder y digest e)
            ∙ ap let_in enters),
      rw (form, there, own) refl,
      rw (form, there, own, short, ascii) (find_digest-remove y digest d v.device_id v h),
    )
