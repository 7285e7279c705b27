-- ===== src/Security/Redaction.antt =====
-- What `redact_artifact` leaves of a value: an independent check of the result.
use thread_forge.Prelude.{
  String, ◌≡◌, refl, Bool, true, false, Option, none, some, inl, inr, Bool-cases, if◌then◌else◌,
  ◌==◌, ◌||◌, ◌&&◌, not,
}
use thread_forge.Json.{Json, Items, Fields, null, bool, num, text, arr, obj, nil, cons, end, field}
use thread_forge.Security.{
  Secrets, redacted, is_secret_key, redact_artifact, redact_items, redact_fields, redact_text,
}

abbrev is_redacted : Json → Bool
is_redacted (text s) = s == redacted
is_redacted _ = false

-- Every value under a name that sounds secret, at any depth, is the placeholder.
unfoldable mutual
  pub is_clean : Secrets → Json → Bool
  is_clean z null = true
  is_clean z (bool b) = true
  is_clean z (num n) = true
  is_clean z (text s) = true
  is_clean z (arr xs) = is_clean_items z xs
  is_clean z (obj fs) = is_clean_fields z fs

  pub is_clean_items : Secrets → Items → Bool
  is_clean_items z nil = true
  is_clean_items z (cons x xs) = is_clean z x && is_clean_items z xs

  pub is_clean_fields : Secrets → Fields → Bool
  is_clean_fields z end = true
  is_clean_fields z (field k v fs) =
      ((not (is_secret_key z (some k)) || is_redacted v) && is_clean z v) && is_clean_fields z fs

-- What a key asks of its value.
abbrev kept_secret : Secrets → Option String → Json → Bool
kept_secret z key v = (not (is_secret_key z key) || is_redacted v) && is_clean z v

hidden :
    (z : Secrets) (key : Option String) (v : Json)
    → is_clean z v ≡ true
    → kept_secret z key (if is_secret_key z key then text redacted else v) ≡ true
unfolding is_clean
hidden z key v h = elim (Bool-cases (is_secret_key z key)) [
  | inl s ↦ rw s refl
  | inr s ↦ rw (s, h) refl
]

both : (a b : Bool) → a ≡ true → b ≡ true → a && b ≡ true
both a b h k = rw (h, k) refl

second : (a b : Bool) → a && b ≡ true → b ≡ true
second true b h = h
second false b h = cc

mutual
  unfolding redact_artifact redact_items redact_fields is_clean is_clean_items is_clean_fields

  artifact-kept :
      (z : Secrets) (key : Option String) (v : Json)
      → kept_secret z key (redact_artifact z key v) ≡ true
  artifact-kept z key null = hidden z key null refl
  artifact-kept z key (bool b) = hidden z key (bool b) refl
  artifact-kept z key (num n) = hidden z key (num n) refl
  artifact-kept z key (text s) = hidden z key (text (redact_text z s)) refl
  artifact-kept z key (arr xs) = hidden z key (arr (redact_items z key xs)) (items-clean z key xs)
  artifact-kept z key (obj fs) = hidden z key (obj (redact_fields z fs)) (fields-clean z fs)

  items-clean :
      (z : Secrets) (key : Option String) (xs : Items)
      → is_clean_items z (redact_items z key xs) ≡ true
  items-clean z key nil = refl
  items-clean z key (cons x xs) =
      both _ _ (second _ _ (artifact-kept z key x)) (items-clean z key xs)

  fields-clean : (z : Secrets) (fs : Fields) → is_clean_fields z (redact_fields z fs) ≡ true
  fields-clean z end = refl
  fields-clean z (field k v fs) = both _ _ (artifact-kept z (some k) v) (fields-clean z fs)

-- A redacted artifact keeps no value under a name that sounds secret, at any depth: each is replaced
-- by the placeholder.
pub redact_artifact-clean : (z : Secrets) (v : Json) → is_clean z (redact_artifact z none v) ≡ true
redact_artifact-clean z v = second _ _ (artifact-kept z none v)
