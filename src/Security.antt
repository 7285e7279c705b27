-- ===== src/Security.antt =====
-- pico-legacy-runtime/pico/security.py: what is kept out of artifacts and of public events. The
-- environment's secret values, the longest first as `redact_text` sorts them, `str.upper` and
-- `str.replace` are in the record `Secrets`.
pub mod Redaction
use Prim.Native.String
use Prim.Native.String.{◌++◌ as append_text}
use thread_forge.Prelude.{
  ℕ, String, Bool, true, false, Option, none, some, List, [], ◌∷◌, if◌then◌else◌, ◌==◌, ◌||◌, ◌&&◌,
  not, contains,
}
use thread_forge.Json.{Json, Items, Fields, null, bool, num, text, arr, obj, nil, cons, end, field}

pub record Secrets : Type 0 where
  pub upper : String → String
  pub replace : String → String → String → String
  pub configured : List String
  pub values : List String

abbrev pub redacted : String
redacted = "<redacted>"

abbrev pub markers : List String
markers = "API_KEY" ∷ "TOKEN" ∷ "SECRET" ∷ "PASSWORD" ∷ []

-- str.endswith
unfoldable pub ends_with : String → String → Bool
ends_with String.[] suffix = suffix == ""
ends_with (String.◌∷◌ c s) suffix =
    let rest = ends_with s suffix in String.◌∷◌ c s == suffix || rest

unfoldable pub matches_marker : String → List String → Bool
unfolding ends_with
matches_marker upper [] = false
matches_marker upper (m ∷ ms) =
    upper == m
    || ends_with upper m
    || ends_with upper (append_text "_" m)
    || matches_marker upper ms

-- `is_secret_env_name`; the names in `configured` are in upper case.
unfoldable pub is_secret : Secrets → String → Bool
unfolding matches_marker
is_secret z name = contains (z.upper name) z.configured || matches_marker (z.upper name) markers

-- `key and is_secret_env_name(key)`
unfoldable pub is_secret_key : Secrets → Option String → Bool
unfolding is_secret
is_secret_key z none = false
is_secret_key z (some k) = if k == "" then false else is_secret z k

unfoldable pub replace_all : Secrets → List String → String → String
replace_all z [] s = s
replace_all z (v ∷ vs) s = replace_all z vs (z.replace s v redacted)

unfoldable pub redact_text : Secrets → String → String
unfolding replace_all
redact_text z s = replace_all z z.values s

abbrev hide : Secrets → Option String → Json → Json
hide z key v = if is_secret_key z key then text redacted else v

unfoldable mutual
  unfolding is_secret_key redact_text

  pub redact_artifact : Secrets → Option String → Json → Json
  redact_artifact z key null = hide z key null
  redact_artifact z key (bool b) = hide z key (bool b)
  redact_artifact z key (num n) = hide z key (num n)
  redact_artifact z key (text s) = hide z key (text (redact_text z s))
  redact_artifact z key (arr xs) = hide z key (arr (redact_items z key xs))
  redact_artifact z key (obj fs) = hide z key (obj (redact_fields z fs))

  pub redact_items : Secrets → Option String → Items → Items
  redact_items z key nil = nil
  redact_items z key (cons x xs) = cons (redact_artifact z key x) (redact_items z key xs)

  pub redact_fields : Secrets → Fields → Fields
  redact_fields z end = end
  redact_fields z (field k v fs) = field k (redact_artifact z (some k) v) (redact_fields z fs)
