-- ===== src/Plan/Texts.antt =====
-- `_bounded_text`, `_string_list` and the pattern of plan and step ids.
use Prim.Native.Char.{code}
use Prim.Native.String.{◌++◌ as append_text}
use thread_forge.Prelude.{
  ℕ, zero, suc, String, Bool, true, false, List, [], ◌∷◌, ◌++◌, leb, eqb, ◌==◌, ◌||◌, ◌&&◌, not,
  if◌then◌else◌, contains,
}
use thread_forge.Json.{Json, Items, text, arr, nil, cons}
use thread_forge.Plan.{Checked, valid, invalid, ◌>>=◌}

-- len(s)
unfoldable pub text_length : String → ℕ
text_length String.[] = 0
text_length (String.◌∷◌ c s) = suc (text_length s)

abbrev is_letter : ℕ → Bool
is_letter c = (leb b'a' c && leb c b'z') || (leb b'A' c && leb c b'Z')

abbrev is_id_character : ℕ → Bool
is_id_character c =
    is_letter c || (leb b'0' c && leb c b'9') || eqb c b'_' || eqb c b'.' || eqb c b'-'

-- [A-Za-z0-9_.-]{0,n}
unfoldable pub id_rest : ℕ → String → Bool
id_rest n String.[] = true
id_rest zero (String.◌∷◌ c s) = false
id_rest (suc n) (String.◌∷◌ c s) = let rest = id_rest n s in is_id_character (code c) && rest

-- PLAN_ID_PATTERN.fullmatch
unfoldable pub is_plan_id : String → Bool
unfolding id_rest
is_plan_id String.[] = false
is_plan_id (String.◌∷◌ c s) = let rest = id_rest 63 s in is_letter (code c) && rest

-- plan_{field}_invalid
abbrev pub invalid_code : String → String
invalid_code name = append_text "plan_" (append_text name "_invalid")

abbrev pub items_count : Items → ℕ
items_count nil = 0
items_count (cons x xs) = suc (items_count xs)

module _ (strip : String → String) where
  unfoldable pub bounded_text : Json → String → ℕ → Checked String
  bounded_text (text s) name maximum =
      if strip s == "" || not (leb (text_length (strip s)) maximum)
      then invalid (invalid_code name)
      else valid (strip s)
  bounded_text _ name maximum = invalid (invalid_code name)

  -- The loop of `_string_list`, with the result so far.
  unfoldable pub collect : String → Items → List String → Checked (List String)
  unfolding bounded_text
  collect name nil found = valid found
  collect name (cons x xs) found = do
    t ← bounded_text x name 300
    collect name xs (if contains t found then found else found ++ t ∷ [])

  abbrev as_list : Json → Json
  as_list (text s) = arr (cons (text s) nil)
  as_list v = v

  abbrev limited : ℕ → String → Json → Checked (List String)
  limited maximum name (arr xs) =
      if leb (items_count xs) maximum then collect name xs [] else invalid (invalid_code name)
  limited maximum name _ = invalid (invalid_code name)

  unfoldable pub string_list : Json → String → ℕ → Checked (List String)
  unfolding collect
  string_list v name maximum = limited maximum name (as_list v)
