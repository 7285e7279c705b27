-- ===== src/Ids.antt =====
-- api-server/src/threadforge_api/infrastructure/id_validators.py: the ids that may become file names.
-- A pattern is a prefix and 32 hexadecimal digits.
use Prim.Native.Char.{code}
use thread_forge.Prelude.{
  ℕ, zero, suc, String, ◌≡◌, refl, Bool, true, false, if◌then◌else◌, ◌&&◌, ◌||◌, not, leb, eqb,
  arith, ◌⊎◌, inl, inr, Bool-cases,
}
use thread_forge.Domain.{session_not_found, task_not_found, run_not_found, approval_not_found}
use thread_forge.Control.{Control, Exec, ok, pure, raise}

-- [a-f0-9]
abbrev is_hex : ℕ → Bool
is_hex c = (leb b'a' c && leb c b'f') || (leb b'0' c && leb c b'9')

unfoldable pub hex_digits : ℕ → String → Bool
hex_digits zero String.[] = true
hex_digits zero (String.◌∷◌ c s) = false
hex_digits (suc n) String.[] = false
hex_digits (suc n) (String.◌∷◌ c s) = let rest = hex_digits n s in is_hex (code c) && rest

-- fullmatch, for the pattern with this prefix
unfoldable pub fullmatch : String → String → Bool
unfolding hex_digits
fullmatch String.[] s = hex_digits 32 s
fullmatch (String.◌∷◌ p ps) String.[] = false
fullmatch (String.◌∷◌ p ps) (String.◌∷◌ c s) =
    let rest = fullmatch ps s in eqb (code p) (code c) && rest

unfoldable pub validate_session_id : String → Exec (Unit {0})
validate_session_id id = if fullmatch "ses_" id then pure tt else raise session_not_found

unfoldable pub validate_task_id : String → Exec (Unit {0})
validate_task_id id = if fullmatch "task_" id then pure tt else raise task_not_found

unfoldable pub validate_run_id : String → Exec (Unit {0})
validate_run_id id = if fullmatch "run_" id then pure tt else raise run_not_found

unfoldable pub validate_approval_id : String → Exec (Unit {0})
validate_approval_id id = if fullmatch "apr_" id then pure tt else raise approval_not_found

-- No dot and no separator of either kind: the name stays in its directory.
abbrev is_safe : ℕ → Bool
is_safe c = not (eqb c b'.') && not (eqb c b'/') && not (eqb c b'\\')

unfoldable pub stays_inside : String → Bool
stays_inside String.[] = true
stays_inside (String.◌∷◌ c s) = let rest = stays_inside s in is_safe (code c) && rest

hex-safe : (c : ℕ) → is_hex c ≡ true → is_safe c ≡ true
hex-safe c h = ground arith

both : (a b : Bool) → a && b ≡ true → (a ≡ true) × (b ≡ true)
both true b h = (refl, h)
both false b h = cc

hex_digits-stays : (n : ℕ) (s : String) → hex_digits n s ≡ true → stays_inside s ≡ true
unfolding hex_digits stays_inside
hex_digits-stays zero String.[] h = refl
hex_digits-stays zero (String.◌∷◌ c s) h = cc
hex_digits-stays (suc n) String.[] h = cc
hex_digits-stays (suc n) (String.◌∷◌ c s) h =
    let (x, r) = both (is_hex (code c)) (hex_digits n s) h in
    rw (hex-safe (code c) x, hex_digits-stays n s r) refl

same_code : (a b : ℕ) → eqb a b ≡ true → is_safe a ≡ true → is_safe b ≡ true
same_code a b h s = ground arith

fullmatch-stays :
    (p s : String) → stays_inside p ≡ true → fullmatch p s ≡ true → stays_inside s ≡ true
unfolding fullmatch stays_inside
fullmatch-stays String.[] s clean h = hex_digits-stays 32 s h
fullmatch-stays (String.◌∷◌ p ps) String.[] clean h = refl
fullmatch-stays (String.◌∷◌ p ps) (String.◌∷◌ c s) clean h =
    let (x, r) = both (eqb (code p) (code c)) (fullmatch ps s) h in
    let (y, q) = both (is_safe (code p)) (stays_inside ps) clean in
    rw (same_code (code p) (code c) x y, fullmatch-stays ps s q r) refl

-- An id that one of the four validators lets through has no dot and no separator: as a file name it
-- stays in its directory.
pub validate-stays :
    (id : String) (c : Control)
    → ((validate_session_id id c).0 ≡ ok tt)
      ⊎ (((validate_task_id id c).0 ≡ ok tt)
          ⊎ (((validate_run_id id c).0 ≡ ok tt) ⊎ ((validate_approval_id id c).0 ≡ ok tt)))
    → stays_inside id ≡ true
unfolding validate_session_id validate_task_id validate_run_id validate_approval_id stays_inside
validate-stays id c (inl h) = elim (Bool-cases (fullmatch "ses_" id)) [
  | inl m ↦ fullmatch-stays "ses_" id refl m
  | inr m ↦ let h' = rw m at h in cc
]
validate-stays id c (inr (inl h)) = elim (Bool-cases (fullmatch "task_" id)) [
  | inl m ↦ fullmatch-stays "task_" id refl m
  | inr m ↦ let h' = rw m at h in cc
]
validate-stays id c (inr (inr (inl h))) = elim (Bool-cases (fullmatch "run_" id)) [
  | inl m ↦ fullmatch-stays "run_" id refl m
  | inr m ↦ let h' = rw m at h in cc
]
validate-stays id c (inr (inr (inr h))) = elim (Bool-cases (fullmatch "apr_" id)) [
  | inl m ↦ fullmatch-stays "apr_" id refl m
  | inr m ↦ let h' = rw m at h in cc
]
