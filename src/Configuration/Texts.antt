-- ===== src/Configuration/Texts.antt =====
-- The lists of src/config.ts: `csvSet`, and the checks on texts.
use catfee_io.Base.{
  ℕ, zero, suc, Bool, true, false, not, List, [], ◌∷◌, ◌==◌, ◌&&◌, ◌||◌, if◌then◌else◌,
}
use catfee_io.Store.{Text}
use catfee_io.Table.{select_all}
use catfee_io.Base.Strings.{lower_case, trim_start, trim_end, is_digit, is_between}
use catfee_io.Providers.Settle.{same_text}

-- `value.split(",")`
unfoldable pub split : Text → List Text
split [] = [] ∷ []
split (c ∷ cs) = elim (split cs) [
  | [] ↦ (c ∷ []) ∷ []
  | part ∷ parts ↦ if c == 44 then [] ∷ part ∷ parts else (c ∷ part) ∷ parts
]

-- `new Set(values)`, as the list of its elements in the order of their insertion.
unfoldable pub distinct {ℓ} : {A : Type ℓ} → (A → A → Bool) → List A → List A
distinct same [] = []
distinct same (a ∷ rest) = a ∷ select_all (λ b. not (same a b)) (distinct same rest)

abbrev pub is_filled_text : Text → Bool
is_filled_text [] = false
is_filled_text (c ∷ cs) = true

unfoldable pub trimmed : List Text → List Text
trimmed [] = []
trimmed (t ∷ ts) =
    let rest = trimmed ts in
    let entry = trim_end (trim_start t) in if is_filled_text entry then entry ∷ rest else rest

unfoldable pub csv_set : Text → List Text
unfolding split trimmed distinct
csv_set value = distinct same_text (trimmed (split value))

-- `[0-9a-f]`, and `[0-9a-fA-F]`
abbrev pub is_lower_hex : ℕ → Bool
is_lower_hex c = is_digit c || is_between 97 102 c

abbrev pub is_hex : ℕ → Bool
is_hex c = is_lower_hex c || is_between 65 70 c

abbrev pub is_base64 : ℕ → Bool
is_base64 c = is_between 65 90 c || is_between 97 122 c || is_digit c || c == 43 || c == 47

-- Whether exactly so many code units come, all of a class.
unfoldable pub is_run : (ℕ → Bool) → ℕ → Text → Bool
is_run p zero [] = true
is_run p (suc n) (c ∷ cs) = p c && is_run p n cs
is_run p _ _ = false

-- `/^[A-Za-z0-9+\/]{43}=$/`
unfoldable pub is_padded_run : ℕ → Text → Bool
is_padded_run zero (c ∷ []) = c == 61
is_padded_run (suc n) (c ∷ cs) = is_base64 c && is_padded_run n cs
is_padded_run _ _ = false

unfoldable pub lower_cases : List Text → List Text
lower_cases [] = []
lower_cases (t ∷ ts) = lower_case t ∷ lower_cases ts

-- `/^[0-9a-f]{8}$/`
abbrev pub is_selector : Text → Bool
is_selector t = is_run is_lower_hex 8 t
