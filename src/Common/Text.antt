-- ===== src/Common/Text.antt =====
-- Text: decimal digits, and Python's truth value of an optional string.
use Prim.Native.Nat.{ℕ, zero, suc, ◌+◌, ◌-◌, ◌*◌, ◌/◌, ◌%◌}
use Prim.Native.Char.{Char, code}
use Prim.Native.String.{String, ◌++◌ as ◌<>◌, [] as nil, ◌∷◌ as ◌∷ᶜ◌, char_at}
use mathlib.Core.Bool.{Bool, false, not, ◌&&◌, ◌||◌}
use mathlib.Core.Option.{Option, none, some}
use mathlib.Core.List.{List, [], ◌∷◌, map}
use text.Mathlib.Text.{◌==◌, find?}
use text.Mathlib.TextEquality.{eq_iff}
use mathlib.Core.Path.{◌≡◌}
use mathlib.Core.Logic.{◌≢◌, ◌⊎◌, inl, inr}
use ai_workflows.Common.Tests.{is_some, ltb, leb, eqb, if◌then◌else◌, Bool-cases}

abbrev digit : ℕ → String
digit zero = "0"
digit (suc zero) = "1"
digit (suc (suc zero)) = "2"
digit (suc (suc (suc zero))) = "3"
digit (suc (suc (suc (suc zero)))) = "4"
digit (suc (suc (suc (suc (suc zero))))) = "5"
digit (suc (suc (suc (suc (suc (suc zero)))))) = "6"
digit (suc (suc (suc (suc (suc (suc (suc zero))))))) = "7"
digit (suc (suc (suc (suc (suc (suc (suc (suc zero)))))))) = "8"
digit _ = "9"

-- A number has fewer digits than its successor counts, so the fuel `n + 1` is enough.
digits_of : ℕ → ℕ → String
digits_of zero n = ""
digits_of (suc fuel) n =
    let front = digits_of fuel (n / 10) in if ltb n 10 then digit n else front <> digit (n % 10)

-- `str(n)`
unfoldable pub to_str : ℕ → String
unfolding digits_of
to_str n = digits_of (suc n) n

-- `bool(s)` for a string, and for one that may be `None`
abbrev pub non_empty : String → Bool
non_empty s = not (s == "")

abbrev pub truthy : Option String → Bool
truthy none = false
truthy (some s) = non_empty s

-- `s or d`
abbrev pub text_or : Option String → String → String
text_or none d = d
text_or (some s) d = if s == "" then d else s

-- `sep.join(parts)`
abbrev pub join : String → List String → String
join sep [] = ""
join sep (s ∷ []) = s
join sep (s ∷ t ∷ ts) = s <> (sep <> join sep (t ∷ ts))

-- `str(parts)` of a list of texts with no character that Python's `repr` escapes
abbrev pub list_text : List String → String
list_text parts = "[" <> (join ", " (map (λ l. "'" <> (l <> "'")) parts) <> "]")

-- Two texts are the same or not.
pub String-cases : (a b : String) → (a ≡ b) ⊎ (a ≢ b)
String-cases a b = elim (Bool-cases (a == b)) [
  | inl same ↦ inl ((eq_iff a b).0 same)
  | inr other ↦ inr (λ e. let same = (eq_iff a b).1 e in cc)
]

pub differ : (a b : String) → a ≢ b → a == b ≡ false
differ a b h = elim (Bool-cases (a == b)) [
  | inl same ↦ absurd (h ((eq_iff a b).0 same))
  | inr other ↦ other
]

-- The letters of ASCII in lower and in upper case: `s.lower()` and `s.upper()` of such a text.
abbrev pub between : ℕ → ℕ → Char → Bool
between low high c = leb low (code c) && leb (code c) high

abbrev pub lower_char : Char → Char
lower_char c = if between 65 90 c then char_at "abcdefghijklmnopqrstuvwxyz" (code c - 65) else c

abbrev pub upper_char : Char → Char
upper_char c = if between 97 122 c then char_at "ABCDEFGHIJKLMNOPQRSTUVWXYZ" (code c - 97) else c

abbrev pub lower : String → String
lower nil = nil
lower (c ∷ᶜ s) = lower_char c ∷ᶜ lower s

abbrev pub upper : String → String
upper nil = nil
upper (c ∷ᶜ s) = upper_char c ∷ᶜ upper s

-- A digit of ASCII
abbrev pub is_digit : Char → Bool
is_digit c = between 48 57 c

-- What follows a text at the front of another, if it stands there.
abbrev pub after_prefix : String → String → Option String
after_prefix nil s = some s
after_prefix (c ∷ᶜ p) nil = none
after_prefix (c ∷ᶜ p) (d ∷ᶜ s) =
    let rest = after_prefix p s in if eqb (code c) (code d) then rest else none

abbrev pub has_suffix : String → String → Bool
has_suffix nil p = "" == p
has_suffix (c ∷ᶜ s) p = (c ∷ᶜ s) == p || has_suffix s p

-- `int(s)` of a text of digits
abbrev pub number_from : ℕ → String → ℕ
number_from n nil = n
number_from n (c ∷ᶜ s) = number_from (n * 10 + (code c - 48)) s

abbrev pub int : String → ℕ
int s = number_from 0 s

-- `p in s`
abbrev pub contains_text : String → String → Bool
contains_text s p = is_some (find? s p)

-- The whitespace of ASCII, and the newline, which `.` of a regular expression does not match.
abbrev pub is_space : Char → Bool
is_space c = eqb (code c) 32 || between 9 13 c || between 28 31 c

abbrev pub is_newline : Char → Bool
is_newline c = eqb (code c) 10
