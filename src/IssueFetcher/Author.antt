-- ===== src/IssueFetcher/Author.antt =====
-- `_label_added_by_rh_employee`: who added a label last. The pages of the changelog are read as one
-- list, and the order of times is that of their texts.
use Prim.Native.String.{compare, [] as nil, ◌∷◌ as ◌∷ᶜ◌}
use text.Mathlib.Text.{is_lt}
use ai_workflows.Common.{
  ℕ, String, Bool, false, ◌&&◌, ◌||◌, not, Option, none, some, List, [], ◌∷◌, any, contains, ◌==◌,
  eqb, if◌then◌else◌, is_space,
}
use ai_workflows.Effects.{Result, ok, raised, Exn, ExnKind}
use ai_workflows.IssueFetcher.Types.{Events, History, Services}

abbrev pub rh_employee_group : String
rh_employee_group = "Red Hat Employee"

abbrev pub cons_word : String → List String → List String
cons_word word words = if word == "" then words else word ∷ words

-- The word that has begun, and the words after it.
abbrev pub words_from : String → String × List String
words_from nil = ("", [])
words_from (c ∷ᶜ s) =
    let rest = words_from s in
    if is_space c then ("", cons_word rest.0 rest.1) else (c ∷ᶜ rest.0, rest.1)

-- `s.split()`
abbrev pub split : String → List String
split s = let (word, words) = words_from s in cons_word word words

abbrev pub later : String → String → Bool
later created latest = is_lt (compare latest created)

-- The first item on labels decides: whether it adds the label.
unfoldable pub adds_label : String → List (String × (String × String)) → Bool
adds_label label [] = false
adds_label label ((field, (from_string, to_string)) ∷ items) =
    let rest = adds_label label items in
    if field == "labels"
    then contains (split to_string) label && not (contains (split from_string) label)
    else rest

-- The time and the author of the latest addition so far.
unfoldable pub latest_add : String → List History → String × Option String → String × Option String
latest_add label [] latest = latest
latest_add label (h ∷ hs) latest =
    latest_add label hs (
      if adds_label label h.items && later h.created latest.0
      then (h.created, h.author)
      else latest)

abbrev pub is_rh_employee : List (Option String) → Bool
is_rh_employee groups = any named groups
  where
    named : Option String → Bool
    named none = false
    named (some name) = name == rh_employee_group

abbrev pub refused : Option ℕ → Bool
refused none = false
refused (some status) = eqb status 400 || eqb status 404

-- Errors of the request: a bad request and a missing page count as not added; ValueError and the
-- like too; all others are raised again.
unfoldable pub on_error : Services → Exn → Result Bool
on_error services e = elim e.kind [
  | ExnKind.http_error ↦ if refused (services.status_code e) then ok false else raised e
  | ExnKind.value_error ↦ ok false
  | ExnKind.key_error ↦ ok false
  | _ ↦ raised e
]

unfoldable pub judge : Services → Result (List (Option String)) → Result Bool
judge services (ok groups) = ok (is_rh_employee groups)
judge services (raised e) = on_error services e

unfoldable pub of_author : Services → Events → Option String → Result Bool
of_author services log none = ok false
of_author services log (some author) =
    if author == "" then ok false else judge services (services.user_groups log author)

unfoldable pub of_changelog : Services → Events → String → Result (List History) → Result Bool
of_changelog services log label (ok histories) =
    of_author services log (latest_add label histories ("", none)).1
of_changelog services log label (raised e) = on_error services e

unfoldable pub label_added_by_rh_employee : Services → Events → String → String → Result Bool
label_added_by_rh_employee services log issue_key label =
    of_changelog services log label (services.changelog log issue_key)
