-- ===== src/Supervisor/WorkQueue/Item/RoundTrip.antt =====
-- The text form of a work item can be read back.
use Prim.Native.String.{[] as nil, ◌∷◌ as ◌∷ᶜ◌}
use Prim.Native.Char.{Char, code}
use text.Mathlib.TextEquality.{Char-path}
use text.Mathlib.TextLemmas.{cons-append, nil-append}
use ai_workflows.Common.{
  String, ◌<>◌, some, Bool, true, ◌≡◌, refl, sym, ap, ◌∙◌, ◌&&◌, not, false, of_not-true, Option,
  none, inl, inr, if◌then◌else◌, eqb-eq, Bool-cases, eq_iff, ◌==◌, inl, inr,
}
use mathlib.Core.Option.{some-injective}
use ai_workflows.Effects.{Result, ok, raised}
use ai_workflows.Effects.Preserves.{ok-injective}
use ai_workflows.Supervisor.WorkQueue.Item.{
  WorkItemType, work_item_type_value, WorkItem, work_item_str, is_colon, longer, split_colon,
  work_item_type, with_data, of_parts, from_str,
}

abbrev no_colon : String → Bool
no_colon nil = true
no_colon (c ∷ᶜ s) = not (is_colon c) && no_colon s

and_both : (a b : Bool) → a && b ≡ true → (a ≡ true) × (b ≡ true)
and_both true b h = (refl, h)
and_both false b h = cc

split_colon-append :
    (p t : String) → no_colon p ≡ true → split_colon (p <> (":" <> t)) ≡ some (p, t)
split_colon-append nil t h = rw (nil-append, cons-append, nil-append) refl
split_colon-append (c ∷ᶜ p) t h =
    let plain = and_both (not (is_colon c)) (no_colon p) h in
    rw (cons-append, split_colon-append p t plain.1, of_not-true (is_colon c) plain.0) refl

from_str_of_text :
    (t : WorkItemType) (d : String)
    → from_str (work_item_str (record { item_type = t; item_data = d }))
      ≡ ok (record { item_type = t; item_data = d })
unfolding from_str work_item_str work_item_type_value work_item_type
from_str_of_text WorkItemType.process_issue d = rw (split_colon-append "process_issue" d refl) refl
from_str_of_text WorkItemType.process_erratum d =
    rw (split_colon-append "process_erratum" d refl) refl

-- `WorkItem.from_str` reads back the text of every work item, whatever its data holds.
pub from_str-work_item_str : (item : WorkItem) → from_str (work_item_str item) ≡ ok item
from_str-work_item_str item = from_str_of_text item.item_type item.item_data

-- The parts of a text that has a colon make up the text.
longer-some :
    (c : Char) (r : Option (String × String)) (p t : String)
    → longer c r ≡ some (p, t)
    → (q : String) × (r ≡ some (q, t)) × (p ≡ c ∷ᶜ q)
longer-some c none p t e = cc
longer-some c (some r) p t e =
    let parts = some-injective _ _ e in
    (r.0, ap (λ u. some (r.0, u)) (ap (λ x. x.1) parts), sym (ap (λ x. x.0) parts))

abbrev colon_char : Char
colon_char = ":"

is_colon-eq : (c : Char) → is_colon c ≡ true → c ≡ colon_char
is_colon-eq c h = Char-path c colon_char (eqb-eq (code c) 58 h)

at_colon :
    (c : Char) (s p t : String)
    → is_colon c ≡ true
    → Path (Option (String × String)) (some ("", s)) (some (p, t))
    → c ∷ᶜ s ≡ p <> (":" <> t)
at_colon c s p t colon e =
    let parts = some-injective _ _ e in
    rw
      (
        is_colon-eq c colon,
        sym (ap (λ x. x.0) parts),
        sym (ap (λ x. x.1) parts),
        nil-append,
        cons-append,
        nil-append,
      )
      refl

after_colon :
    (c : Char) (s p t : String)
    → ((q u : String) → split_colon s ≡ some (q, u) → s ≡ q <> (":" <> u))
    → longer c (split_colon s) ≡ some (p, t)
    → c ∷ᶜ s ≡ p <> (":" <> t)
after_colon c s p t rest e =
    let (q, found, p_is) = longer-some c (split_colon s) p t e in
    ap (λ u. c ∷ᶜ u) (rest q t found)
    ∙ sym (cons-append c q (":" <> t))
    ∙ ap (λ u. u <> (":" <> t)) (sym p_is)

split_colon-parts : (s p t : String) → split_colon s ≡ some (p, t) → s ≡ p <> (":" <> t)
split_colon-parts nil p t e = cc
split_colon-parts (c ∷ᶜ s) p t e = by_test (is_colon c) refl e (split_colon-parts s)
  where
    by_test :
        (b : Bool)
        → is_colon c ≡ b
        → (if b then some ("", s) else longer c (split_colon s)) ≡ some (p, t)
        → ((q u : String) → split_colon s ≡ some (q, u) → s ≡ q <> (":" <> u))
        → c ∷ᶜ s ≡ p <> (":" <> t)
    by_test true colon h rest = at_colon c s p t colon h
    by_test false other h rest = after_colon c s p t rest h

work_item_type-value :
    (s : String) (t : WorkItemType) → work_item_type s ≡ ok t → work_item_type_value t ≡ s
unfolding work_item_type work_item_type_value
work_item_type-value s t e = elim (Bool-cases (s == "process_issue")) [
  | inl same ↦ rw (sym (ok-injective (rw same at e))) (sym ((eq_iff _ _).0 same))
  | inr other ↦ elim (Bool-cases (s == "process_erratum")) [
    | inl same ↦ rw (sym (ok-injective (rw (other, same) at e))) (sym ((eq_iff _ _).0 same))
    | inr other2 ↦ let e' = rw (other, other2) at e in cc
  ]
]

of_parts-str :
    (s p d : String) (item : WorkItem)
    → s ≡ p <> (":" <> d)
    → with_data d (work_item_type p) ≡ ok item
    → work_item_str item ≡ s
unfolding work_item_str
of_parts-str s p d item parts e = by_type (work_item_type p) refl e
  where
    by_type :
        (r : Result WorkItemType)
        → work_item_type p ≡ r
        → with_data d r ≡ ok item
        → work_item_type_value item.item_type <> (":" <> item.item_data) ≡ s
    by_type (raised x) found h = cc
    by_type (ok t) found h = rw (sym (ok-injective h), work_item_type-value p t found, parts) refl

-- A text that `WorkItem.from_str` accepts is the text of the item that it gives.
pub work_item_str-from_str :
    (s : String) (item : WorkItem) → from_str s ≡ ok item → work_item_str item ≡ s
unfolding from_str
work_item_str-from_str s item e = by_parts (split_colon s) refl e
  where
    by_parts :
        (r : Option (String × String))
        → split_colon s ≡ r
        → of_parts r ≡ ok item
        → work_item_str item ≡ s
    by_parts none parts h = cc
    by_parts (some (p, d)) parts h = of_parts-str s p d item (split_colon-parts s p d parts) h
