-- ===== src/Supervisor/WorkQueue/Item.antt =====
-- `WorkItem` and its text form.
pub mod RoundTrip
use Prim.Native.String.{[] as nil, ◌∷◌ as ◌∷ᶜ◌}
use Prim.Native.Char.{Char, code}
use ai_workflows.Common.{
  String, ◌<>◌, Option, none, some, Bool, true, false, eqb, ◌==◌, if◌then◌else◌,
}
use ai_workflows.Effects.{Result, ok, raised, exn, value_error}

pub data WorkItemType : Type 0 where
  process_issue process_erratum : WorkItemType

unfoldable pub work_item_type_value : WorkItemType → String
work_item_type_value WorkItemType.process_issue = "process_issue"
work_item_type_value WorkItemType.process_erratum = "process_erratum"

pub record WorkItem : Type 0 where
  pub item_type : WorkItemType
  pub item_data : String

-- `str(item)`
unfoldable pub work_item_str : WorkItem → String
unfolding work_item_type_value
work_item_str item = work_item_type_value item.item_type <> (":" <> item.item_data)

abbrev pub is_colon : Char → Bool
is_colon c = eqb (code c) 58

abbrev pub longer : Char → Option (String × String) → Option (String × String)
longer c none = none
longer c (some p) = some (c ∷ᶜ p.0, p.1)

-- `s.split(":", 1)`: the parts before and after the first colon, if there is one
abbrev pub split_colon : String → Option (String × String)
split_colon nil = none
split_colon (c ∷ᶜ s) =
    let rest = split_colon s in if is_colon c then some ("", s) else longer c rest

-- `WorkItemType(s)`
unfoldable pub work_item_type : String → Result WorkItemType
work_item_type s =
    if s == "process_issue"
    then ok WorkItemType.process_issue
    else (if s == "process_erratum"
        then ok WorkItemType.process_erratum
        else raised (exn value_error s))

abbrev pub with_data : String → Result WorkItemType → Result WorkItem
with_data data' (ok t) = ok (record { item_type = t; item_data = data' })
with_data data' (raised e) = raised e

abbrev pub of_parts : Option (String × String) → Result WorkItem
of_parts none = raised (exn value_error "not enough values to unpack")
of_parts (some p) = with_data p.1 (work_item_type p.0)

unfoldable pub from_str : String → Result WorkItem
from_str item_str = of_parts (split_colon item_str)
