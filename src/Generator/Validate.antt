-- ===== src/Generator/Validate.antt =====
-- The records of tools/src/validate.hpp, and the helpers of tools/src/validate.cpp.
pub mod Positive
pub mod Tuple
pub mod Branches
pub mod Parameters
pub mod Attributes
pub mod Scopes
pub mod Sound
use gentest.Base.{
  ℕ, ◌+◌, ◌-◌, ◌*◌, ◌/◌, Bool, true, false, not, ◌&&◌, ◌||◌, Option, none, some, List, [], ◌∷◌,
  ◌++◌, map, Bytes, codes, ◌==◌, ltb, bytes_eq, if◌then◌else◌, is_empty, length,
}
use gentest.Selector.Tags.{lower}

pub record TemplateBindingSet : Type 0 where
  pub param_name : Bytes
  pub candidates : List Bytes

pub record ParamSet : Type 0 where
  pub param_name : Bytes
  pub values : List Bytes

pub record RangeSpec : Type 0 where
  pub name : Bytes
  pub start : Bytes
  pub step : Bytes
  pub end : Bytes

pub record LinspaceSpec : Type 0 where
  pub name : Bytes
  pub start : Bytes
  pub end : Bytes
  pub count : Bytes

pub record GeomSpec : Type 0 where
  pub name : Bytes
  pub start : Bytes
  pub factor : Bytes
  pub count : Bytes

pub record LogspaceSpec : Type 0 where
  pub name : Bytes
  pub start_exp : Bytes
  pub end_exp : Bytes
  pub count : Bytes
  pub base : Bytes

pub record ParamPack : Type 0 where
  pub names : List Bytes
  pub rows : List (List Bytes)

pub record AttributeSummary : Type 0 where
  pub is_case : Bool
  pub case_name : Option Bytes
  pub tags : List Bytes
  pub requirements : List Bytes
  pub should_skip : Bool
  pub skip_reason : Bytes
  pub had_error : Bool
  pub is_benchmark : Bool
  pub is_jitter : Bool
  pub is_baseline : Bool
  pub items_per_call : ℕ
  pub template_sets : List TemplateBindingSet
  pub parameter_sets : List ParamSet
  pub parameter_ranges : List RangeSpec
  pub parameter_linspaces : List LinspaceSpec
  pub parameter_geoms : List GeomSpec
  pub parameter_logspaces : List LogspaceSpec
  pub param_packs : List ParamPack
  pub owner : Option Bytes

-- The summary, the local variables of `validate_attributes`, and the messages that `report` was
-- called with.
pub record Validation : Type 0 where
  pub summary : AttributeSummary
  pub saw_case : Bool
  pub saw_test : Bool
  pub saw_bench : Bool
  pub saw_jitter : Bool
  pub saw_items_per_call : Bool
  pub seen_flags : List Bytes
  pub seen_owner : Option Bytes
  pub reports : List Bytes

-- `summary.had_error = true` and a call of `report`.
unfoldable pub fail : Validation → Bytes → Validation
fail v message = record v {
  summary = record v.summary { had_error = true };
  reports = v.reports ++ message ∷ [];
}

-- std::tolower on each character, in the C locale.
abbrev pub lowered : Bytes → Bytes
lowered = map lower

-- Is the text in the list: std::ranges::find, and `contains` of a set.
unfoldable pub is_in : List Bytes → Bytes → Bool
unfolding bytes_eq
is_in [] value = false
is_in (x ∷ values) value = if bytes_eq x value then true else is_in values value

unfoldable pub add_unique : List Bytes → Bytes → List Bytes
unfolding is_in
add_unique values value = if is_in values value then values else values ++ value ∷ []

-- The arguments of an unknown attribute, in quotation marks and with commas between them.
unfoldable pub joined : List Bytes → Bytes
joined [] = []
joined (a ∷ []) = b'"' ∷ (a ++ b'"' ∷ [])
joined (a ∷ b ∷ arguments) = b'"' ∷ (a ++ codes "\", " ++ joined (b ∷ arguments))

-- The message on an attribute that a place does not know; `noun` names the attribute.
unfoldable pub unknown_message : Bytes → Bytes → List Bytes → Bytes
unfolding joined
unknown_message noun name [] = codes "unknown gentest " ++ noun ++ codes " '" ++ name ++ codes "'"
unknown_message noun name (a ∷ arguments) =
    codes "unknown gentest "
    ++ noun
    ++ codes " '"
    ++ name
    ++ codes "' with argument"
    ++ (if length (a ∷ arguments) == 1 then [] else codes "s")
    ++ codes " ("
    ++ joined (a ∷ arguments)
    ++ codes ")"
