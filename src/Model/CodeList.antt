-- ===== src/Model/CodeList.antt =====
-- crates/mim-model/src/codelist.rs: the code lists and the values they allow.
use ainext_gen_c.Base.{
  ℕ, Bool, List, [], ◌∷◌, ◌++◌, Option, Text, text, text_eq, any, Result, ok, err, if◌then◌else◌,
}

pub data CodeListKind : Type 0 where
  complete_list extensible_list managed_list ordered_list : CodeListKind

pub record CodeValue : Type 0 where
  pub name : Text
  pub semantic_id : Text
  pub definition : Option Text
  pub order : Option ℕ
  pub lower_than : List Text

pub record CodeList : Type 0 where
  pub name : Text
  pub semantic_id : Text
  pub complete : Bool
  pub managed : Bool
  pub ordered : Bool
  pub definition : Option Text
  pub values : List CodeValue

-- `CodeList::kinds`
unfoldable pub kinds : CodeList → List CodeListKind
kinds l =
    (if l.complete then complete_list ∷ [] else extensible_list ∷ [])
    ++ (if l.managed then managed_list ∷ [] else [])
    ++ (if l.ordered then ordered_list ∷ [] else [])

-- `CodeList::contains_value`
unfoldable pub contains_value : CodeList → Text → Bool
contains_value l name = any (λ (v : CodeValue). text_eq v.name name) l.values

-- the message on a value outside a complete list
unfoldable pub outside_list : CodeList → Text → Text
outside_list l name =
    text "code value '" ++ name ++ text "' is not in complete code list '" ++ l.name ++ text "'"

-- `CodeList::validate_value`
unfoldable pub validate_value : CodeList → Text → Result Text (Unit {0})
validate_value l name =
    if contains_value l name then ok tt else if l.complete then err (outside_list l name) else ok tt
