-- ===== src/Pages.antt =====
-- src/page_builder/model.py: the records of a page and their `validate`.
pub mod Builder
pub mod Loading
mod Examples
use Prim.Native.Char.{code}
use Prim.Native.String.{String}
use tagro_echo_os.Base.{
  ℤ, pos, negsuc, ltb_ℤ, ℕ, zero, suc, Bool, true, false, not, ◌&&◌, ◌||◌, Option, none, some, List,
  [], ◌∷◌, any, ◌==◌, is_blank, is_empty, leb, nat_eq, Float, Result, ok, err, if◌then◌else◌,
}

-- The values of a JSON text, an object in the order of its keys.
mutual
  pub data Json : Type 0 where
    null : Json
    bool : Bool → Json
    number : ℤ → Json
    real : Float → Json
    text : String → Json
    array : Items → Json
    object : Fields → Json

  pub data Items : Type 0 where
    no_item : Items
    item : Json → Items → Items

  pub data Fields : Type 0 where
    no_field : Fields
    field : String → Json → Fields → Fields

-- The messages of the PageValidationErrors, and Python's own TypeError and ValueError.
pub data PageError : Type 0 where
  unsupported_mode invalid_path root_not_admitted unsupported_action target_characters
        owner_required invalid_component_id unsupported_kind component_width field_without_binding
        without_action invalid_page_id title_required version_positive columns_range duplicate_id
        component_not_object binding_not_object action_not_object type_error value_error :
      PageError

pub record DataBinding : Type 0 where
  pub path : String
  pub mode : String

pub record ActionSpec : Type 0 where
  pub kind : String
  pub target : String
  pub requires_owner : Bool
  pub consequential : Bool

pub record PageComponent : Type 0 where
  pub component_id : String
  pub kind : String
  pub label : String
  pub binding : Option DataBinding
  pub action : Option ActionSpec
  pub width : ℤ
  pub options : Fields

pub record PageDefinition : Type 0 where
  pub page_id : String
  pub title : String
  pub components : List PageComponent
  pub version : ℤ
  pub owner_edit_only : Bool
  pub responsive_columns : ℤ
  pub notes : String

is_lower : ℕ → Bool
is_lower c = leb 97 c && leb c 122

is_alnum : ℕ → Bool
unfolding is_lower
is_alnum c = is_lower c || (leb 65 c && leb c 90) || (leb 48 c && leb c 57)

-- A text of at most `n` characters that all pass a test.
all_within : ℕ → (ℕ → Bool) → String → Bool
all_within n p String.[] = true
all_within zero p (String.◌∷◌ c s) = false
all_within (suc n) p (String.◌∷◌ c s) = p (code c) && all_within n p s

-- `_SAFE_ROUTE`
unfoldable pub is_safe_route : String → Bool
unfolding is_empty all_within is_alnum
is_safe_route s =
    not (is_empty s)
    && all_within 300
        (λ c. is_alnum c || any (nat_eq c) (95 ∷ 46 ∷ 47 ∷ 63 ∷ 38 ∷ 61 ∷ 58 ∷ 37 ∷ 35 ∷ 45 ∷ [])) s

-- The segments of a binding path after the first, at most `n`, each of letters, digits, `_` and `-`. The
-- flag is set where the present segment has a character.
segments : ℕ → Bool → String → Bool
unfolding is_alnum
segments n filled String.[] = filled
segments zero filled (String.◌∷◌ c s) =
    let rest = segments zero true s in
    (is_alnum (code c) || nat_eq (code c) 95 || nat_eq (code c) 45) && rest
segments (suc n) filled (String.◌∷◌ c s) =
    let rest = segments (suc n) true s in
    let after = segments n false s in
    if nat_eq (code c) 46
    then filled && after
    else (is_alnum (code c) || nat_eq (code c) 95 || nat_eq (code c) 45) && rest

-- The first segment, of small letters, digits and `_`.
first_segment : String → Bool
unfolding is_lower segments
first_segment String.[] = true
first_segment (String.◌∷◌ c s) =
    let rest = first_segment s in
    let after = segments 7 false s in
    if nat_eq (code c) 46
    then after
    else (is_lower (code c) || (leb 48 (code c) && leb (code c) 57) || nat_eq (code c) 95) && rest

-- `_SAFE_BINDING`
unfoldable pub is_safe_binding : String → Bool
unfolding is_lower first_segment
is_safe_binding String.[] = false
is_safe_binding (String.◌∷◌ c s) = is_lower (code c) && first_segment s

-- `path.split(".", 1)[0]`
unfoldable pub root_of : String → String
root_of String.[] = ""
root_of (String.◌∷◌ c s) =
    let rest = root_of s in if nat_eq (code c) 46 then "" else String.◌∷◌ c rest

-- The pattern of a component id.
unfoldable pub is_component_id : String → Bool
unfolding is_alnum all_within
is_component_id String.[] = false
is_component_id (String.◌∷◌ c s) =
    (is_alnum (code c) && not (leb 48 (code c) && leb (code c) 57))
    && all_within 63 (λ d. is_alnum d || nat_eq d 95 || nat_eq d 45) s

-- The pattern of a page id.
unfoldable pub is_page_id : String → Bool
unfolding is_lower all_within is_empty
is_page_id String.[] = false
is_page_id (String.◌∷◌ c s) =
    is_lower (code c)
    && not (is_empty s)
    && all_within 63 (λ d. is_lower d || (leb 48 d && leb d 57) || nat_eq d 45) s

-- `x in {...}`
abbrev one_of : List String → String → Bool
one_of xs x = any (λ y. y == x) xs

-- `x in {1, 2, 3, 4}`
unfoldable pub one_to_four : ℤ → Bool
one_to_four (pos n) = leb 1 n && leb n 4
one_to_four (negsuc n) = false

-- `DataBinding.validate`
unfoldable pub validate_binding : DataBinding → Result PageError Unit
unfolding any is_safe_binding root_of
validate_binding b =
    if not (one_of ("read" ∷ "input" ∷ []) b.mode)
    then err unsupported_mode
    else if not (is_safe_binding b.path)
    then err invalid_path
    else if not (
        one_of
          ("context" ∷ "customer" ∷ "product" ∷ "stock" ∷ "service" ∷ "financial" ∷ "document"
            ∷ "local" ∷ [])
          (root_of b.path))
    then err root_not_admitted
    else ok tt

-- `ActionSpec.validate`
unfoldable pub validate_action : ActionSpec → Result PageError Unit
unfolding any is_safe_route
validate_action a =
    if not
      (one_of ("navigate" ∷ "open_form" ∷ "submit" ∷ "refresh" ∷ "export" ∷ "filter" ∷ []) a.kind)
    then err unsupported_action
    else if not (is_safe_route a.target)
    then err target_characters
    else if a.consequential && not a.requires_owner
    then err owner_required
    else ok tt

-- `if x: x.validate()`
abbrev pub validate_given :
    {A : Type 0} → (A → Result PageError Unit) → Option A → Result PageError Unit
validate_given f none = ok tt
validate_given f (some x) = f x

infixl 5 ◌and_then◌
abbrev pub ◌and_then◌ :
    {A : Type 0} → Result PageError Unit → Result PageError A → Result PageError A
ok _ and_then r = r
err e and_then r = err e

abbrev is_none : {A : Type 0} → Option A → Bool
is_none none = true
is_none (some _) = false

-- `PageComponent.validate`
unfoldable pub validate_component : PageComponent → Result PageError Unit
unfolding any is_component_id one_to_four validate_binding validate_action
validate_component c =
    (if not (is_component_id c.component_id)
      then err invalid_component_id
      else if not (
          one_of
            ("tile" ∷ "button" ∷ "field" ∷ "list" ∷ "table" ∷ "chart" ∷ "link" ∷ "text" ∷ "heading"
              ∷ "status" ∷ [])
            c.kind)
      then err unsupported_kind
      else if not (one_to_four c.width)
      then err component_width
      else ok tt)
    and_then validate_given validate_binding c.binding
    and_then validate_given validate_action c.action
    and_then (if c.kind == "field" && is_none c.binding
        then err field_without_binding
        else if one_of ("button" ∷ "link" ∷ []) c.kind && is_none c.action
        then err without_action
        else ok tt)

-- The loop over the components, with the ids that were seen.
unfoldable pub validate_components : List String → List PageComponent → Result PageError Unit
unfolding any validate_component
validate_components seen [] = ok tt
validate_components seen (c ∷ cs) =
    let rest = validate_components (c.component_id ∷ seen) cs in
    validate_component c and_then (if one_of seen c.component_id then err duplicate_id else rest)

-- `PageDefinition.validate`
unfoldable pub validate_page : PageDefinition → Result PageError Unit
unfolding is_page_id is_blank one_to_four validate_components
validate_page p =
    if not (is_page_id p.page_id)
    then err invalid_page_id
    else if is_blank p.title
    then err title_required
    else if ltb_ℤ p.version (pos 1)
    then err version_positive
    else if not (one_to_four p.responsive_columns)
    then err columns_range
    else validate_components [] p.components
