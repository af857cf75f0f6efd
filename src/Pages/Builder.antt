-- ===== src/Pages/Builder.antt =====
-- src/page_builder/model.py: `class PageBuilder` but for `render_html`, and `asdict` of a page. The argument `py`
-- is what Python's `str`, `int` and `dict` make of values that no page definition holds in that place.
use tagro_echo_os.Base.{
  ℤ, pos, magnitude, with_sign, ◌/◌, ◌^◌, String, Bool, true, false, not, Option, none, some, List,
  [], ◌∷◌, ◌==◌, is_empty, nat_eq, Result, ok, err, if◌then◌else◌,
}
use tagro_echo_os.Pages.{
  Json, null, bool, number, real, text, array, object, Items, no_item, item, Fields, no_field,
  field, PageError, component_not_object, binding_not_object, action_not_object, type_error,
  value_error, DataBinding, ActionSpec, PageComponent, PageDefinition, validate_page, ◌and_then◌,
}

pub record Python : Type 0 where
  -- `str(x)` of a value that is no text
  pub str_of : Json → String
  -- `int(s)` of a text, `none` for a ValueError
  pub int_of_text : String → Option ℤ
  -- `dict(x)` of a value that is no object
  pub dict_of : Json → Result PageError Fields

-- `d.get(k)`
unfoldable pub get : String → Fields → Option Json
get k no_field = none
get k (field j v d) = let rest = get k d in if j == k then some v else rest

-- `bool(x)`
unfoldable pub truthy_json : Json → Bool
unfolding is_empty
truthy_json null = false
truthy_json (bool b) = b
truthy_json (number z) = not (nat_eq (magnitude z) 0)
truthy_json (real x) = not (nat_eq (magnitude x.units) 0)
truthy_json (text s) = not (is_empty s)
truthy_json (array no_item) = false
truthy_json (array (item _ _)) = true
truthy_json (object no_field) = false
truthy_json (object (field _ _ _)) = true

-- `str(d.get(k, default))`
unfoldable pub str_at : Python → Option Json → String → String
str_at py none default = default
str_at py (some (text s)) default = s
str_at py (some v) default = py.str_of v

-- `int(d.get(k, default))`
unfoldable pub int_at : Python → Option Json → ℤ → Result PageError ℤ
int_at py none default = ok default
int_at py (some (number z)) default = ok z
int_at py (some (bool b)) default = ok (pos (if b then 1 else 0))
int_at py (some (real x)) default = ok (with_sign x.units (magnitude x.units / 2 ^ 1074))
int_at py (some (text s)) default = elim (py.int_of_text s) [
  | none ↦ err value_error
  | some z ↦ ok z
]
int_at py (some _) default = err type_error

-- `bool(d.get(k, default))`
unfoldable pub bool_at : Option Json → Bool → Bool
unfolding truthy_json
bool_at none default = default
bool_at (some v) default = truthy_json v

-- `dict(d.get("options", {}) or {})`
unfoldable pub options_at : Python → Option Json → Result PageError Fields
unfolding truthy_json
options_at py none = ok no_field
options_at py (some (object d)) = ok d
options_at py (some v) = let r = py.dict_of v in if truthy_json v then r else ok no_field

unfoldable pub binding_from : Python → Option Json → Result PageError (Option DataBinding)
unfolding truthy_json get str_at
binding_from py none = ok none
binding_from py (some (object d)) =
    if truthy_json (object d)
    then ok (
        some
          (record { path = str_at py (get "path" d) ""; mode = str_at py (get "mode" d) "read" }))
    else ok none
binding_from py (some v) = if truthy_json v then err binding_not_object else ok none

unfoldable pub action_from : Python → Option Json → Result PageError (Option ActionSpec)
unfolding truthy_json get str_at bool_at
action_from py none = ok none
action_from py (some (object d)) =
    if truthy_json (object d)
    then ok (
        some (record {
          kind = str_at py (get "kind" d) "";
          target = str_at py (get "target" d) "";
          requires_owner = bool_at (get "requires_owner" d) false;
          consequential = bool_at (get "consequential" d) false;
        }))
    else ok none
action_from py (some v) = if truthy_json v then err action_not_object else ok none

infixl 5 ◌bind◌
abbrev pub ◌bind◌ :
    {A B : Type 0} → Result PageError A → (A → Result PageError B) → Result PageError B
ok a bind f = f a
err e bind f = err e

-- One round of the loop over `components`.
unfoldable pub component_from : Python → Json → Result PageError PageComponent
unfolding get binding_from action_from str_at int_at options_at
component_from py (object d) = binding_from py (get "binding" d) bind λ binding.
    action_from py (get "action" d) bind λ action. int_at py (get "width" d) (pos 1) bind λ width.
    options_at py (get "options" d) bind λ options. ok (record {
      component_id = str_at py (get "component_id" d) "";
      kind = str_at py (get "kind" d) "";
      label = str_at py (get "label" d) "";
      binding = binding;
      action = action;
      width = width;
      options = options;
    })
component_from py _ = err component_not_object

unfoldable pub components_from : Python → Items → Result PageError (List PageComponent)
unfolding component_from
components_from py no_item = ok []
components_from py (item v vs) =
    let rest = components_from py vs in component_from py v bind λ c. rest bind λ cs. ok (c ∷ cs)

-- `payload.get("components", ()) or ()`, as it is iterated: a text and an object give texts.
unfoldable pub items_at : Option Json → Result PageError Items
unfolding truthy_json
items_at none = ok no_item
items_at (some (array vs)) = ok vs
items_at (some (text s)) = if truthy_json (text s) then err component_not_object else ok no_item
items_at (some (object d)) = if truthy_json (object d) then err component_not_object else ok no_item
items_at (some v) = if truthy_json v then err type_error else ok no_item

-- The page of a payload before it is validated.
unfoldable pub page_from : Python → Fields → Result PageError PageDefinition
unfolding get items_at components_from str_at int_at bool_at
page_from py d = items_at (get "components" d) bind λ vs. components_from py vs bind λ components.
    int_at py (get "version" d) (pos 1) bind λ version.
    int_at py (get "responsive_columns" d) (pos 4) bind λ columns. ok (record {
      page_id = str_at py (get "page_id" d) "";
      title = str_at py (get "title" d) "";
      components = components;
      version = version;
      owner_edit_only = bool_at (get "owner_edit_only" d) true;
      responsive_columns = columns;
      notes = str_at py (get "notes" d) "";
    })

-- `definition_from_dict`
unfoldable pub definition_from_dict : Python → Fields → Result PageError PageDefinition
unfolding page_from validate_page
definition_from_dict py d = page_from py d bind λ page. validate_page page and_then ok page

-- `asdict` of an optional record
unfoldable pub binding_dict : Option DataBinding → Json
binding_dict none = null
binding_dict (some b) = object (field "path" (text b.path) (field "mode" (text b.mode) no_field))

unfoldable pub action_dict : Option ActionSpec → Json
action_dict none = null
action_dict (some a) = object (
    field "kind" (text a.kind) (
      field "target" (text a.target) (
        field "requires_owner" (bool a.requires_owner)
          (field "consequential" (bool a.consequential) no_field))))

unfoldable pub component_dict : PageComponent → Json
unfolding binding_dict action_dict
component_dict c = object (
    field "component_id" (text c.component_id) (
      field "kind" (text c.kind) (
        field "label" (text c.label) (
          field "binding" (binding_dict c.binding) (
            field "action" (action_dict c.action)
              (field "width" (number c.width) (field "options" (object c.options) no_field)))))))

unfoldable pub component_dicts : List PageComponent → Items
unfolding component_dict
component_dicts [] = no_item
component_dicts (c ∷ cs) = item (component_dict c) (component_dicts cs)

-- `asdict(self)` of `to_json`
unfoldable pub page_dict : PageDefinition → Fields
unfolding component_dicts
page_dict p = field "page_id" (text p.page_id) (
    field "title" (text p.title) (
      field "components" (array (component_dicts p.components)) (
        field "version" (number p.version) (
          field "owner_edit_only" (bool p.owner_edit_only) (
            field "responsive_columns" (number p.responsive_columns)
              (field "notes" (text p.notes) no_field))))))

-- What `to_json` writes, before it is made a text.
unfoldable pub to_json : PageDefinition → Result PageError Fields
unfolding validate_page page_dict
to_json p = validate_page p and_then ok (page_dict p)

paths_of : List PageComponent → List String
paths_of [] = []
paths_of (c ∷ cs) = elim c.binding [ none ↦ paths_of cs | some b ↦ b.path ∷ paths_of cs ]

-- `bindings`
unfoldable pub bindings : PageDefinition → Result PageError (List String)
unfolding validate_page paths_of
bindings p = validate_page p and_then ok (paths_of p.components)

unfoldable pub actions_of : List PageComponent → List ActionSpec
actions_of [] = []
actions_of (c ∷ cs) = elim c.action [
  | none ↦ actions_of cs
  | some a ↦ let rest = actions_of cs in if a.consequential then a ∷ rest else rest
]

-- `consequential_actions`
unfoldable pub consequential_actions : PageDefinition → Result PageError (List ActionSpec)
unfolding validate_page actions_of
consequential_actions p = validate_page p and_then ok (actions_of p.components)
