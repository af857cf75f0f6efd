-- ===== src/Pages/Examples.antt =====
-- A page with a field and a consequential button (src/page_builder/model.py).
use tagro_echo_os.Base.{
  pos, String, true, all, Option, none, some, List, [], ◌∷◌, ok, err, ◌≡◌, refl,
}
use tagro_echo_os.Pages.{
  no_field, type_error, duplicate_id, DataBinding, ActionSpec, PageComponent, PageDefinition,
  validate_page,
}
use tagro_echo_os.Pages.Builder.{
  Python, page_dict, to_json, definition_from_dict, consequential_actions,
}
use tagro_echo_os.Pages.Loading.{definition_from_dict-to_json}

abbrev plain : Python
plain = record { str_of = λ v. ""; int_of_text = λ s. none; dict_of = λ v. err type_error }

abbrev placed : String → String → Option DataBinding → Option ActionSpec → PageComponent
placed id kind binding action = record {
  component_id = id;
  kind = kind;
  label = id;
  binding = binding;
  action = action;
  width = pos 2;
  options = no_field;
}

abbrev page_with : List PageComponent → PageDefinition
page_with components = record {
  page_id = "counter-sale";
  title = "Counter sale";
  components = components;
  version = pos 1;
  owner_edit_only = true;
  responsive_columns = pos 4;
  notes = "";
}

abbrev name_field : PageComponent
name_field = placed "name" "field" (some (record { path = "customer.name"; mode = "input" })) none

abbrev approve_button : PageComponent
approve_button = placed "approve" "button" none (
    some (record {
      kind = "submit";
      target = "cash/approve";
      requires_owner = true;
      consequential = true;
    }))

abbrev page : PageDefinition
page = page_with (name_field ∷ approve_button ∷ [])

definition_from_dict-to_json_example :
    ((to_json page ≡ ok (page_dict page)) → definition_from_dict plain (page_dict page) ≡ ok page)
    × ((definition_from_dict plain (page_dict page) ≡ ok page)
        → (to_json page ≡ ok (page_dict page))
          × ((actions : List ActionSpec)
              → consequential_actions page ≡ ok actions
              → all (λ (a : ActionSpec). a.requires_owner) actions ≡ true))
definition_from_dict-to_json_example = definition_from_dict-to_json plain page (page_dict page)

page_written : to_json page ≡ ok (page_dict page)
unfolding to_json
page_written = refl

repeated_id : validate_page (page_with (name_field ∷ name_field ∷ [])) ≡ err duplicate_id
unfolding validate_page
repeated_id = refl
