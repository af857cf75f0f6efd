-- ===== src/Pages/Loading.antt =====
-- A page is read back from its dict, and what is read is valid (src/page_builder/model.py).
use mathlib.Core.Path.{subst}
use tagro_echo_os.Base.{
  Option, none, some, List, [], ◌∷◌, String, true, all, Result, ok, err, ◌≡◌, refl, sym, ap, ◌∙◌,
  arith, inl, inr, Option-cases,
}
use tagro_echo_os.Pages.{
  DataBinding, ActionSpec, PageComponent, PageDefinition, PageError, Fields, validate_page,
  validate_action, validate_given, validate_component, validate_components, ◌and_then◌,
}
use tagro_echo_os.Pages.Builder.{
  Python, get, truthy_json, str_at, int_at, bool_at, options_at, binding_from, action_from,
  component_from, components_from, items_at, page_from, definition_from_dict, binding_dict,
  action_dict, component_dict, component_dicts, page_dict, to_json, actions_of,
  consequential_actions, ◌bind◌,
}

module _ (py : Python) where
  binding_from-dict : (b : Option DataBinding) → binding_from py (some (binding_dict b)) ≡ ok b
  unfolding binding_from binding_dict get str_at truthy_json
  binding_from-dict none = refl
  binding_from-dict (some b) = refl

  action_from-dict : (a : Option ActionSpec) → action_from py (some (action_dict a)) ≡ ok a
  unfolding action_from action_dict get str_at bool_at truthy_json
  action_from-dict none = refl
  action_from-dict (some a) = refl

  component_from-dict : (c : PageComponent) → component_from py (component_dict c) ≡ ok c
  unfolding component_from component_dict get str_at int_at options_at
  component_from-dict c = ground (arith, binding_from-dict c.binding, action_from-dict c.action)

  components_from-dicts :
      (cs : List PageComponent) → components_from py (component_dicts cs) ≡ ok cs
  unfolding components_from component_dicts
  components_from-dicts [] = refl
  components_from-dicts (c ∷ cs) = ground (arith, component_from-dict c, components_from-dicts cs)

  page_from-dict : (p : PageDefinition) → page_from py (page_dict p) ≡ ok p
  unfolding page_from page_dict get str_at int_at bool_at items_at truthy_json
  page_from-dict p = ground (arith, components_from-dicts p.components)

ok-injective : {A : Type 0} (x y : A) → ◌≡◌ {A = Result PageError A} (ok x) (ok y) → x ≡ y
ok-injective x y h = cc

and_then-ok :
    {A : Type 0} (x : Result PageError Unit) (y : Result PageError A) (a : A)
    → (x and_then y) ≡ ok a
    → (x ≡ ok tt) × (y ≡ ok a)
and_then-ok (ok u) y a h = (refl, h)
and_then-ok (err e) y a h = cc

validate_component-action :
    (c : PageComponent) (a : ActionSpec)
    → validate_component c ≡ ok tt
    → c.action ≡ some a
    → validate_action a ≡ ok tt
unfolding validate_component
validate_component-action c a h e =
    let (first, _) = and_then-ok _ _ tt h in
    let (_, action) = and_then-ok _ _ tt first in
    ap (λ o. validate_given validate_action o) (sym e) ∙ action

validate_action-owner :
    (a : ActionSpec) → validate_action a ≡ ok tt → a.consequential ≡ true → a.requires_owner ≡ true
unfolding validate_action
validate_action-owner a h c = ground (arith, h, c)

-- Every consequential action of validated components requires the owner.
owners :
    (seen : List String) (cs : List PageComponent)
    → validate_components seen cs ≡ ok tt
    → all (λ (a : ActionSpec). a.requires_owner) (actions_of cs) ≡ true
unfolding validate_components actions_of all
owners seen [] h = refl
owners seen (c ∷ cs) h =
    let rest = validate_components (c.component_id ∷ seen) cs in
    let (component, others) = and_then-ok (validate_component c) _ tt h in
    let after : rest ≡ ok tt = ground (arith, others) in
    elim (Option-cases c.action) [
      | inl e ↦ ground (arith, e, owners (c.component_id ∷ seen) cs after)
      | inr (a, e) ↦
          let owner = validate_action-owner a (validate_component-action c a component e) in
          ground (arith, e, owner, owners (c.component_id ∷ seen) cs after)
    ]

validate_page-components :
    (p : PageDefinition) → validate_page p ≡ ok tt → validate_components [] p.components ≡ ok tt
unfolding validate_page
validate_page-components p h = ground (arith, h)

-- A page that was read was validated.
read_page :
    (r : Result PageError PageDefinition) (p : PageDefinition)
    → (r bind λ q. validate_page q and_then ok q) ≡ ok p
    → validate_page p ≡ ok tt
read_page (ok q) p h =
    let (valid, same) = and_then-ok (validate_page q) (ok q) p h in
    subst (λ z. validate_page z ≡ ok tt) (ok-injective q p same) valid
read_page (err e) p h = cc

-- Reading undoes writing: what `to_json` gives of a page that it accepts, `definition_from_dict` reads back as
-- that page. What `definition_from_dict` reads is a page that `to_json` accepts, and each of its
-- consequential actions requires the owner.
pub definition_from_dict-to_json :
    (py : Python) (p : PageDefinition) (d : Fields)
    → ((to_json p ≡ ok d) → definition_from_dict py d ≡ ok p)
      × ((definition_from_dict py d ≡ ok p)
          → (to_json p ≡ ok (page_dict p))
            × ((actions : List ActionSpec)
                → consequential_actions p ≡ ok actions
                → all (λ (a : ActionSpec). a.requires_owner) actions ≡ true))
unfolding to_json definition_from_dict consequential_actions
definition_from_dict-to_json py p d = (
  λ h.
      let (valid, same) = and_then-ok (validate_page p) (ok (page_dict p)) d h in
      let finish =
        λ (r : Result PageError PageDefinition). r bind λ q. validate_page q and_then ok q in
      ap (λ z. finish (page_from py z)) (sym (ok-injective (page_dict p) d same))
      ∙ ap finish (page_from-dict py p)
      ∙ ap (λ v. v and_then ok p) valid,
  λ h.
      let valid = read_page (page_from py d) p h in
      (
        ap (λ v. v and_then ok (page_dict p)) valid,
        λ actions listed.
            let (_, same) =
              and_then-ok (validate_page p) (ok (actions_of p.components)) actions listed in
            subst (λ l. all (λ (a : ActionSpec). a.requires_owner) l ≡ true)
              (ok-injective (actions_of p.components) actions same)
              (owners [] p.components (validate_page-components p valid)),
      ),
)
