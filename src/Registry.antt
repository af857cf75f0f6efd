-- ===== src/Registry.antt =====
-- src/enterprise/registry.py: the records of the enterprise directory and its four collections.
pub mod Directory
mod Examples
use tagro_echo_os.Base.{String, Bool, Option, List, [], Dict}

pub record Enterprise : Type 0 where
  pub enterprise_id : String
  pub code : String
  pub name : String
  pub enterprise_type : String
  pub parent_enterprise_id : Option String
  pub legal_identity_ref : Option String
  pub district : Option String
  pub region : Option String
  pub active : Bool
  pub metadata : Dict String

pub record EnterpriseUser : Type 0 where
  pub assignment_id : String
  pub user_id : String
  pub enterprise_id : String
  pub roles : List String
  pub tool_packs : List String
  pub active : Bool

pub record BusyNode : Type 0 where
  pub busy_node_id : String
  pub code : String
  pub name : String
  pub company_ref : String
  pub node_type : String
  pub company_data_locator : Option String
  pub active : Bool
  pub capabilities : List String
  pub metadata : Dict String

pub record BusyBinding : Type 0 where
  pub binding_id : String
  pub enterprise_id : String
  pub busy_node_id : String
  pub binding_role : String
  pub material_centre_ref : Option String
  pub voucher_series : Dict String
  pub active : Bool

-- The collections ENTERPRISES, USERS, BUSY_NODES and BUSY_BINDINGS of the repository.
pub record Records : Type 0 where
  pub enterprises : Dict Enterprise
  pub users : Dict EnterpriseUser
  pub busy_nodes : Dict BusyNode
  pub busy_bindings : Dict BusyBinding

abbrev pub no_records : Records
no_records = record { enterprises = []; users = []; busy_nodes = []; busy_bindings = [] }

-- What the methods raise: `RegistryError` and its messages.
pub data RegistryError : Type 0 where
  is_required : String → RegistryError
  duplicate_enterprise duplicate_node : RegistryError
  own_parent no_parent hierarchy_cycle : RegistryError
  no_enterprise no_busy_node : RegistryError
  role_bound : RegistryError
  stored_cycle stored_parent_missing : RegistryError
  several_bindings : RegistryError
