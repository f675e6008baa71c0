-- ===== src/Api/VfConfig.antt =====
-- pkg/api/virtualfunction/v1alpha1/api.go: VfConfig, its default, Override and Normalize; validate.go.
use k8snetworkplumbingwg_dra.Common.{
  String, Bool, false, not, ◌==◌, eq_string, if◌then◌else◌, Result, ok, err, plain,
}

-- `api_version` and `kind` are those of metav1.TypeMeta.
pub record VfConfig : Type 0 where
  pub api_version : String
  pub kind : String
  pub driver : String
  pub add_vhost_mount : Bool
  pub if_name : String
  pub net_attach_def_name : String
  pub net_attach_def_namespace : String

abbrev pub default_vf_config : VfConfig
default_vf_config = record {
  api_version = "sriovnetwork.k8snetworkplumbingwg.io/v1alpha1";
  kind = "VfConfig";
  driver = "";
  add_vhost_mount = false;
  if_name = "";
  net_attach_def_name = "";
  net_attach_def_namespace = "";
}

-- `if y != "" { x = y }`
abbrev pub unless_empty : String → String → String
unless_empty x y = if not (y == "") then y else x

-- c.Override(other), as the new value of c.
unfoldable pub override : VfConfig → VfConfig → VfConfig
override c other = record c {
  driver = unless_empty c.driver other.driver;
  if_name = unless_empty c.if_name other.if_name;
  net_attach_def_name = unless_empty c.net_attach_def_name other.net_attach_def_name;
}

unfoldable pub normalize : VfConfig → VfConfig
normalize c = c

unfoldable pub validate : VfConfig → Result (Unit {0})
validate c =
    if c.driver == ""
    then err (plain "no driver set")
    else if c.net_attach_def_name == ""
    then err (plain "no net attach def name set")
    else ok tt
