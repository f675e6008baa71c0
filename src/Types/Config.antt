-- ===== src/Types/Config.antt =====
-- pkg/types/config.go: the flags of the command line, less those of the client and the logging.
use k8snetworkplumbingwg_dra.Common.{String, Bool, Option}
use k8snetworkplumbingwg_dra.Kube.{ℤ}

pub record Flags : Type 0 where
  pub node_name : String
  pub namespace : String
  pub cdi_root : String
  pub kubelet_registrar_directory_path : String
  pub kubelet_plugins_directory_path : String
  pub healthcheck_port : ℤ
  pub metrics_bind_address : String
  pub default_interface_prefix : String
  pub configuration_mode : String
  pub enable_device_metadata : Bool

-- The clients and the cancel function are arguments of the operations that use them.
pub record Config : Type 0 where
  pub flags : Option Flags
