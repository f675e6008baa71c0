-- ===== src/Types/Samples.antt =====
-- Prepared devices for tests.
use k8snetworkplumbingwg_dra.Common.{String, none, some, [], ◌∷◌}
use k8snetworkplumbingwg_dra.Kube.{NamespacedObject}
use k8snetworkplumbingwg_dra.Api.VfConfig.{VfConfig, default_vf_config}
use k8snetworkplumbingwg_dra.Types.Prepared.{PreparedDevice, PreparedDevices}

abbrev pub vfio_config : VfConfig
vfio_config = record default_vf_config { driver = "vfio-pci" }

abbrev pub claim_object : String → NamespacedObject
claim_object uid = record { name = "claim"; namespace = "default"; uid = uid }

abbrev pub sample_device : PreparedDevice
sample_device = record {
  address = 0;
  device = record {
    request_names = "vf" ∷ [];
    pool_name = "node1";
    device_name = "0000-01-00-1";
    cdi_device_ids = [];
  };
  claim_namespaced_name = claim_object "claim1";
  container_edits = record { env = []; device_nodes = [] };
  config = some vfio_config;
  if_name = "net0";
  pci_address = "0000:01:00.1";
  multus_device_id = "";
  multus_resource_name = "";
  device_attributes = [];
  network_device_data = none;
  pod_uid = "pod1";
  net_attach_def_config = "{}";
  original_driver = "iavf";
}

abbrev pub sample_devices : PreparedDevices
sample_devices = some sample_device ∷ []
