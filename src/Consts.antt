-- ===== src/Consts.antt =====
-- pkg/consts/consts.go: the attribute names, and the names that discovery owns. The names under
-- resource.kubernetes.io are the upstream constants that the file refers to.
use k8snetworkplumbingwg_dra.Common.{String, List, [], ◌∷◌}

abbrev pub attribute_pci_address : String
attribute_pci_address = "sriovnetwork.k8snetworkplumbingwg.io/pciAddress"

abbrev pub attribute_pf_name : String
attribute_pf_name = "sriovnetwork.k8snetworkplumbingwg.io/PFName"

abbrev pub attribute_eswitch_mode : String
attribute_eswitch_mode = "sriovnetwork.k8snetworkplumbingwg.io/EswitchMode"

abbrev pub attribute_vendor_id : String
attribute_vendor_id = "sriovnetwork.k8snetworkplumbingwg.io/vendor"

abbrev pub attribute_device_id : String
attribute_device_id = "sriovnetwork.k8snetworkplumbingwg.io/deviceID"

abbrev pub attribute_pf_device_id : String
attribute_pf_device_id = "sriovnetwork.k8snetworkplumbingwg.io/pfDeviceID"

abbrev pub attribute_vf_id : String
attribute_vf_id = "sriovnetwork.k8snetworkplumbingwg.io/vfID"

abbrev pub attribute_link_type : String
attribute_link_type = "sriovnetwork.k8snetworkplumbingwg.io/linkType"

abbrev pub attribute_rdma_capable : String
attribute_rdma_capable = "sriovnetwork.k8snetworkplumbingwg.io/rdmaCapable"

abbrev pub attribute_interface_name : String
attribute_interface_name = "sriovnetwork.k8snetworkplumbingwg.io/interfaceName"

abbrev pub attribute_multus_device_id : String
attribute_multus_device_id = "k8s.cni.cncf.io/deviceID"

abbrev pub attribute_multus_resource_name : String
attribute_multus_resource_name = "k8s.cni.cncf.io/resourceName"

abbrev pub attribute_standard_pci_address : String
attribute_standard_pci_address = "resource.kubernetes.io/pciBusID"

abbrev pub attribute_pf_pci_address : String
attribute_pf_pci_address = "sriovnetwork.k8snetworkplumbingwg.io/pfPciAddress"

abbrev pub attribute_numa_node : String
attribute_numa_node = "dra.net/numaNode"

abbrev pub attribute_pcie_root : String
attribute_pcie_root = "resource.kubernetes.io/pcieRoot"

-- The keys of the map ReservedAttributes, each of which has the value true.
unfoldable pub reserved_attributes : List String
reserved_attributes =
    attribute_vendor_id ∷ attribute_device_id ∷ attribute_pf_device_id ∷ attribute_pci_address
    ∷ attribute_multus_device_id ∷ attribute_pf_name ∷ attribute_eswitch_mode ∷ attribute_vf_id
    ∷ attribute_pcie_root ∷ attribute_pf_pci_address ∷ attribute_standard_pci_address
    ∷ attribute_link_type ∷ attribute_rdma_capable ∷ attribute_numa_node ∷ []
