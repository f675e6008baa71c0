-- ===== src/Api/Opaque/Tests.antt =====
-- A class config and a claim config for one request, and the theorems at this input.
use k8snetworkplumbingwg_dra.Common.{
  String, some, true, false, List, [], ◌∷◌, ◌++◌, ok, eq_string, lookup, insert, ◌≡◌, refl,
}
use k8snetworkplumbingwg_dra.Kube.{DeviceAllocationConfiguration}
use k8snetworkplumbingwg_dra.Api.VfConfig.{VfConfig, default_vf_config, override}
use k8snetworkplumbingwg_dra.Api.Opaque.{
  driver_name, vf_config, Decoder, from_class, from_claim, source_of, collect, override_requests,
  apply_config, apply_configs, get_map_of_opaque_device_config_for_device,
}
use k8snetworkplumbingwg_dra.Api.Opaque.Spec.{
  of_source, requested, settled, get_map-settled, get_map-drops,
}

-- The parameters are read as the driver name; every config asks for the vhost mount.
abbrev decoder : Decoder
decoder text = ok (vf_config (record default_vf_config { driver = text; add_vhost_mount = true }))

abbrev config : String → List String → String → DeviceAllocationConfiguration
config source requests text = record {
  source = source;
  requests = requests;
  opaque = some (record { driver = driver_name; parameters = text });
}

-- The claim's config stands first and still wins over that of the class.
abbrev configs : List DeviceAllocationConfiguration
configs =
    config "FromClaim" ("vf" ∷ []) "vfio-pci" ∷ config "FromClass" ("vf" ∷ []) "mlx5_core" ∷ []

abbrev result : VfConfig
result = record default_vf_config { driver = "vfio-pci" }

program : Unit {0}
unfolding get_map_of_opaque_device_config_for_device collect source_of apply_configs apply_config
    override_requests override lookup insert
program = tt

get_map_run : get_map_of_opaque_device_config_for_device decoder configs ≡ ok (("vf", result) ∷ [])
unfolding program
get_map_run = refl

get_map-settled_example :
    lookup {K = String} "vf" (("vf", result) ∷ [])
    ≡ settled
        (requested decoder "vf" (of_source from_class configs ++ of_source from_claim configs))
get_map-settled_example = get_map-settled decoder configs "vf" get_map_run

get_map-drops_example : (result.add_vhost_mount ≡ false) × (result.net_attach_def_namespace ≡ "")
unfolding lookup
get_map-drops_example = get_map-drops decoder configs "vf" get_map_run refl
