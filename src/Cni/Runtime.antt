-- ===== src/Cni/Runtime.antt =====
-- pkg/cni/cni.go: AttachNetwork and DetachNetwork.
use k8snetworkplumbingwg_dra.Common.{
  String, Option, none, some, List, [], ◌∷◌, Result, plain, quote, Action, ◌>>=◌, pure, throw,
  crash, map_err, ◌≡◌, refl, sym, ◌∙◌,
}
use k8snetworkplumbingwg_dra.Common.Effects.{Keeps, bind-state, bind-Keeps, bind-same}
use k8snetworkplumbingwg_dra.Kube.{NetworkDeviceData}
use k8snetworkplumbingwg_dra.Types.Prepared.{PreparedDevice}
use k8snetworkplumbingwg_dra.Nri.Sandbox.{PodSandbox}
use k8snetworkplumbingwg_dra.Cni.Result.{CniResult, cni_result_to_network_data}

-- libcni.RuntimeConf
pub record RuntimeConf : Type 0 where
  pub container_id : String
  pub net_ns : String
  pub if_name : String
  pub args : List (String × String)

-- libcni with its plugins, GetCNIConfigFromSpec for the runtime's driver name, and JSON: `R` is a
-- result of libcni, `convert` is cni100.NewResultFromResult, an object is its text.
pub record Libcni (W Conf R : Type 0) : Type 0 where
  pub get_cni_config_from_spec : String → Result String
  pub network_plugin_conf_from_bytes : String → Result Conf
  pub add_network : Conf → RuntimeConf → Action W (Option R)
  pub del_network : Conf → RuntimeConf → Action W (Unit {0})
  pub convert : R → Result CniResult
  pub marshal : CniResult → Result String
  pub unmarshal : String → Result String

abbrev pub returning : {W A : Type 0} → Result A → Action W A
returning r w = (r, w)

module _ {W Conf R : Type 0} (cni : Libcni W Conf R) where
  -- The conversion to a map. On an error the caller gets the network data too, and drops it.
  abbrev result_map : NetworkDeviceData → R → Action W (Option NetworkDeviceData × String)
  result_map net_data r =
      map_err (quote "failed to convert CNI result to 1.0.0: %v") (returning (cni.convert r))
      >>= λ converted.
          map_err (quote "failed to marshal CNI result: %v") (returning (cni.marshal converted))
          >>= λ raw.
              map_err (quote "failed to unmarshal CNI result into map: %v")
                (returning (cni.unmarshal raw))
              >>= λ object. pure (some net_data, object)

  abbrev added : Option R → Action W (Option NetworkDeviceData × String)
  added none = throw (plain "cni result is nil")
  added (some r) =
      returning (cni_result_to_network_data (cni.convert r)) >>= λ net_data. result_map net_data r

  abbrev pub plugin_conf : PreparedDevice → Action W Conf
  plugin_conf device =
      map_err (quote "failed to GetCNIConfigFromSpec: %v")
        (returning (cni.get_cni_config_from_spec device.net_attach_def_config))
      >>= λ raw.
          map_err (quote "failed to NetworkPluginConfFromBytes: %v")
            (returning (cni.network_plugin_conf_from_bytes raw))

  abbrev attach_device :
      PodSandbox → String → PreparedDevice → Action W (Option NetworkDeviceData × String)
  attach_device pod ns device =
      let rt : RuntimeConf = record {
        container_id = pod.id;
        net_ns = ns;
        if_name = device.if_name;
        args =
            ("IgnoreUnknown", "true")
            ∷ ("K8S_POD_NAMESPACE", pod.namespace)
            ∷ ("K8S_POD_NAME", pod.name)
            ∷ ("K8S_POD_INFRA_CONTAINER_ID", pod.id)
            ∷ ("K8S_POD_UID", pod.uid)
            ∷ [];
      } in
      plugin_conf device >>= λ conf.
      map_err (quote "failed to AddNetwork: %v") (cni.add_network conf rt) >>= added

  unfoldable pub attach_network :
      PodSandbox → String → Option PreparedDevice → Action W (Option NetworkDeviceData × String)
  attach_network pod ns none = crash
  attach_network pod ns (some device) = attach_device pod ns device

  abbrev detach_device : PodSandbox → String → PreparedDevice → Action W (Unit {0})
  detach_device pod ns device =
      let rt : RuntimeConf = record {
        container_id = pod.id;
        net_ns = ns;
        if_name = device.if_name;
        args =
            ("IgnoreUnknown", "true")
            ∷ ("K8S_POD_NAMESPACE", pod.namespace)
            ∷ ("K8S_POD_NAME", pod.name)
            ∷ ("K8S_POD_INFRA_CONTAINER_ID", pod.id)
            ∷ ("K8S_POD_UID", pod.uid)
            ∷ [];
      } in
      plugin_conf device >>= λ conf.
      map_err (quote "failed to DelNetwork: %v") (cni.del_network conf rt)

  unfoldable pub detach_network : PodSandbox → String → Option PreparedDevice → Action W (Unit {0})
  detach_network pod ns none = crash
  detach_network pod ns (some device) = detach_device pod ns device

  result_map-Keeps : (net_data : NetworkDeviceData) (r : R) → Keeps (result_map net_data r)
  result_map-Keeps net_data r =
      bind-Keeps (map_err _ (returning (cni.convert r))) _ (λ w. refl)
        (λ converted.
          bind-Keeps (map_err _ (returning (cni.marshal converted))) _ (λ w. refl)
            (λ raw.
              bind-Keeps (map_err _ (returning (cni.unmarshal raw))) _ (λ w. refl)
                (λ object w. refl)))

  pub added-Keeps : (o : Option R) → Keeps (added o)
  added-Keeps none w = refl
  added-Keeps (some r) w =
      bind-Keeps (returning (cni_result_to_network_data (cni.convert r))) _ (λ s. refl)
        (λ net_data. result_map-Keeps net_data r) w

-- A library that records every request.
module _ {Conf R : Type 0} (cni : Libcni (List (Conf × RuntimeConf)) Conf R)
    (adds : (conf : Conf) (rt : RuntimeConf) (w : List (Conf × RuntimeConf))
      → (cni.add_network conf rt w).1 ≡ (conf, rt) ∷ w)
    (dels : (conf : Conf) (rt : RuntimeConf) (w : List (Conf × RuntimeConf))
      → (cni.del_network conf rt w).1 ≡ (conf, rt) ∷ w) where
  -- The request that a detachment of a device makes is the one that its attachment made: the same
  -- plugin configuration, container, network namespace, interface name and arguments, or none when the
  -- configuration cannot be read.
  pub detach_network-attach_network :
      (pod : PodSandbox) (ns : String) (device : Option PreparedDevice)
      (w : List (Conf × RuntimeConf))
      → (attach_network cni pod ns device w).1 ≡ (detach_network cni pod ns device w).1
  unfolding attach_network detach_network
  detach_network-attach_network pod ns none w = refl
  detach_network-attach_network pod ns (some device) w =
      bind-same (plugin_conf cni device) _ _ w (λ conf t.
        bind-state (map_err (quote "failed to AddNetwork: %v") (cni.add_network conf _)) (added cni)
          t (added-Keeps cni)
        ∙ (adds conf _ t ∙ sym (dels conf _ t)))
