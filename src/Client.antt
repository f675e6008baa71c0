-- ===== src/Client.antt =====
-- pkg/flags/kubeclient.go: the configuration of the Kubernetes clients. The client libraries are an
-- argument.
use k8snetworkplumbingwg_dra.Common.{String, if◌then◌else◌, ◌==◌, eq_string, Result, ok, quote}
use k8snetworkplumbingwg_dra.Kube.{ℤ}
use k8snetworkplumbingwg_dra.Host.Sysfs.{on_value}

-- `Q` is a rate, a float64.
pub record KubeClientConfig (Q : Type 0) : Type 0 where
  pub kube_config : String
  pub kube_api_qps : Q
  pub kube_api_burst : ℤ

-- rest.Config, of which only the limits are set here; `H` is the rest of it.
pub record RestConfig (Q H : Type 0) : Type 0 where
  pub hosts : H
  pub qps : Q
  pub burst : ℤ

-- `float32` rounds a rate; the two constructors of clients stand for coreclientset.NewForConfig and
-- client.New with the driver's scheme.
pub record ClientLibrary (Q H C K : Type 0) : Type 0 where
  pub in_cluster_config : Result (RestConfig Q H)
  pub build_config_from_flags : String → Result (RestConfig Q H)
  pub float32 : Q → Q
  pub new_for_config : RestConfig Q H → Result C
  pub new_client : RestConfig Q H → Result K

module _ {Q H C K : Type 0} (library : ClientLibrary Q H C K) where
  abbrev limited : KubeClientConfig Q → RestConfig Q H → Result (RestConfig Q H)
  limited k config =
      ok (record config { qps = library.float32 k.kube_api_qps; burst = k.kube_api_burst })

  unfoldable pub new_client_set_config : KubeClientConfig Q → Result (RestConfig Q H)
  new_client_set_config k =
      if k.kube_config == ""
      then on_value (quote "create in-cluster client configuration: %v") library.in_cluster_config
          (limited k)
      else on_value (quote "create out-of-cluster client configuration: %v")
          (library.build_config_from_flags k.kube_config) (limited k)

  -- The core client and the client of controller-runtime.
  unfoldable pub new_client_sets : KubeClientConfig Q → Result (C × K)
  new_client_sets k =
      on_value (quote "create client configuration: %v") (new_client_set_config k) (λ config.
        on_value (quote "create core client: %v") (library.new_for_config config) (λ core.
          on_value (quote "create controller-runtime client: %v") (library.new_client config)
            (λ client. ok (core, client))))
