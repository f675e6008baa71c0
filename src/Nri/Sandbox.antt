-- ===== src/Nri/Sandbox.antt =====
-- The sandbox of a pod as NRI reports it, and pkg/nri/nrihelpers.go.
use k8snetworkplumbingwg_dra.Common.{String, List, [], ◌∷◌, if◌then◌else◌, ◌==◌, eq_string}

pub record LinuxNamespace : Type 0 where
  pub kind : String
  pub path : String

pub record PodSandbox : Type 0 where
  pub id : String
  pub uid : String
  pub name : String
  pub namespace : String
  pub namespaces : List LinuxNamespace

unfoldable pub find_network : List LinuxNamespace → String
find_network [] = ""
find_network (n ∷ ns) = let rest = find_network ns in if n.kind == "network" then n.path else rest

unfoldable pub get_network_namespace : PodSandbox → String
get_network_namespace pod = find_network pod.namespaces
