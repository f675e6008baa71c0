-- ===== src/Controller/Objects.antt =====
-- The objects that the controller reads: pkg/api/sriovdra/v1alpha1/api.go, and the label and node
-- selectors of the Kubernetes API.
use Prim.Native.Char.{Char, code}
use k8snetworkplumbingwg_dra.Common.{
  String, Option, List, Map, if◌then◌else◌, nat_eq, ◌==◌, eq_string, ◌||◌,
}
use k8snetworkplumbingwg_dra.Kube.{Attributes}

pub record Requirement : Type 0 where
  pub key : String
  pub operator : String
  pub values : List String

pub record LabelSelector : Type 0 where
  pub match_labels : Map String String
  pub match_expressions : List Requirement

pub record NodeSelectorTerm : Type 0 where
  pub match_expressions : List Requirement
  pub match_fields : List Requirement

pub record NodeSelector : Type 0 where
  pub node_selector_terms : List NodeSelectorTerm

pub record ResourceFilter : Type 0 where
  pub vendors : List String
  pub devices : List String
  pub pci_addresses : List String
  pub pf_names : List String
  pub pf_pci_addresses : List String
  pub drivers : List String
  pub link_type : String

pub record Config : Type 0 where
  pub device_attributes_selector : Option LabelSelector
  pub resource_filters : List ResourceFilter

pub record SriovResourcePolicy : Type 0 where
  pub name : String
  pub node_selector : Option NodeSelector
  pub configs : List Config

pub record DeviceAttributesObject : Type 0 where
  pub name : String
  pub labels : Map String String
  pub attributes : Attributes

-- The letter of the second text at the place that `c` has in the first.
letter : String → String → Char → Char
letter (String.◌∷◌ u us) (String.◌∷◌ l ls) c =
    if nat_eq (code u) (code c) then l else letter us ls c
letter _ _ c = c

-- strings.ToLower, on ASCII text; other characters stay.
unfoldable pub to_lower : String → String
unfolding letter
to_lower String.[] = String.[]
to_lower (String.◌∷◌ c s) =
    String.◌∷◌ (letter "ABCDEFGHIJKLMNOPQRSTUVWXYZ" "abcdefghijklmnopqrstuvwxyz" c) (to_lower s)

unfoldable pub normalize_link_type : String → String
normalize_link_type val =
    let low = to_lower val in
    if low == "eth" || low == "ethernet"
    then "ethernet"
    else if low == "ib" || low == "infiniband"
    then "infiniband"
    else low
