-- ===== src/Cni/Result.antt =====
-- pkg/cni/status.go: cniResultToNetworkData. A result is what libcni converts to version 1.0.0.
use k8snetworkplumbingwg_dra.Common.{
  String, Option, none, some, not, List, [], ◌∷◌, ◌++◌, if◌then◌else◌, ◌==◌, eq_string, Result, ok,
  err, panic, quote, ◌≡◌, refl, ap, ◌∙◌, append_assoc, append-nil, arith, sym,
}
use k8snetworkplumbingwg_dra.Kube.{NetworkDeviceData}

pub record CniInterface : Type 0 where
  pub name : String
  pub mac : String
  pub sandbox : String

-- Both lists hold pointers; an address is the text of its IPNet.
pub record CniResult : Type 0 where
  pub ips : List (Option String)
  pub interfaces : List (Option CniInterface)

unfoldable pub add_ips : List (Option String) → NetworkDeviceData → Result NetworkDeviceData
add_ips [] so_far = ok so_far
add_ips (none ∷ ips) so_far = panic
add_ips (some ip ∷ ips) so_far = add_ips ips (record so_far { ips = so_far.ips ++ ip ∷ [] })

abbrev pub take_interface : CniInterface → NetworkDeviceData → NetworkDeviceData
take_interface i so_far =
    if not (i.sandbox == "")
    then record so_far { interface_name = i.name; hardware_address = i.mac }
    else so_far

unfoldable pub add_interfaces :
    List (Option CniInterface) → NetworkDeviceData → Result NetworkDeviceData
add_interfaces [] so_far = ok so_far
add_interfaces (none ∷ is) so_far = panic
add_interfaces (some i ∷ is) so_far = add_interfaces is (take_interface i so_far)

abbrev pub and_interfaces :
    List (Option CniInterface) → Result NetworkDeviceData → Result NetworkDeviceData
and_interfaces is (ok so_far) = add_interfaces is so_far
and_interfaces is (err e) = err e
and_interfaces is panic = panic

abbrev pub empty_data : NetworkDeviceData
empty_data = record { interface_name = ""; ips = []; hardware_address = "" }

abbrev pub of_converted : Result CniResult → Result NetworkDeviceData
of_converted (err e) = err (quote "failed to NewResultFromResult result (%v): %v" e)
of_converted panic = panic
of_converted (ok r) = and_interfaces r.interfaces (add_ips r.ips empty_data)

-- The argument is the result as libcni converts it.
unfoldable pub cni_result_to_network_data : Result CniResult → Result NetworkDeviceData
cni_result_to_network_data converted = of_converted converted

-- The last interface that is in a sandbox.
unfoldable pub last_in_sandbox : CniInterface → List CniInterface → CniInterface
last_in_sandbox found [] = found
last_in_sandbox found (i ∷ is) = last_in_sandbox (if i.sandbox == "" then found else i) is

unfoldable pub pointers : {A : Type 0} → List A → List (Option A)
pointers [] = []
pointers (a ∷ as') = some a ∷ pointers as'

add_ips-pointers :
    (ips : List String) (so_far : NetworkDeviceData)
    → add_ips (pointers ips) so_far ≡ ok (record so_far { ips = so_far.ips ++ ips })
unfolding add_ips pointers
add_ips-pointers [] so_far =
    ap (λ xs. ok (record so_far { ips = xs })) (sym (append-nil so_far.ips))
add_ips-pointers (ip ∷ ips) so_far =
    add_ips-pointers ips (record so_far { ips = so_far.ips ++ ip ∷ [] })
    ∙ ap (λ xs. ok (record so_far { ips = xs })) (append_assoc so_far.ips (ip ∷ []) ips)

abbrev describe : CniInterface → List String → NetworkDeviceData
describe i ips = record { interface_name = i.name; ips = ips; hardware_address = i.mac }

take_interface-describe :
    (i found : CniInterface) (ips : List String)
    → take_interface i (describe found ips) ≡ describe (if i.sandbox == "" then found else i) ips
take_interface-describe i found ips = ground arith

add_interfaces-pointers :
    (is : List CniInterface) (found : CniInterface) (ips : List String)
    → add_interfaces (pointers is) (describe found ips)
      ≡ ok (describe (last_in_sandbox found is) ips)
unfolding add_interfaces pointers last_in_sandbox
add_interfaces-pointers [] found ips = refl
add_interfaces-pointers (i ∷ is) found ips =
    ap (add_interfaces (pointers is)) (take_interface-describe i found ips)
    ∙ add_interfaces-pointers is (if i.sandbox == "" then found else i) ips

abbrev pub no_interface : CniInterface
no_interface = record { name = ""; mac = ""; sandbox = "" }

-- From a result without nil pointers come all of its addresses in their order, and the name and the
-- hardware address of the last of its interfaces that is in a sandbox, which are empty when none is.
pub cni_result_to_network_data-value :
    (ips : List String) (is : List CniInterface)
    → cni_result_to_network_data (ok (record { ips = pointers ips; interfaces = pointers is }))
      ≡ ok (record {
        interface_name = (last_in_sandbox no_interface is).name;
        ips = ips;
        hardware_address = (last_in_sandbox no_interface is).mac;
      })
unfolding cni_result_to_network_data
cni_result_to_network_data-value ips is =
    ap (and_interfaces (pointers is)) (add_ips-pointers ips empty_data)
    ∙ add_interfaces-pointers is no_interface ips
