-- ===== src/DeviceState/Prepare/Devices.antt =====
-- Which devices prepareDevices returns, with which requests, configs and interface names
-- (pkg/devicestate/state.go).
use k8snetworkplumbingwg_dra.Common.{
  String, lookup, Option, none, some, Bool, true, false, not, ℕ, suc, List, [], ◌∷◌, ◌++◌,
  if◌then◌else◌, ◌==◌, eq_string, Map, Result, ok, err, panic, Error, ◌≡◌, refl, sym, ◌∙◌, ap,
  append-nil, append_assoc,
}
use k8snetworkplumbingwg_dra.Kube.{DeviceRequestAllocationResult, ResourceClaim, Device}
use k8snetworkplumbingwg_dra.Api.VfConfig.{VfConfig}
use k8snetworkplumbingwg_dra.Api.Opaque.{driver_name}
use k8snetworkplumbingwg_dra.Types.Prepared.{PreparedDevice, PreparedDevices}
use k8snetworkplumbingwg_dra.Common.Yields.{OnOk, Yields, yields-after}
use k8snetworkplumbingwg_dra.DeviceState.State.{Manager}
use k8snetworkplumbingwg_dra.DeviceState.Services.{Services}
use k8snetworkplumbingwg_dra.DeviceState.Edits.{net_conf}
use k8snetworkplumbingwg_dra.DeviceState.Prepare.{
  apply_config_on_device, apply_on, with_address, address_of, with_conf, with_original,
  bound_device, with_edits, guarded_edits, with_pod, first_of, names_itself, interface_name,
}
use k8snetworkplumbingwg_dra.DeviceState.Prepare.Claim.{
  Progress, undone, unprepare_devices, config_for, prepare_results, prepare_next, advance,
}

-- What a prepared device is for.
pub record Assigned : Type 0 where
  pub requests : List String
  pub pool : String
  pub device : String
  pub config : Option VfConfig
  pub if_name : String
  pub claim_uid : String

abbrev pub assigned_by : PreparedDevice → Assigned
assigned_by p = record {
  requests = p.device.request_names;
  pool = p.device.pool_name;
  device = p.device.device_name;
  config = p.config;
  if_name = p.if_name;
  claim_uid = p.claim_namespaced_name.uid;
}

unfoldable pub assignments : PreparedDevices → List (Option Assigned)
assignments [] = []
assignments (none ∷ ps) = none ∷ assignments ps
assignments (some p ∷ ps) = some (assigned_by p) ∷ assignments ps

assignments-append :
    (ps qs : PreparedDevices) → assignments (ps ++ qs) ≡ assignments ps ++ assignments qs
unfolding assignments
assignments-append [] qs = refl
assignments-append (none ∷ ps) qs = ap (λ xs. none ∷ xs) (assignments-append ps qs)
assignments-append (some p ∷ ps) qs =
    ap (λ xs. some (assigned_by p) ∷ xs) (assignments-append ps qs)

on_ok_trans :
    (r : Result PreparedDevices) {xs ys : List (Option Assigned)}
    → OnOk r (λ ps. assignments ps ≡ xs)
    → xs ≡ ys
    → OnOk r (λ ps. assignments ps ≡ ys)
on_ok_trans (ok ps) h e = h ∙ e
on_ok_trans (err e') h e = tt
on_ok_trans panic h e = tt

module _ {W : Type 0} (services : Services W) (s : Manager) (claim : ResourceClaim) where
  abbrev assignment : VfConfig → DeviceRequestAllocationResult → ℕ → Assigned
  assignment config result index = record {
    requests = result.request ∷ [];
    pool = result.pool;
    device = result.device;
    config = some config;
    if_name = interface_name services s config index;
    claim_uid = claim.uid;
  }

  module _ (config : VfConfig) (result : DeviceRequestAllocationResult) (address index : ℕ) where
    abbrev IsAssigned : PreparedDevice → W → Type 0
    IsAssigned p w = assigned_by p ≡ assignment config result index

    apply_on-IsAssigned :
        (o : Option Device) (w : W)
        → Yields (apply_on services s claim config result address index o) w IsAssigned
    apply_on-IsAssigned none w = tt
    apply_on-IsAssigned (some d) w =
        yields-after (with_address services s claim config result address index d) IsAssigned
          (address_of services s claim config result address index d) w
          (λ pci w1.
            yields-after (with_conf services s claim config result address index d pci) IsAssigned
              (net_conf services s claim config pci) w1
              (λ conf w2.
                yields-after (with_original services s claim config result address index d pci conf)
                  IsAssigned (bound_device services s claim config result address index d pci conf)
                  w2
                  (λ original w3.
                    yields-after
                      (with_edits services s claim config result address index d pci conf original)
                      IsAssigned
                      (guarded_edits services s claim config result address index d pci original) w3
                      (λ edits w4.
                        yields-after
                          (with_pod services s claim config result address index d pci conf original
                            edits)
                          IsAssigned (first_of services claim.reserved_for) w4 (λ pod w5. refl)))))

  module _ (configs : Map String VfConfig) where
    abbrev next_index : DeviceRequestAllocationResult → ℕ → ℕ
    next_index result index =
        if names_itself services s (config_for configs result.request) then suc index else index

    -- The devices of this driver, in the order of the allocation; an interface that its config does
    -- not name takes the next index in standalone mode.
    unfoldable pub expected : List DeviceRequestAllocationResult → ℕ → List (Option Assigned)
    expected [] index = []
    expected (result ∷ results) index =
        let skip = expected results index in
        let rest = expected results (next_index result index) in
        if not (result.driver == driver_name)
        then skip
        else some (assignment (config_for configs result.request) result index) ∷ rest

    abbrev Ends :
        PreparedDevices → List DeviceRequestAllocationResult → ℕ → Result PreparedDevices → Type 0
    Ends done results index r =
        OnOk r (λ ps. assignments ps ≡ assignments done ++ expected results index)

    undone-on_ok :
        (P : PreparedDevices → Type 0) (e : Error) (r : Result (Unit {0}))
        → OnOk (undone services s claim configs e r) P
    undone-on_ok P e (ok _) = tt
    undone-on_ok P e (err r) = tt
    undone-on_ok P e panic = tt

    either-on_ok :
        {S : Type 0} (b : Bool) (m n : Result PreparedDevices × S)
        (given skip rest : List (Option Assigned))
        → OnOk m.0 (λ ps. assignments ps ≡ given ++ skip)
        → OnOk n.0 (λ ps. assignments ps ≡ given ++ rest)
        → OnOk (if b then m else n).0 (λ ps. assignments ps ≡ given ++ (if b then skip else rest))
    either-on_ok true m n given skip rest h k = h
    either-on_ok false m n given skip rest h k = k

    next-Ends :
        (result : DeviceRequestAllocationResult) (results : List DeviceRequestAllocationResult)
        (done : PreparedDevices) (r : Result PreparedDevice) (p : W × Progress)
        → OnOk r (λ d.
          assigned_by d ≡ assignment (config_for configs result.request) result p.1.if_name_index)
        → ((done' : PreparedDevices) (p' : W × Progress)
            → Ends done' results p'.1.if_name_index
                (prepare_results services s claim configs results done' p').0)
        → OnOk
            (prepare_next services s claim configs
              (prepare_results services s claim configs results)
              result
              done
              r
              p).0
            (λ ps.
              assignments ps
              ≡ assignments done
                ++ some (assignment (config_for configs result.request) result p.1.if_name_index)
                  ∷ expected results (next_index result p.1.if_name_index))
    unfolding assignments
    next-Ends result results done (ok d) p h more =
        let rest = expected results (next_index result p.1.if_name_index) in
        on_ok_trans
          (prepare_results services s claim configs results (done ++ some d ∷ [])
            (p.0, advance services s claim configs result p.1)).0
          (more (done ++ some d ∷ []) (p.0, advance services s claim configs result p.1))
          (ap (λ xs. xs ++ rest) (assignments-append done (some d ∷ []))
            ∙ (append_assoc (assignments done) (some (assigned_by d) ∷ []) rest
                ∙ ap (λ a. assignments done ++ some a ∷ rest) h))
    next-Ends result results done (err e) p h more =
        undone-on_ok _ e (unprepare_devices services done p.0).0
    next-Ends result results done panic p h more = tt

    -- When prepareDevices succeeds, the devices it adds are exactly those of the claim's allocation
    -- results for this driver, in that order, each with its request, its pool and the config of its
    -- request, and with the interface name of its config or the next generated one.
    pub prepare_results-expected :
        (results : List DeviceRequestAllocationResult) (done : PreparedDevices) (p : W × Progress)
        → OnOk
            (prepare_results services s claim configs results done p).0
            (λ ps. assignments ps ≡ assignments done ++ expected results p.1.if_name_index)
    unfolding prepare_results expected apply_config_on_device
    prepare_results-expected [] done p = sym (append-nil (assignments done))
    prepare_results-expected (result ∷ results) done p =
        let config = config_for configs result.request in
        let applied =
          apply_on services s claim config result p.1.next_address p.1.if_name_index
            (lookup result.device s.allocatable) p.0 in
        either-on_ok (not (result.driver == driver_name))
          (prepare_results services s claim configs results done p)
          (prepare_next services s claim configs (prepare_results services s claim configs results)
            result done applied.0 (applied.1, p.1))
          (assignments done) (expected results p.1.if_name_index)
          (some (assignment config result p.1.if_name_index)
            ∷ expected results (next_index result p.1.if_name_index))
          (prepare_results-expected results done p)
          (next-Ends result results done applied.0 (applied.1, p.1)
            (apply_on-IsAssigned config result p.1.next_address p.1.if_name_index
              (lookup result.device s.allocatable) p.0)
            (λ done' p'. prepare_results-expected results done' p'))
