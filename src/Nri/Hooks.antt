-- ===== src/Nri/Hooks.antt =====
-- What RunPodSandbox queues (pkg/nri/nri.go).
mod Tests
use k8snetworkplumbingwg_dra.Common.{
  String, Option, none, some, Bool, true, false, not, ℕ, zero, suc, List, [], ◌∷◌, ◌++◌, length,
  if◌then◌else◌, ◌==◌, eq_string, Map, Result, ok, err, panic, Error, Action, ◌>>=◌, ◌>>◌, and_then,
  map_err, ◌≡◌, refl, sym, ap, ◌∙◌, arith, if_intro, wrap, subst, ◌&&◌,
}
use k8snetworkplumbingwg_dra.Kube.{NetworkDeviceData, ResourceClaim}
use k8snetworkplumbingwg_dra.Types.Prepared.{PreparedDevice, PreparedDevices}
use k8snetworkplumbingwg_dra.Common.Yields.{OnOk, on_ok-any}
use k8snetworkplumbingwg_dra.PodManager.Store.{
  CheckpointManager, PodManager, get_devices_by_pod_uid,
}
use k8snetworkplumbingwg_dra.Nri.Sandbox.{PodSandbox, get_network_namespace}
use k8snetworkplumbingwg_dra.Nri.Updates.{NetworkData, Key}
use k8snetworkplumbingwg_dra.Nri.Plugin.{
  Plugin, Clients, attach_all, attached, run_on, on_world, send, run_pod_sandbox,
  update_request_metadata_before_sandbox_start, update_network_device_data,
}

-- The prepared devices of a batch, in order.
abbrev pub device_of : Option NetworkData → Option PreparedDevice
device_of none = none
device_of (some item) = item.prepared_device

unfoldable pub devices_of : List (Option NetworkData) → PreparedDevices
devices_of [] = []
devices_of (item ∷ items) = device_of item ∷ devices_of items

module _ {W D : Type 0} (checkpoints : CheckpointManager D) (clients : Clients W)
    (enable_device_metadata : Bool) where
  abbrev Covers : PreparedDevices → Result (List (Option NetworkData)) → Type 0
  Covers ps r = OnOk r (λ items. devices_of items ≡ ps)

  more_items :
      (p : PreparedDevice) (ps : PreparedDevices) (item : NetworkData)
      (r : Result (List (Option NetworkData))) (w : W)
      → item.prepared_device ≡ some p
      → Covers ps r
      → Covers (some p ∷ ps) (and_then r (λ items v. (ok (some item ∷ items), v)) w).0
  unfolding devices_of
  more_items p ps item (ok items) w e h = λ i. e i ∷ h i
  more_items p ps item (err x) w e h = tt
  more_items p ps item panic w e h = tt

  after_attach :
      (pod : PodSandbox) (ns : String) (o : Option PreparedDevice) (ps : PreparedDevices)
      (r : Result (Option NetworkDeviceData × String)) (w : W)
      → ((v : W) → Covers ps (attach_all checkpoints clients enable_device_metadata pod ns ps v).0)
      → Covers
          (o ∷ ps)
          (and_then r
            (λ result. attached checkpoints clients enable_device_metadata o result >>= λ item.
              attach_all checkpoints clients enable_device_metadata pod ns ps >>= λ items v.
              (ok (some item ∷ items), v))
            w).0
  after_attach pod ns none ps (ok result) w h = tt
  after_attach pod ns (some p) ps (ok result) w h =
      let (r, w') = attach_all checkpoints clients enable_device_metadata pod ns ps w in
      more_items p ps _ r w' refl (h w)
  after_attach pod ns o ps (err x) w h = tt
  after_attach pod ns o ps panic w h = tt

  -- Each attached device has one item.
  attach_all-Covers :
      (pod : PodSandbox) (ns : String) (ps : PreparedDevices) (w : W)
      → Covers ps (attach_all checkpoints clients enable_device_metadata pod ns ps w).0
  unfolding attach_all devices_of
  attach_all-Covers pod ns [] w = refl
  attach_all-Covers pod ns (p ∷ ps) w =
      let (r, w') =
        map_err (wrap "failed to attach network: %w") (clients.attach_network pod ns p) w in
      after_attach pod ns p ps r w' (attach_all-Covers pod ns ps)

  -- On success one batch was queued, with one item for each device; else none was.
  abbrev pub Queued : PreparedDevices → Plugin W D → Result (Unit {0}) → Plugin W D → Type 0
  Queued ps s (ok _) s' =
      (items : List (Option NetworkData)) × ((s'.queue ≡ s.queue ++ items ∷ [])
        × (devices_of items ≡ ps))
  Queued ps s (err e) s' = s'.queue ≡ s.queue
  Queued ps s panic s' = s'.queue ≡ s.queue

  abbrev Outcome : PreparedDevices → Plugin W D → Result (Unit {0}) × Plugin W D → Type 0
  Outcome ps s (r, s') = (s'.pods ≡ s.pods) × Queued ps s r s'

  sent-Outcome :
      (ps : PreparedDevices) (s : Plugin W D) (items : List (Option NetworkData))
      (g : Error → Error) (r : Result (Unit {0})) (v : W)
      → devices_of items ≡ ps
      → Outcome ps s (
          and_then
            (elim r [ err e ↦ err (g e) | other ↦ other ])
            (λ _. send checkpoints clients enable_device_metadata items)
            (record s { world = v }))
  sent-Outcome ps s items g (ok _) v h = (refl, (items, (refl, h)))
  sent-Outcome ps s items g (err e) v h = (refl, refl)
  sent-Outcome ps s items g panic v h = (refl, refl)

  attached-Outcome :
      (ps : PreparedDevices) (s : Plugin W D) (r : Result (List (Option NetworkData))) (v : W)
      → Covers ps r
      → Outcome ps s (
          and_then r
            (λ items.
              map_err (wrap "failed to update request metadata before pod start: %w") (
                on_world checkpoints clients enable_device_metadata (
                  update_request_metadata_before_sandbox_start checkpoints clients
                    enable_device_metadata items))
              >> send checkpoints clients enable_device_metadata items)
            (record s { world = v }))
  attached-Outcome ps s (ok items) v h =
      let (r, v') =
        update_request_metadata_before_sandbox_start checkpoints clients enable_device_metadata
          items v in
      sent-Outcome ps s items _ r v' h
  attached-Outcome ps s (err e) v h = (refl, refl)
  attached-Outcome ps s panic v h = (refl, refl)

  -- For a pod with prepared devices and a network namespace, RunPodSandbox never changes the stored
  -- devices. When it succeeds it has queued one batch, which has exactly one item for each of the
  -- pod's devices, in their order; when it fails it has queued nothing.
  pub run_pod_sandbox-Queued :
      (pod : PodSandbox) (ps : PreparedDevices) (s : Plugin W D)
      → get_devices_by_pod_uid pod.uid s.pods ≡ some ps
      → (get_network_namespace pod == "") ≡ false
      → ((run_pod_sandbox checkpoints clients enable_device_metadata pod s).1.pods ≡ s.pods)
        × Queued ps s
            (run_pod_sandbox checkpoints clients enable_device_metadata pod s).0
            (run_pod_sandbox checkpoints clients enable_device_metadata pod s).1
  unfolding run_pod_sandbox
  run_pod_sandbox-Queued pod ps s has ns =
      let (r, v) =
        attach_all checkpoints clients enable_device_metadata pod (get_network_namespace pod) ps
          s.world in
      subst (λ o. Outcome ps s (run_on checkpoints clients enable_device_metadata pod o s))
        (sym has)
        (subst
          (λ b. Outcome ps s (
            (if b
                then (λ t. (ok tt, t))
                else on_world checkpoints clients enable_device_metadata (
                    attach_all checkpoints clients enable_device_metadata pod
                      (get_network_namespace pod) ps)
                  >>= λ items.
                      map_err (wrap "failed to update request metadata before pod start: %w") (
                        on_world checkpoints clients enable_device_metadata (
                          update_request_metadata_before_sandbox_start checkpoints clients
                            enable_device_metadata items))
                      >> send checkpoints clients enable_device_metadata items)
              s))
          (sym ns)
          (attached-Outcome ps s r v
            (attach_all-Covers pod (get_network_namespace pod) ps s.world)))
