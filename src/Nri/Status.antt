-- ===== src/Nri/Status.antt =====
-- What an update does to a claim's status (pkg/nri/nri.go: buildClaimStatusDeviceIndex and
-- updateClaimDeviceStatus).
use k8snetworkplumbingwg_dra.Common.{
  String, Option, none, some, Bool, true, false, ℕ, suc, List, [], ◌∷◌, ◌++◌, if◌then◌else◌, ◌==◌,
  Map, lookup, ◌≡◌, refl, sym, ◌∙◌, ap, append-nil, append_assoc,
}
use k8snetworkplumbingwg_dra.Kube.{AllocatedDeviceStatus}
use k8snetworkplumbingwg_dra.Types.Prepared.{PreparedDevice}
use k8snetworkplumbingwg_dra.Nri.Updates.{
  NetworkData, Key, eq_key, or_nil, append_at, status_key, index_from,
  build_claim_status_device_index, change_at, change_all, refresh, device_key, change_found,
  update_claim_device_status,
}
use k8snetworkplumbingwg_dra.Nri.Groups.{singleton_if, lookup-append_at, lookup-no_key}

-- The positions of a key's entries, from an index on.
unfoldable pub positions : Key → ℕ → List AllocatedDeviceStatus → List ℕ
positions k idx [] = []
positions k idx (status ∷ devices) =
    singleton_if (status_key status == k) idx ++ positions k (suc idx) devices

lookup-index_from :
    (k : Key) (idx : ℕ) (devices : List AllocatedDeviceStatus) (m : Map Key (List ℕ))
    → or_nil (lookup k (index_from idx devices m)) ≡ or_nil (lookup k m) ++ positions k idx devices
unfolding index_from positions
lookup-index_from k idx [] m = sym (append-nil (or_nil (lookup k m)))
lookup-index_from k idx (status ∷ devices) m =
    lookup-index_from k (suc idx) devices (append_at (status_key status) idx m)
    ∙ (ap (λ xs. xs ++ positions k (suc idx) devices) (lookup-append_at (status_key status) k idx m)
        ∙ append_assoc (or_nil (lookup k m)) (singleton_if (status_key status == k) idx)
            (positions k (suc idx) devices))

-- Every entry with the key changed.
unfoldable pub change_matching :
    Key
    → (AllocatedDeviceStatus → AllocatedDeviceStatus)
    → List AllocatedDeviceStatus
    → List AllocatedDeviceStatus
change_matching k f [] = []
change_matching k f (status ∷ devices) =
    (if status_key status == k then f status else status) ∷ change_matching k f devices

abbrev all_suc : List ℕ → List ℕ
all_suc [] = []
all_suc (n ∷ ns) = suc n ∷ all_suc ns

all_suc-append : (ms ns : List ℕ) → all_suc (ms ++ ns) ≡ all_suc ms ++ all_suc ns
all_suc-append [] ns = refl
all_suc-append (m ∷ ms) ns = ap (λ xs. suc m ∷ xs) (all_suc-append ms ns)

all_suc-singleton : (b : Bool) (n : ℕ) → all_suc (singleton_if b n) ≡ singleton_if b (suc n)
all_suc-singleton true n = refl
all_suc-singleton false n = refl

positions-suc :
    (k : Key) (idx : ℕ) (devices : List AllocatedDeviceStatus)
    → positions k (suc idx) devices ≡ all_suc (positions k idx devices)
unfolding positions
positions-suc k idx [] = refl
positions-suc k idx (status ∷ devices) =
    ap (λ xs. singleton_if (status_key status == k) (suc idx) ++ xs)
      (positions-suc k (suc idx) devices)
    ∙ sym (
        all_suc-append (singleton_if (status_key status == k) idx) (positions k (suc idx) devices)
        ∙ ap (λ xs. xs ++ all_suc (positions k (suc idx) devices))
            (all_suc-singleton (status_key status == k) idx))

change_all-suc :
    {A : Type 0} (ns : List ℕ) (f : A → A) (x : A) (xs : List A)
    → change_all (all_suc ns) f (x ∷ xs) ≡ x ∷ change_all ns f xs
unfolding change_all change_at
change_all-suc [] f x xs = refl
change_all-suc (n ∷ ns) f x xs = change_all-suc ns f x (change_at n f xs)

change_all-singleton :
    {A : Type 0} (b : Bool) (ns : List ℕ) (f : A → A) (x : A) (xs : List A)
    → change_all (singleton_if b 0 ++ all_suc ns) f (x ∷ xs)
      ≡ (if b then f x else x) ∷ change_all ns f xs
unfolding change_all change_at
change_all-singleton true ns f x xs = change_all-suc ns f (f x) xs
change_all-singleton false ns f x xs = change_all-suc ns f x xs

change_all-positions :
    (k : Key) (f : AllocatedDeviceStatus → AllocatedDeviceStatus)
    (devices : List AllocatedDeviceStatus)
    → change_all (positions k 0 devices) f devices ≡ change_matching k f devices
unfolding positions change_matching change_all
change_all-positions k f [] = refl
change_all-positions k f (status ∷ devices) =
    ap (λ ns. change_all (singleton_if (status_key status == k) 0 ++ ns) f (status ∷ devices))
      (positions-suc k 0 devices)
    ∙ (change_all-singleton (status_key status == k) (positions k 0 devices) f status devices
        ∙ ap (λ ds. (if status_key status == k then f status else status) ∷ ds)
            (change_all-positions k f devices))

change_found-all :
    (o : Option (List ℕ)) (f : AllocatedDeviceStatus → AllocatedDeviceStatus)
    (devices : List AllocatedDeviceStatus)
    → (change_found o f devices).1 ≡ change_all (or_nil o) f devices
unfolding change_all
change_found-all none f devices = refl
change_found-all (some ns) f devices = refl

-- With the index of a claim's own status, an update changes exactly the entries of this driver for
-- the pool and the name of the prepared device, and keeps all others and the order.
pub update_claim_device_status-matching :
    (marshal : PreparedDevice → String → String → Option String) (p : PreparedDevice)
    (item : NetworkData) (devices : List AllocatedDeviceStatus)
    → (update_claim_device_status marshal
        (build_claim_status_device_index devices)
        p
        item
        devices).1
      ≡ change_matching
          (device_key p)
          (refresh item.network_device_data (marshal p item.cni_config item.cni_result))
          devices
unfolding update_claim_device_status build_claim_status_device_index
update_claim_device_status-matching marshal p item devices =
    let f = refresh item.network_device_data (marshal p item.cni_config item.cni_result) in
    change_found-all (lookup (device_key p) (index_from 0 devices [])) f devices
    ∙ (ap (λ ns. change_all ns f devices)
          (lookup-index_from (device_key p) 0 devices []
            ∙ ap (λ o. or_nil o ++ positions (device_key p) 0 devices)
                (lookup-no_key {V = List ℕ} (device_key p)))
        ∙ change_all-positions (device_key p) f devices)
