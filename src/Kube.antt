-- ===== src/Kube.antt =====
-- The Kubernetes API objects that the driver reads and writes (k8s.io/api/resource/v1), with the
-- fields that it uses. A quantity whose unit the code never looks into (raw JSON) is its text.
use k8snetworkplumbingwg_dra.Common.{
  String, Option, Bool, List, ℕ, Map, ◌≡◌, ◌↔◌, true, false, not, ◌==◌, eq_nat, eq_string, ◌&&◌,
  arith, option_eq, option_eq_iff,
}

-- An int64; `negsuc n` is -(n + 1).
pub data ℤ : Type 0 where
  pos : ℕ → ℤ
  negsuc : ℕ → ℤ

-- resourceapi.DeviceAttribute: pointers, of which one is set.
pub record DeviceAttribute : Type 0 where
  pub int_value : Option ℤ
  pub bool_value : Option Bool
  pub string_value : Option String
  pub version_value : Option String

int_eq : ℤ → ℤ → Bool
int_eq (pos a) (pos b) = a == b
int_eq (negsuc a) (negsuc b) = a == b
int_eq _ _ = false

int_eq_iff : (a b : ℤ) → (int_eq a b ≡ true) ↔ (a ≡ b)
unfolding int_eq
int_eq_iff (pos a) (pos b) = ground arith
int_eq_iff (negsuc a) (negsuc b) = ground arith
int_eq_iff (pos a) (negsuc b) = ground arith
int_eq_iff (negsuc a) (pos b) = ground arith

bool_eq : Bool → Bool → Bool
bool_eq true b = b
bool_eq false b = not b

bool_eq_iff : (a b : Bool) → (bool_eq a b ≡ true) ↔ (a ≡ b)
unfolding bool_eq
bool_eq_iff a b = ground arith

-- deviceAttributeEqual of pkg/devicestate/state.go: reflect.DeepEqual compares what the pointers
-- point to.
unfoldable pub device_attribute_equal : DeviceAttribute → DeviceAttribute → Bool
unfolding option_eq int_eq bool_eq
device_attribute_equal a b =
    option_eq int_eq a.int_value b.int_value
    && (option_eq bool_eq a.bool_value b.bool_value
        && (option_eq eq_string.beq a.string_value b.string_value
            && option_eq eq_string.beq a.version_value b.version_value))

pub device_attribute_equal_iff :
    (a b : DeviceAttribute) → (device_attribute_equal a b ≡ true) ↔ (a ≡ b)
unfolding device_attribute_equal
device_attribute_equal_iff a b = ground (
  arith,
  option_eq_iff int_eq int_eq_iff a.int_value b.int_value,
  option_eq_iff bool_eq bool_eq_iff a.bool_value b.bool_value,
  option_eq_iff eq_string.beq eq_string.beq_iff a.string_value b.string_value,
  option_eq_iff eq_string.beq eq_string.beq_iff a.version_value b.version_value,
)

-- map[resourceapi.QualifiedName]resourceapi.DeviceAttribute
abbrev pub Attributes : Type 0
Attributes = Map String DeviceAttribute

pub record Device : Type 0 where
  pub name : String
  pub attributes : Attributes

pub record NetworkDeviceData : Type 0 where
  pub interface_name : String
  pub ips : List String
  pub hardware_address : String

-- One entry of ResourceClaim.status.devices.
pub record AllocatedDeviceStatus : Type 0 where
  pub driver : String
  pub pool : String
  pub device : String
  pub share_id : Option String
  pub raw_data : Option String
  pub network_data : Option NetworkDeviceData

pub record DeviceRequestAllocationResult : Type 0 where
  pub request : String
  pub driver : String
  pub pool : String
  pub device : String
  pub share_id : Option String

-- The source of a config is text; the API defines "FromClass" and "FromClaim".
pub record OpaqueConfiguration : Type 0 where
  pub driver : String
  pub parameters : String

pub record DeviceAllocationConfiguration : Type 0 where
  pub source : String
  pub requests : List String
  pub opaque : Option OpaqueConfiguration

pub record Allocation : Type 0 where
  pub results : List DeviceRequestAllocationResult
  pub config : List DeviceAllocationConfiguration

pub record ResourceClaim : Type 0 where
  pub name : String
  pub namespace : String
  pub uid : String
  pub reserved_for : List String
  pub allocation : Option Allocation
  pub devices : List AllocatedDeviceStatus

-- kubeletplugin.NamespacedObject
pub record NamespacedObject : Type 0 where
  pub name : String
  pub namespace : String
  pub uid : String
