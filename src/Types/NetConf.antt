-- ===== src/Types/NetConf.antt =====
-- pkg/types/types.go: AddDeviceIDToNetConf. encoding/json is an argument.
mod Tests
use k8snetworkplumbingwg_dra.Common.{
  String, Option, none, some, Map, lookup, insert, lookup-insert, if◌then◌else◌, ◌==◌, eq_string,
  Result, ok, err, panic, wrap, ◌≡◌, refl, ◌∙◌, ap, arith,
}

-- A JSON value; what is not a text stays as it is.
pub data Value : Type 0 where
  text : String → Value
  other : String → Value

-- json.Unmarshal into a map and json.Marshal of one; `none` is the nil map, which "null" gives.
pub record Json : Type 0 where
  pub unmarshal : String → Result (Option (Map String Value))
  pub marshal : Map String Value → Result String

module _ (json : Json) where
  abbrev pub marshalled : Result String → Result String
  marshalled (ok modified) = ok modified
  marshalled (err e) = err (wrap "failed to marshal modified config: %w" e)
  marshalled panic = panic

  -- A write to the nil map panics.
  abbrev pub with_device_id : String → Result (Option (Map String Value)) → Result String
  with_device_id device_id (err e) = err (wrap "failed to unmarshal existing config: %w" e)
  with_device_id device_id panic = panic
  with_device_id device_id (ok none) = panic
  with_device_id device_id (ok (some raw)) =
      marshalled (json.marshal (insert "deviceID" (text device_id) raw))

  unfoldable pub add_device_id_to_net_conf : String → String → Result String
  add_device_id_to_net_conf original device_id = with_device_id device_id (json.unmarshal original)

  -- What is assumed of JSON: a map that was marshalled is read back.
  abbrev pub ReadsBack : Type 0
  ReadsBack =
      (raw : Map String Value) (modified : String)
      → json.marshal raw ≡ ok modified
      → json.unmarshal modified ≡ ok (some raw)

  abbrev pub value_of : String → Result (Option (Map String Value)) → Option Value
  value_of key (ok (some raw)) = lookup key raw
  value_of key (ok none) = none
  value_of key (err e) = none
  value_of key panic = none

  marshalled-ok :
      (r : Result String) (modified : String) → marshalled r ≡ ok modified → r ≡ ok modified
  marshalled-ok (ok m) modified h = h
  marshalled-ok (err e) modified h = ground arith
  marshalled-ok panic modified h = ground arith

  with_device_id-value :
      ReadsBack
      → (device_id modified : String) (r : Result (Option (Map String Value))) (key : String)
      → with_device_id device_id r ≡ ok modified
      → value_of key (json.unmarshal modified)
        ≡ (if "deviceID" == key then some (text device_id) else value_of key r)
  with_device_id-value back device_id modified (err e) key h = ground arith
  with_device_id-value back device_id modified panic key h = ground arith
  with_device_id-value back device_id modified (ok none) key h = ground arith
  with_device_id-value back device_id modified (ok (some raw)) key h =
      let changed = insert "deviceID" (text device_id) raw in
      ap (value_of key) (back changed modified (marshalled-ok (json.marshal changed) modified h))
      ∙ lookup-insert "deviceID" key (text device_id) raw

  -- When the call succeeds, the new config has the device ID under "deviceID" and the value of the
  -- original under every other key, where JSON reads back what it wrote.
  pub add_device_id_to_net_conf-value :
      ReadsBack
      → (original device_id modified : String) (key : String)
      → add_device_id_to_net_conf original device_id ≡ ok modified
      → value_of key (json.unmarshal modified) ≡ (
          if "deviceID" == key
          then some (text device_id)
          else value_of key (json.unmarshal original))
  unfolding add_device_id_to_net_conf
  add_device_id_to_net_conf-value back original device_id modified key h =
      with_device_id-value back device_id modified (json.unmarshal original) key h
