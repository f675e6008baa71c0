-- ===== src/Types/NetConf/Tests.antt =====
-- A JSON that knows the empty object and objects with a device ID only.
use k8snetworkplumbingwg_dra.Common.{
  String, Option, some, [], ◌∷◌, ◌==◌, eq_string, if◌then◌else◌, ◌≡◌, refl, Result, ok, err, plain,
  arith, Map, insert,
}
use k8snetworkplumbingwg_dra.Types.NetConf.{
  Value, text, other, Json, add_device_id_to_net_conf, value_of, ReadsBack,
  add_device_id_to_net_conf-value,
}

abbrev unmarshal : String → Result (Option (Map String Value))
unmarshal conf = if conf == "{}" then ok (some []) else ok (some (("deviceID", text conf) ∷ []))

abbrev marshal : Map String Value → Result String
marshal [] = err (plain "unsupported")
marshal ((key, other v) ∷ raw) = err (plain "unsupported")
marshal ((key, text v) ∷ x ∷ raw) = err (plain "unsupported")
marshal ((key, text v) ∷ []) =
    if key == "deviceID"
    then if v == "{}" then err (plain "unsupported") else ok v
    else err (plain "unsupported")

abbrev json : Json
json = record { unmarshal = unmarshal; marshal = marshal }

reads_back : ReadsBack json
reads_back [] modified h = ground arith
reads_back ((key, other v) ∷ raw) modified h = ground arith
reads_back ((key, text v) ∷ x ∷ raw) modified h = ground arith
reads_back ((key, text v) ∷ []) modified h = ground (arith, eq_string.beq_iff key "deviceID")

added : add_device_id_to_net_conf json "{}" "0000:01:00.1" ≡ ok "0000:01:00.1"
unfolding add_device_id_to_net_conf insert
added = refl

add_device_id_to_net_conf-value_example :
    value_of json "deviceID" (json.unmarshal "0000:01:00.1") ≡ some (text "0000:01:00.1")
add_device_id_to_net_conf-value_example =
    add_device_id_to_net_conf-value json reads_back "{}" "0000:01:00.1" "0000:01:00.1" "deviceID"
      added
