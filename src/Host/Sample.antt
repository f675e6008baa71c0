-- ===== src/Host/Sample.antt =====
-- A host on which every write succeeds, for tests.
use k8snetworkplumbingwg_dra.Common.{
  String, Option, none, some, true, false, List, ◌∷◌, if◌then◌else◌, ◌==◌, ==_refl, eq_string,
  Result, ok, refl, arith,
}
use k8snetworkplumbingwg_dra.Host.Os.{Os, SysFile, driver_link, bind_file, unbind_file}
use k8snetworkplumbingwg_dra.Host.Driver.Frame.{IsFramed}
use k8snetworkplumbingwg_dra.Host.Driver.Restore.{IsSysfs}

-- The driver of each device, and the lines of /proc/modules.
pub record World : Type 0 where
  pub driver_of : String → String
  pub modules : List String

abbrev link_of : String → Option String
link_of driver = if driver == "" then none else some driver

abbrev readlink : SysFile → World → Result (Option String)
readlink (driver_link d) w = ok (link_of (w.driver_of d))
readlink _ w = ok none

abbrev write : SysFile → String → World → Result (Unit {0}) × World
write (bind_file driver) d w =
    (ok tt, record w { driver_of = λ e. if d == e then driver else w.driver_of e })
write (unbind_file driver) d w =
    (ok tt, record w { driver_of = λ e. if d == e then "" else w.driver_of e })
write _ text w = (ok tt, w)

abbrev pub os : Os World
os = record {
  readlink = readlink;
  stat = λ file w. ok true;
  write_file = write;
  proc_modules = λ w. ok w.modules;
  modprobe = λ name w. (none, record w { modules = name ∷ w.modules });
  has_prefix = λ line text. false;
  base = λ path. path;
}

abbrev pub bound_to : World → String → String
bound_to w d = w.driver_of d

pub sysfs : IsSysfs os bound_to
sysfs = record {
  link = λ d w. ground (arith, eq_string.beq_iff (w.driver_of d) "");
  binds = λ d driver w. ground (arith, ==_refl d);
  override_keeps = λ d text e w. refl;
}

pub framed : IsFramed os bound_to
framed = record {
  bind_keeps = λ d driver e w h. ground (arith, h);
  unbind_keeps = λ d driver e w h. ground (arith, h);
  probe_keeps = λ d e w h. refl;
  loads_keep = λ e. ((λ w. refl), ((λ w. refl), tt));
}
