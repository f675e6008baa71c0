-- ===== src/Host/Modules.antt =====
-- pkg/host/host.go: IsKernelModuleLoaded, LoadKernelModule, IsDpdkDriver, EnsureDpdkModuleLoaded and
-- EnsureVhostModulesLoaded.
pub mod Loaded
use Prim.Native.String.{◌++◌ as concat}
use k8snetworkplumbingwg_dra.Common.{
  String, Option, none, some, Bool, true, false, not, List, [], ◌∷◌, if◌then◌else◌, ◌==◌, ◌||◌,
  eq_string, Result, ok, err, panic, Error, plain, wrap, quote, join_all, Action,
}
use k8snetworkplumbingwg_dra.Host.Os.{Os}

unfoldable pub is_dpdk_driver : String → Bool
is_dpdk_driver driver =
    if driver == "vfio-pci"
    then true
    else if driver == "uio_pci_generic"
    then true
    else driver == "igb_uio"

module _ {W : Type 0} (os : Os W) where
  unfoldable pub some_line : String → List String → Bool
  some_line name [] = false
  some_line name (line ∷ lines) =
      let rest = some_line name lines in
      if os.has_prefix line (concat name " ") || line == name then true else rest

  unfoldable pub is_kernel_module_loaded : String → W → Bool
  is_kernel_module_loaded name w = elim (os.proc_modules w) [
    | ok lines ↦ some_line name lines
    | err e ↦ false
    | panic ↦ false
  ]

  abbrev explained : Option Error → Option Error
  explained none = none
  explained (some e) = some (wrap "failed to load kernel module %s: %w (output: %s)" e)

  unfoldable pub load_kernel_module : String → W → Option Error × W
  load_kernel_module name w = let (e, w') = os.modprobe name w in (explained e, w')

  unfoldable pub modules_to_load : List String → W → List String
  modules_to_load [] w = []
  modules_to_load (name ∷ names) w =
      let rest = modules_to_load names w in
      if is_kernel_module_loaded name w then rest else name ∷ rest

  abbrev not_loaded : Error
  not_loaded = plain "module %s was not loaded after LoadKernelModule call"

  -- The errors of one module: LoadKernelModule's, or that of the check after it.
  abbrev pub load_error : Option Error → Bool → List Error
  load_error (some e) loaded = wrap "failed to load module %s: %w" e ∷ []
  load_error none true = []
  load_error none false = not_loaded ∷ []

  abbrev pub add_errors : List Error → List Error → List Error
  add_errors [] es = es
  add_errors (d ∷ ds) es = d ∷ add_errors ds es

  -- The loop over the missing modules: every one is tried, and the errors are collected.
  unfoldable pub load_modules : List String → W → List Error × W
  load_modules [] w = ([], w)
  load_modules (name ∷ names) w =
      let (r, w1) = load_kernel_module name w in
      let (es, w2) = load_modules names w1 in
      (add_errors (load_error r (is_kernel_module_loaded name w1)) es, w2)

  abbrev pub report : String → Option Error → Result (Unit {0})
  report text none = ok tt
  report text (some e) = err (quote text e)

  abbrev pub ensure_modules : String → List String → Action W (Unit {0})
  ensure_modules text [] w = (ok tt, w)
  ensure_modules text (name ∷ names) w =
      let (es, w') = load_modules (name ∷ names) w in (report text (join_all es), w')

  unfoldable pub ensure_dpdk_module_loaded : String → Action W (Unit {0})
  ensure_dpdk_module_loaded driver w =
      if not (is_dpdk_driver driver)
      then (ok tt, w)
      else if driver == "vfio-pci"
      then ensure_modules
          "failed to load %d out of %d required kernel modules for DPDK driver %s: %v"
          (modules_to_load ("vfio" ∷ "vfio_pci" ∷ []) w) w
      else (err (plain "unknown DPDK driver: %s"), w)

  unfoldable pub ensure_vhost_modules_loaded : Action W (Unit {0})
  ensure_vhost_modules_loaded w =
      ensure_modules
        "failed to load %d out of %d required kernel modules for vhost functionality: %v"
        (modules_to_load ("tun" ∷ "vhost_net" ∷ []) w) w
