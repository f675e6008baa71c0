-- ===== src/Host/Os.antt =====
-- What pkg/host/host.go calls of the operating system: files under /sys and /proc, and modprobe.
use k8snetworkplumbingwg_dra.Common.{String, Option, Bool, List, Result, Error, Action}

-- The paths that buildSysBusPciPath and buildSysBusPciDriverPath build, with the prefix RootDir.
pub data SysFile : Type 0 where
  driver_link driver_override : String → SysFile
  bind_file unbind_file : String → SysFile
  drivers_probe : SysFile

-- A file that does not exist is `none` or `false`; every other failure is an error. `has_prefix` is
-- strings.HasPrefix, `base` is filepath.Base.
pub record Os (W : Type 0) : Type 0 where
  pub readlink : SysFile → W → Result (Option String)
  pub stat : SysFile → W → Result Bool
  pub write_file : SysFile → String → Action W (Unit {0})
  pub proc_modules : W → Result (List String)
  pub modprobe : String → W → Option Error × W
  pub has_prefix : String → String → Bool
  pub base : String → String

abbrev pub reading : {W A : Type 0} → (W → Result A) → Action W A
reading f w = (f w, w)
