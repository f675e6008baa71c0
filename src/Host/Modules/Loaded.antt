-- ===== src/Host/Modules/Loaded.antt =====
-- Which modules are loaded when the Ensure functions return (pkg/host/host.go).
use k8snetworkplumbingwg_dra.Common.{
  String, true, false, List, [], ◌∷◌, contains, eq_string, ok, Error, ◌≡◌, refl, arith, join_all,
  Bool-cases, inl, inr,
}
use k8snetworkplumbingwg_dra.Host.Os.{Os}
use k8snetworkplumbingwg_dra.Host.Modules.{
  is_kernel_module_loaded, load_kernel_module, modules_to_load, load_modules, report,
  ensure_modules, ensure_vhost_modules_loaded,
}

module _ {W : Type 0} (os : Os W) where
  -- What is assumed of modprobe: it unloads nothing.
  abbrev pub KeepsModules : Type 0
  KeepsModules =
      (name loaded : String) (w : W)
      → is_kernel_module_loaded os loaded w ≡ true
      → is_kernel_module_loaded os loaded (os.modprobe name w).1 ≡ true

  load_modules-keeps :
      KeepsModules
      → (names : List String) (n : String) (w : W) → is_kernel_module_loaded os n w ≡ true
      → is_kernel_module_loaded os n (load_modules os names w).1 ≡ true
  unfolding load_modules load_kernel_module
  load_modules-keeps keeps [] n w h = h
  load_modules-keeps keeps (name ∷ names) n w h =
      load_modules-keeps keeps names n (os.modprobe name w).1 (keeps name n w h)

  load_modules-loads :
      KeepsModules
      → (names : List String) (n : String) (w : W) → (load_modules os names w).0 ≡ []
      → contains names n ≡ true
      → is_kernel_module_loaded os n (load_modules os names w).1 ≡ true
  unfolding load_modules load_kernel_module
  load_modules-loads keeps [] n w none_failed member = ground arith
  load_modules-loads keeps (name ∷ names) n w none_failed member = ground (
    arith,
    eq_string.beq_iff name n,
    load_modules-loads keeps names n (os.modprobe name w).1,
    load_modules-keeps keeps names n (os.modprobe name w).1,
  )

  modules_to_load-contains :
      (names : List String) (n : String) (w : W)
      → contains names n ≡ true
      → is_kernel_module_loaded os n w ≡ false
      → contains (modules_to_load os names w) n ≡ true
  unfolding modules_to_load
  modules_to_load-contains [] n w h f = ground arith
  modules_to_load-contains (name ∷ names) n w h f =
      ground (arith, eq_string.beq_iff name n, modules_to_load-contains names n w)

  report-ok : (text : String) (es : List Error) → report os text (join_all es) ≡ ok tt → es ≡ []
  report-ok text [] h = refl
  report-ok text (e ∷ es) h = ground arith

  ensured-keeps :
      KeepsModules
      → (text : String) (missing : List String) (n : String) (w : W)
      → is_kernel_module_loaded os n w ≡ true
      → is_kernel_module_loaded os n (ensure_modules os text missing w).1 ≡ true
  ensured-keeps keeps text [] n w h = h
  ensured-keeps keeps text (m ∷ ms) n w h = load_modules-keeps keeps (m ∷ ms) n w h

  ensured-loads :
      KeepsModules
      → (text : String) (missing : List String) (n : String) (w : W)
      → (ensure_modules os text missing w).0 ≡ ok tt
      → contains missing n ≡ true
      → is_kernel_module_loaded os n (ensure_modules os text missing w).1 ≡ true
  ensured-loads keeps text [] n w h member = ground arith
  ensured-loads keeps text (m ∷ ms) n w h member =
      load_modules-loads keeps (m ∷ ms) n w (report-ok text (load_modules os (m ∷ ms) w).0 h) member

  ensure_modules-loads :
      KeepsModules
      → (text : String) (names : List String) (n : String) (w : W)
      → (ensure_modules os text (modules_to_load os names w) w).0 ≡ ok tt
      → contains names n ≡ true
      → is_kernel_module_loaded os n (ensure_modules os text (modules_to_load os names w) w).1
        ≡ true
  ensure_modules-loads keeps text names n w h member =
      elim (Bool-cases (is_kernel_module_loaded os n w)) [
        | inl t ↦ ensured-keeps keeps text (modules_to_load os names w) n w t
        | inr f ↦
            ensured-loads keeps text (modules_to_load os names w) n w h
              (modules_to_load-contains names n w member f)
      ]

  -- When EnsureVhostModulesLoaded reports success, both modules that vhost needs are loaded, where
  -- loading one module never unloads another.
  pub ensure_vhost_modules_loaded-loaded :
      KeepsModules
      → (w : W) → (ensure_vhost_modules_loaded os w).0 ≡ ok tt
      → (is_kernel_module_loaded os "tun" (ensure_vhost_modules_loaded os w).1 ≡ true)
        × (is_kernel_module_loaded os "vhost_net" (ensure_vhost_modules_loaded os w).1 ≡ true)
  unfolding ensure_vhost_modules_loaded
  ensure_vhost_modules_loaded-loaded keeps w h =
      let text : String =
        "failed to load %d out of %d required kernel modules for vhost functionality: %v" in
      let names : List String = "tun" ∷ "vhost_net" ∷ [] in
      (
        ensure_modules-loads keeps text names "tun" w h refl,
        ensure_modules-loads keeps text names "vhost_net" w h refl,
      )
