-- ===== src/Setup/Provision.antt =====
-- Provisioning by a service that is elevated already: `run_elevated_provisioning_setup` of
-- src/setup.rs, without handles to retain.
use yj_sandbox.Base.{
  Bool, true, false, not, ◌&&◌, ◌≡◌, sym, subst, none, some, arith, Bool-cases, Option-cases, inl,
  inr, if◌then◌else◌,
}
use yj_sandbox.Base.Outcome.{Result, ok, err}
use yj_sandbox.Base.Text.{Text}
use yj_sandbox.Base.Host.{Host, FilePath}
use yj_sandbox.SetupError.{
  orchestrator_sandbox_dir_create_failed, orchestrator_elevation_check_failed,
  orchestrator_elevation_required,
}
use yj_sandbox.Setup.{sandbox_dir}
use yj_sandbox.Setup.Ports.{OfflineProxySettings}
use yj_sandbox.Setup.Payload.{provision_only, provisioning_payload}
use yj_sandbox.Setup.Launch.{
  Launcher, LaunchError, failed, sandbox_setup_is_complete, run_setup_exe,
}
use yj_sandbox.Setup.Launch.Outcomes.{IsLauncher, run_setup_exe_complete}

-- `on_disk` says whether a path's first component is the prefix of a local disk.
module _ (h : Host) (l : Launcher) (on_disk : FilePath → Bool) where
  open l use {World}

  unfoldable pub run_elevated_provisioning_setup :
      FilePath → Text → OfflineProxySettings → World → Result LaunchError (Unit {0}) × World
  run_elevated_provisioning_setup codex_home real_user settings w =
      if not (h.is_absolute codex_home && on_disk codex_home)
      then (err (failed orchestrator_sandbox_dir_create_failed), w)
      else let (made, v) = l.create_dir_all (sandbox_dir h codex_home) w in
        if not made
        then (err (failed orchestrator_sandbox_dir_create_failed), v)
        else elim (l.is_elevated v) [
          | none ↦ (err (failed orchestrator_elevation_check_failed), v)
          | some false ↦ (err (failed orchestrator_elevation_required), v)
          | some true ↦
              run_setup_exe h l (provisioning_payload codex_home settings real_user provision_only)
                false codex_home v
        ]

  -- Given that clearing the report keeps the setup's files, provisioning that succeeds was for an
  -- absolute path on a local disk, ran elevated, and leaves the marker and the users, both of this
  -- version.
  pub provisioning-IsComplete :
      (laws : IsLauncher h l) (codex_home : FilePath) (real_user : Text)
      (settings : OfflineProxySettings) (w : World)
      → (run_elevated_provisioning_setup codex_home real_user settings w).0 ≡ ok tt
      → (h.is_absolute codex_home ≡ true)
        × (on_disk codex_home ≡ true)
        × (l.is_elevated (l.create_dir_all (sandbox_dir h codex_home) w).1 ≡ some true)
        × (sandbox_setup_is_complete h l
              (run_elevated_provisioning_setup codex_home real_user settings w).1
              codex_home
            ≡ true)
  unfolding run_elevated_provisioning_setup
  provisioning-IsComplete laws codex_home real_user settings w e =
      elim (Bool-cases (h.is_absolute codex_home && on_disk codex_home)) [
        | inr off ↦ ground (arith, off, e)
        | inl disk ↦ elim (Bool-cases (l.create_dir_all (sandbox_dir h codex_home) w).0) [
          | inr unmade ↦ ground (arith, disk, unmade, e)
          | inl made ↦
              let v : World = (l.create_dir_all (sandbox_dir h codex_home) w).1 in
              elim (Option-cases (l.is_elevated v)) [
                | inl unknown ↦ ground (arith, disk, made, unknown, e)
                | inr (false, known) ↦ ground (arith, disk, made, known, e)
                | inr (true, known) ↦
                    let payload =
                      provisioning_payload codex_home settings real_user provision_only in
                    let same : run_elevated_provisioning_setup codex_home real_user settings w
                        ≡ run_setup_exe h l payload false codex_home v =
                      ground (arith, disk, made, known) in
                    (
                      ground (arith, disk),
                      ground (arith, disk),
                      known,
                      subst (λ r. r.0 ≡ ok tt → sandbox_setup_is_complete h l r.1 codex_home ≡ true)
                          (sym same) (run_setup_exe_complete h l laws payload false codex_home v) e,
                    )
              ]
        ]
      ]
