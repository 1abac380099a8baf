-- ===== src/Setup/Launch/Outcomes.antt =====
-- What the end of a setup in src/setup.rs tells of its helper and of the files it leaves.
use yj_sandbox.Base.{
  ℕ, zero, suc, true, false, ◌≡◌, ◌⊎◌, refl, sym, ◌∙◌, subst, inl, inr, Bool, Option, none, some,
  not, ◌==◌, if◌then◌else◌, arith, Bool-cases, Option-cases,
}
use yj_sandbox.Base.Outcome.{Result, ok, err, Result-cases}
use yj_sandbox.Base.Text.{Text}
use yj_sandbox.Base.Host.{Host, FilePath}
use yj_sandbox.SetupError.{
  SetupFailure, orchestrator_helper_launch_failed, orchestrator_helper_launch_canceled,
  orchestrator_helper_exit_nonzero, orchestrator_helper_report_read_failed,
  orchestrator_helper_incomplete,
}
use yj_sandbox.Setup.{setup_marker_path, sandbox_users_path, SandboxSetupRequest, sandbox_dir}
use yj_sandbox.Setup.Ports.{OfflineProxySettings}
use yj_sandbox.Setup.Payload.{ElevationPayload, elevated_provisioning_payload}
use yj_sandbox.Setup.Launch.{
  Launcher, LaunchError, failed, reported, HelperRun, not_launched, canceled, exited, quote_arg,
  load_marker, load_users, sandbox_setup_is_complete, report_helper_failure, end_setup,
  after_helper, run_setup_exe_payload, run_setup_exe, run_elevated_setup_inner,
}

-- Clearing the report leaves the marker and the file of the users as they are.
pub record IsLauncher (h : Host) (l : Launcher) : Type 0 where
  pub keeps_marker :
      (codex_home : FilePath) (w : l.World)
      → l.read_to_string (l.clear_report codex_home w).1 (setup_marker_path h codex_home)
        ≡ l.read_to_string w (setup_marker_path h codex_home)
  pub keeps_users :
      (codex_home : FilePath) (w : l.World)
      → l.read_to_string (l.clear_report codex_home w).1 (sandbox_users_path h codex_home)
        ≡ l.read_to_string w (sandbox_users_path h codex_home)

-- A report that has been cleared is not there.
pub record IsClearing (l : Launcher) : Type 0 where
  pub clears :
      (codex_home : FilePath) (w : l.World)
      → (l.clear_report codex_home w).0 ≡ true
      → l.read_report (l.clear_report codex_home w).1 codex_home ≡ ok none

module _ (h : Host) (l : Launcher) where
  open l use {World}

  -- a result and the world that it leaves
  abbrev Ended : Type 0
  Ended = Result LaunchError (Unit {0}) × World

  -- What is told of a helper that did not exit with 0, started in the world `v`: its own report, that
  -- it failed, or that its report is unreadable.
  abbrev pub IsFailure : FilePath → Bool → World → Ended → Type 0
  IsFailure codex_home cleared v r =
      ((f : SetupFailure) × (r.0 ≡ err (reported f))
        × (cleared ≡ true)
        × (l.read_report v codex_home ≡ ok none)
        × (l.read_report r.1 codex_home ≡ ok (some f)))
      ⊎ ((r.0 ≡ err (failed orchestrator_helper_exit_nonzero))
          × ((cleared ≡ false) ⊎ (l.read_report r.1 codex_home ≡ ok none)))
      ⊎ ((r.0 ≡ err (failed orchestrator_helper_report_read_failed))
          × (cleared ≡ true)
          × (l.read_report r.1 codex_home ≡ err tt))

  -- The result, by how the helper ended.
  abbrev pub IsTold : FilePath → Bool → World → HelperRun → Ended → Type 0
  IsTold codex_home cleared v not_launched r = r.0 ≡ err (failed orchestrator_helper_launch_failed)
  IsTold codex_home cleared v canceled r = r.0 ≡ err (failed orchestrator_helper_launch_canceled)
  IsTold codex_home cleared v (exited (some zero)) r =
      ((r.0 ≡ ok tt) × (sandbox_setup_is_complete h l r.1 codex_home ≡ true))
      ⊎ ((r.0 ≡ err (failed orchestrator_helper_incomplete))
          × (sandbox_setup_is_complete h l r.1 codex_home ≡ false))
  IsTold codex_home cleared v (exited (some (suc code))) r = IsFailure codex_home cleared v r
  IsTold codex_home cleared v (exited none) r = IsFailure codex_home cleared v r

  -- the run of the helper, in a world in which the report has been cleared
  abbrev pub helper_run : Text → Bool → World → HelperRun × World
  helper_run payload needs_elevation v =
      if needs_elevation then l.run_elevated (quote_arg payload) v else l.run_helper payload v

  marker_kept :
      (laws : IsLauncher h l) (codex_home : FilePath) (w : World)
      → load_marker h l (l.clear_report codex_home w).1 codex_home ≡ load_marker h l w codex_home
  unfolding load_marker
  marker_kept laws codex_home w = ground (arith, laws.keeps_marker codex_home w)

  users_kept :
      (laws : IsLauncher h l) (codex_home : FilePath) (w : World)
      → load_users h l (l.clear_report codex_home w).1 codex_home ≡ load_users h l w codex_home
  unfolding load_users
  users_kept laws codex_home w = ground (arith, laws.keeps_users codex_home w)

  complete_kept :
      (laws : IsLauncher h l) (codex_home : FilePath) (w : World)
      → sandbox_setup_is_complete h l (l.clear_report codex_home w).1 codex_home
        ≡ sandbox_setup_is_complete h l w codex_home
  unfolding sandbox_setup_is_complete
  complete_kept laws codex_home w =
      ground (arith, marker_kept laws codex_home w, users_kept laws codex_home w)

  end_setup-IsTold :
      (laws : IsLauncher h l) (codex_home : FilePath) (cleared : Bool) (v w : World)
      → IsTold codex_home cleared v (exited (some 0)) (end_setup h l codex_home w)
  unfolding end_setup
  end_setup-IsTold laws codex_home cleared v w =
      elim (Bool-cases (sandbox_setup_is_complete h l w codex_home)) [
        | inl there ↦ rw there (inl (refl, complete_kept laws codex_home w ∙ there))
        | inr missing ↦ rw missing (inr (refl, missing))
      ]

  report_helper_failure-IsFailure :
      (codex_home : FilePath) (cleared : Bool) (v w : World)
      → (cleared ≡ true → l.read_report v codex_home ≡ ok none)
      → IsFailure codex_home cleared v (err (report_helper_failure h l codex_home cleared w), w)
  unfolding report_helper_failure
  report_helper_failure-IsFailure codex_home true v w fresh =
      elim (Result-cases (l.read_report w codex_home)) [
        | inl (tt, unread) ↦ inr (inr (ground (arith, unread), refl, unread))
        | inr (none, no_report) ↦ inr (inl (ground (arith, no_report), inr no_report))
        | inr (some f, report) ↦ inl (f, ground (arith, report), refl, fresh refl, report)
      ]
  report_helper_failure-IsFailure codex_home false v w fresh = inr (inl (refl, inl refl))

  bad_exit :
      (codex_home : FilePath) (cleared : Bool) (code : ℕ) (w : World)
      → after_helper h l codex_home cleared (exited (some (suc code)), w)
        ≡ (err (report_helper_failure h l codex_home cleared w), w)
  unfolding after_helper
  bad_exit codex_home cleared code w =
      let nonzero : (suc code == 0) ≡ false = ground arith in rw nonzero refl

  after_helper-IsTold :
      (laws : IsLauncher h l) (codex_home : FilePath) (cleared : Bool) (v : World)
      → (cleared ≡ true → l.read_report v codex_home ≡ ok none)
      → (r : HelperRun × World)
      → IsTold codex_home cleared v r.0 (after_helper h l codex_home cleared r)
  unfolding after_helper
  after_helper-IsTold laws codex_home cleared v fresh (not_launched, w) = refl
  after_helper-IsTold laws codex_home cleared v fresh (canceled, w) = refl
  after_helper-IsTold laws codex_home cleared v fresh (exited none, w) =
      report_helper_failure-IsFailure codex_home cleared v w fresh
  after_helper-IsTold laws codex_home cleared v fresh (exited (some zero), w) =
      end_setup-IsTold laws codex_home cleared v w
  after_helper-IsTold laws codex_home cleared v fresh (exited (some (suc code)), w) =
      subst (IsFailure codex_home cleared v) (sym (bad_exit codex_home cleared code w))
        (report_helper_failure-IsFailure codex_home cleared v w fresh)

  -- Given that clearing the report keeps the setup's files and, when it succeeds, leaves no report, how
  -- the helper ends decides the result. It is a success if and only if the helper exits with 0 and the
  -- setup is complete, and an exit with 0 and an incomplete setup is a failure with a code for that; so
  -- are a helper that cannot be launched and one that the user cancels, each with its own code. After any
  -- other exit the failure is the helper's, which stands in its report then and stood in none when it was
  -- started; or it says that the helper failed, if the report could not be cleared or there is none; or
  -- that the report cannot be read.
  pub run_setup_exe_payload-IsTold :
      (laws : IsLauncher h l)
      → IsClearing l
      → (payload : Text) (needs_elevation : Bool) (codex_home : FilePath) (w : World)
      → IsTold codex_home
          (l.clear_report codex_home w).0
          (l.clear_report codex_home w).1
          (helper_run payload needs_elevation (l.clear_report codex_home w).1).0
          (run_setup_exe_payload h l payload needs_elevation codex_home w)
  unfolding run_setup_exe_payload
  run_setup_exe_payload-IsTold laws clearing payload needs_elevation codex_home w =
      let (cleared, v) = l.clear_report codex_home w in
      after_helper-IsTold laws codex_home cleared v (clearing.clears codex_home w)
        (helper_run payload needs_elevation v)

  abbrev IsDone : FilePath → Ended → Type 0
  IsDone codex_home r = r.0 ≡ ok tt → sandbox_setup_is_complete h l r.1 codex_home ≡ true

  after_helper-IsDone :
      (laws : IsLauncher h l) (codex_home : FilePath) (cleared : Bool) (r : HelperRun × World)
      → IsDone codex_home (after_helper h l codex_home cleared r)
  unfolding after_helper
  after_helper-IsDone laws codex_home cleared (not_launched, w) = λ e. cc e
  after_helper-IsDone laws codex_home cleared (canceled, w) = λ e. cc e
  after_helper-IsDone laws codex_home cleared (exited none, w) = λ e. cc e
  after_helper-IsDone laws codex_home cleared (exited (some zero), w) = λ e.
      elim (end_setup-IsTold laws codex_home cleared w w) [
        | inl (_, there) ↦ there
        | inr (e', _) ↦ cc (e, e')
      ]
  after_helper-IsDone laws codex_home cleared (exited (some (suc code)), w) =
      subst (IsDone codex_home) (sym (bad_exit codex_home cleared code w)) (λ e. cc e)

  pub run_setup_exe_complete :
      (laws : IsLauncher h l) (payload : ElevationPayload) (needs_elevation : Bool)
      (codex_home : FilePath) (w : World)
      → IsDone codex_home (run_setup_exe h l payload needs_elevation codex_home w)
  unfolding run_setup_exe
  run_setup_exe_complete laws payload needs_elevation codex_home w =
      elim (Option-cases (l.encode payload)) [
        | inl unencoded ↦ λ e. ground (arith, unencoded, e)
        | inr (text, encoded) ↦
            let same : run_setup_exe h l payload needs_elevation codex_home w
                ≡ run_setup_exe_payload h l text needs_elevation codex_home w =
              ground (arith, encoded) in
            subst (IsDone codex_home) (sym same) (
              unfold run_setup_exe_payload in
              after_helper-IsDone laws codex_home (l.clear_report codex_home w).0
                (helper_run text needs_elevation (l.clear_report codex_home w).1))
      ]

  -- A setup that succeeds leaves the marker and the users, both of this version.
  pub run_elevated_setup_complete :
      (laws : IsLauncher h l) (request : SandboxSetupRequest)
      (settings : Option OfflineProxySettings) (w : World)
      → (run_elevated_setup_inner h l request settings w).0 ≡ ok tt
      → sandbox_setup_is_complete h l
          (run_elevated_setup_inner h l request settings w).1
          request.codex_home
        ≡ true
  unfolding run_elevated_setup_inner
  run_elevated_setup_complete laws request settings w e =
      elim (Bool-cases (l.create_dir_all (sandbox_dir h request.codex_home) w).0) [
        | inr unmade ↦ ground (arith, unmade, e)
        | inl made ↦
            let v : World = (l.create_dir_all (sandbox_dir h request.codex_home) w).1 in
            elim (Option-cases (l.is_elevated v)) [
              | inl unknown ↦ ground (arith, made, unknown, e)
              | inr (elevated, known) ↦
                  let run =
                    run_setup_exe h l (elevated_provisioning_payload h request settings)
                      (not elevated) request.codex_home v in
                  let same : run_elevated_setup_inner h l request settings w ≡ run =
                    ground (arith, made, known) in
                  subst (IsDone request.codex_home) (sym same)
                    (run_setup_exe_complete laws (elevated_provisioning_payload h request settings)
                      (not elevated) request.codex_home v)
                    e
            ]
      ]
