-- ===== src/Elevated/Retried.antt =====
-- When a runner is started a second time: `retry_runner_spawn_once` of src/elevated/runner_client.rs.
use yj_sandbox.Base.{
  ℕ, ◌≡◌, ◌↔◌, ◌⊎◌, inl, inr, refl, Bool, true, List, [], ◌∷◌, Option, none, some, Member,
  any-Member, Member-any, arith, Bool-cases,
}
use yj_sandbox.Base.Outcome.{Result, ok, err, Result-cases}
use yj_sandbox.Base.Text.{Text, codes, eq_ignore_ascii_case}
use yj_sandbox.Base.Host.{Host}
use yj_sandbox.Identity.{SandboxCreds}
use yj_sandbox.Elevated.{ErrorStage, read_spawn_request, spawn_child, write_spawn_ready}
use yj_sandbox.Elevated.Client.{
  RunnerError, logon, startup, framing, waiting, closed, unexpected, identity,
  is_refreshable_windows_error, is_spawn_child, command_targets_windows_apps,
  is_refreshable_spawn_error, is_refreshable_sandbox_creds_error, retry_runner_spawn_once,
}

-- An account that is disabled, a wrong password, or a logon session that is gone.
abbrev pub IsLogonFailure : ℕ → Type 0
IsLogonFailure code = (code ≡ 1331) ⊎ (code ≡ 1326) ⊎ (code ≡ 1312)

-- The program is somewhere below a directory `WindowsApps`.
abbrev pub IsWindowsApp : Host → List Text → Type 0
IsWindowsApp h [] = ⊥
IsWindowsApp h (program ∷ arguments) =
    (component : Text) × Member component (h.components program)
    × (eq_ignore_ascii_case component (codes "WindowsApps") ≡ true)

-- The error says that the credentials are of no use any more; a session that is gone says nothing
-- of them for a program of `WindowsApps`.
abbrev pub IsStale : Host → RunnerError → List Text → Type 0
IsStale h (logon code) command = IsLogonFailure code
IsStale h (startup payload) command =
    (code : ℕ) × (payload.stage ≡ spawn_child)
    × (payload.windows_error_code ≡ some code)
    × IsLogonFailure code
    × ¬ ((code ≡ 1312) × IsWindowsApp h command)
IsStale h _ command = ⊥

is_refreshable_iff : (code : ℕ) → (is_refreshable_windows_error code ≡ true) ↔ IsLogonFailure code
unfolding is_refreshable_windows_error
is_refreshable_iff code = ground arith

module _ (h : Host) where
  targets_iff :
      (command : List Text)
      → (command_targets_windows_apps h command ≡ true) ↔ IsWindowsApp h command
  unfolding command_targets_windows_apps
  targets_iff [] = ground arith
  targets_iff (program ∷ arguments) =
      let is_apps : Text → Bool =
        λ component. eq_ignore_ascii_case component (codes "WindowsApps") in
      (
        any-Member is_apps (h.components program),
        λ (component, m, e). Member-any is_apps (h.components program) component m e,
      )

  spawn_error_iff :
      (command : List Text) (o : Option ℕ)
      → (is_refreshable_spawn_error h command o ≡ true) ↔ (
          (code : ℕ) × (o ≡ some code)
          × IsLogonFailure code
          × ¬ ((code ≡ 1312) × IsWindowsApp h command))
  unfolding is_refreshable_spawn_error
  spawn_error_iff command none = (λ e. cc e, λ (code, e, f, g). cc e)
  spawn_error_iff command (some code) = (
    λ e. (
      code,
      refl,
      (is_refreshable_iff code).0 (ground (arith, e)),
      λ (same, app). ground (arith, e, same, (targets_iff command).1 app),
    ),
    λ (known, e, failure, other). elim (Bool-cases (command_targets_windows_apps h command)) [
      | inl app ↦
          let differs : ¬ (code ≡ 1312) =
            λ same. other (ground (arith, e, same), (targets_iff command).0 app) in
          ground (arith, e, differs, (is_refreshable_iff known).1 failure)
      | inr none_of ↦ ground (arith, e, none_of, (is_refreshable_iff known).1 failure)
    ],
  )

  stage_iff : (stage : ErrorStage) → (is_spawn_child stage ≡ true) ↔ (stage ≡ spawn_child)
  stage_iff read_spawn_request = ground arith
  stage_iff spawn_child = ground arith
  stage_iff write_spawn_ready = ground arith

  IsStale-iff :
      (why : RunnerError) (command : List Text)
      → (is_refreshable_sandbox_creds_error h why command ≡ true) ↔ IsStale h why command
  unfolding is_refreshable_sandbox_creds_error is_refreshable_spawn_error
  IsStale-iff (logon code) command = is_refreshable_iff code
  IsStale-iff (startup payload) command = (
    λ e.
        let (code, there, f, g) =
          (spawn_error_iff command payload.windows_error_code).0 (ground (arith, e)) in
        (code, (stage_iff payload.stage).0 (ground (arith, e)), there, f, g),
    λ (code, stage, there, f, g). ground (
      arith,
      (stage_iff payload.stage).1 stage,
      (spawn_error_iff command payload.windows_error_code).1 (code, there, f, g),
    ),
  )
  IsStale-iff (framing why) command = (λ e. cc e, λ e. elim e [ ])
  IsStale-iff (waiting why) command = (λ e. cc e, λ e. elim e [ ])
  IsStale-iff closed command = (λ e. cc e, λ e. elim e [ ])
  IsStale-iff (unexpected m) command = (λ e. cc e, λ e. elim e [ ])
  IsStale-iff (identity why) command = (λ e. cc e, λ e. elim e [ ])

  module _ {S T : Type 0} (spawn : SandboxCreds → S → Result RunnerError T × S)
      (refresh : S → Result RunnerError SandboxCreds × S) where
    -- What the one or two starts come to.
    abbrev pub IsRetried : SandboxCreds → List Text → S → Result RunnerError T × S → Type 0
    IsRetried creds command s result =
        ((value : T) × (t : S) × (spawn creds s ≡ (ok value, t)) × (result ≡ (ok value, t)))
        ⊎ ((why : RunnerError) × (t : S) × (spawn creds s ≡ (err why, t))
            × ¬ (IsStale h why command)
            × (result ≡ (err why, t)))
        ⊎ ((why : RunnerError) × (t : S) × (spawn creds s ≡ (err why, t))
            × IsStale h why command
            × (failed : RunnerError) × (u : S) × (refresh t ≡ (err failed, u))
            × (result ≡ (err failed, u)))
        ⊎ ((why : RunnerError) × (t : S) × (spawn creds s ≡ (err why, t))
            × IsStale h why command
            × (new : SandboxCreds) × (u : S) × (refresh t ≡ (ok new, u))
            × (result ≡ spawn new u))

    -- A start that succeeds, or that fails for another reason than stale credentials, is the result.
    -- After stale credentials they are refreshed once, in the state that the start has left, and the
    -- result is the refresh's error or that of one more start, with the new credentials.
    pub retry_runner_spawn_once-IsRetried :
        (creds : SandboxCreds) (command : List Text) (s : S)
        → IsRetried creds command s (retry_runner_spawn_once h spawn refresh creds command s)
    unfolding retry_runner_spawn_once
    retry_runner_spawn_once-IsRetried creds command s =
        let (first, t) = spawn creds s in
        elim (Result-cases first) [
          | inr (value, e) ↦ inl (value, t, ground (arith, e), ground (arith, e))
          | inl (why, e) ↦ elim (Bool-cases (is_refreshable_sandbox_creds_error h why command)) [
            | inr kept ↦ inr (
                inl (
                  why,
                  t,
                  ground (arith, e),
                  λ stale. ground (arith, kept, (IsStale-iff why command).1 stale),
                  ground (arith, e, kept),
                ))
            | inl stale ↦
                let (refreshed, u) = refresh t in
                elim (Result-cases refreshed) [
                  | inl (failed, f) ↦ inr (
                      inr (
                        inl (
                          why,
                          t,
                          ground (arith, e),
                          (IsStale-iff why command).0 stale,
                          failed,
                          u,
                          ground (arith, f),
                          ground (arith, e, stale, f),
                        )))
                  | inr (new, f) ↦ inr (
                      inr (
                        inr (
                          why,
                          t,
                          ground (arith, e),
                          (IsStale-iff why command).0 stale,
                          new,
                          u,
                          ground (arith, f),
                          ground (arith, e, stale, f),
                        )))
                ]
          ]
        ]
