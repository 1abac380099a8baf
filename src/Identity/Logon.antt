-- ===== src/Identity/Logon.antt =====
-- When src/identity.rs sets up again, and what it returns.
use yj_sandbox.Base.{
  true, false, ◌&&◌, not, ◌≡◌, ◌≢◌, refl, sym, subst, ◌⊎◌, inl, inr, Option, none, some, arith,
  Bool-cases, Option-cases,
}
use yj_sandbox.Base.Outcome.{Result, ok, err, Result-cases}
use yj_sandbox.Base.Host.{Host}
use yj_sandbox.SshConfig.{Files}
use yj_sandbox.Setup.Roots.{Directories}
use yj_sandbox.Setup.Launch.{
  Launcher, LaunchError, SetupMarker, marker_matches, load_marker, sandbox_setup_is_complete,
  run_elevated_setup_inner, run_setup_refresh_inner,
}
use yj_sandbox.Setup.Launch.Outcomes.{IsLauncher, run_elevated_setup_complete}
use yj_sandbox.Identity.{
  Accounts, SandboxCreds, IdentityError, setup_failed, out_of_date, request_mismatches,
  LogonRequest, setup_request, network_identity_of, accounts_need_repair, select_identity,
  desired_settings, ready_identity, after_setup, identity_for, creds_of, root_overrides, refreshed,
  require_logon_sandbox_creds,
}
use yj_sandbox.Identity.Chosen.{
  IsChosen, select_identity-IsChosen, select_identity_complete, select_identity-err,
  ready_identity-err,
}

module _ (h : Host) (l : Launcher) (a : Accounts l) where
  open l use {World}

  -- The marker agrees with the request, and no account has to be repaired.
  pub record IsReady (r : LogonRequest) (w : World) : Type 0 where
    pub marker : SetupMarker
    pub has_marker : load_marker h l w r.codex_home ≡ some marker
    pub agrees :
        request_mismatches marker (network_identity_of r) (desired_settings l a h r w) ≡ false
    pub unbroken : accounts_need_repair l a w ≡ false

  ready_identity-IsReady :
      (r : LogonRequest) (w : World) (creds : SandboxCreds)
      → ready_identity l a h r w ≡ ok (some creds)
      → IsReady r w × IsChosen h l a (network_identity_of r) r.codex_home w creds
  unfolding ready_identity
  ready_identity-IsReady r w creds e = elim (Option-cases (load_marker h l w r.codex_home)) [
    | inl no_marker ↦ ground (arith, no_marker, e)
    | inr (marker, has_marker) ↦
        elim (Bool-cases (
          marker_matches marker
          && not
              (request_mismatches marker (network_identity_of r) (desired_settings l a h r w)))) [
                | inr differs ↦ ground (arith, has_marker, differs, e)
                | inl same ↦
                    elim (Result-cases
                      (select_identity l a h (network_identity_of r) r.codex_home w)) [
                        | inl (why, fails) ↦ ground (arith, has_marker, same, fails, e)
                        | inr (none, nobody) ↦ ground (arith, has_marker, same, nobody, e)
                        | inr (some found, selected) ↦
                            elim (Bool-cases (accounts_need_repair l a w)) [
                              | inl broken ↦ ground (arith, has_marker, same, selected, broken, e)
                              | inr unbroken ↦
                                  let is : found ≡ creds =
                                    ground (arith, has_marker, same, selected, unbroken, e) in
                                  (
                                    record {
                                      marker = marker;
                                      has_marker = has_marker;
                                      agrees = ground (arith, same);
                                      unbroken = unbroken;
                                    },
                                    select_identity-IsChosen h l a (network_identity_of r)
                                        r.codex_home w creds
                                        (subst
                                          (λ c.
                                            select_identity l a h (network_identity_of r)
                                              r.codex_home w
                                            ≡ ok (some c))
                                          is selected),
                                  )
                            ]
                      ]
              ]
  ]

  -- The setup ran and succeeded, and the credentials are from after it.
  abbrev pub IsSetUp : LogonRequest → World → World → Type 0
  IsSetUp r w v =
      run_elevated_setup_inner h l (setup_request r) (some (desired_settings l a h r w)) w
      ≡ (ok tt, v)

  -- Credentials with where they are from, or an error other than `out_of_date`.
  abbrev IsFound :
      LogonRequest → World → Result IdentityError (Option SandboxCreds) × World → Type 0
  IsFound r w p =
      ((why : IdentityError) × (p.0 ≡ err why) × (why ≢ out_of_date))
      ⊎ ((creds : SandboxCreds) × (p.0 ≡ ok (some creds))
          × (((p.1 ≡ w) × IsReady r w) ⊎ IsSetUp r w p.1)
          × IsChosen h l a (network_identity_of r) r.codex_home p.1 creds)

  after_setup-IsFound :
      (laws : IsLauncher h l) (r : LogonRequest) (w : World)
      (ran : Result LaunchError (Unit {0}) × World)
      → run_elevated_setup_inner h l (setup_request r) (some (desired_settings l a h r w)) w ≡ ran
      → IsFound r w (after_setup l a h r ran)
  after_setup-IsFound laws r w (err why, v) e = inl (setup_failed why, refl, λ same. cc same)
  after_setup-IsFound laws r w (ok done, v) e =
      let net = network_identity_of r in
      let home = r.codex_home in
      elim (Result-cases (select_identity l a h net home v)) [
        | inl (why, fails) ↦ inl (
          why,
          fails,
          λ same. ground (arith, same, select_identity-err h l a net home v why fails),
        )
        | inr (none, nobody) ↦
            let complete : sandbox_setup_is_complete h l v home ≡ true =
              subst (λ p. p.0 ≡ ok tt → sandbox_setup_is_complete h l p.1 home ≡ true) e
                (run_elevated_setup_complete h l laws (setup_request r)
                  (some (desired_settings l a h r w)) w)
                refl in
            absurd (select_identity_complete h l a net home v complete nobody)
        | inr (some creds, selected) ↦
            inr (creds, selected, inr e, select_identity-IsChosen h l a net home v creds selected)
      ]

  identity_for-IsFound :
      (laws : IsLauncher h l) (r : LogonRequest) (w : World) → IsFound r w (identity_for l a h r w)
  unfolding identity_for
  identity_for-IsFound laws r w = elim (Result-cases (ready_identity l a h r w)) [
    | inl (why, fails) ↦
        let same : identity_for l a h r w ≡ (err why, w) = ground (arith, fails) in
        subst (IsFound r w) (sym same)
          (inl (why, refl, λ o. ground (arith, o, ready_identity-err h l a r w why fails)))
    | inr (none, nobody) ↦
        let same : identity_for l a h r w
            ≡ after_setup l a h r (
                run_elevated_setup_inner h l (setup_request r) (some (desired_settings l a h r w))
                  w) =
          ground (arith, nobody) in
        subst (IsFound r w) (sym same) (
          after_setup-IsFound laws r w
            (run_elevated_setup_inner h l (setup_request r) (some (desired_settings l a h r w)) w)
            refl)
    | inr (some creds, found) ↦
        let same : identity_for l a h r w ≡ (ok (some creds), w) = ground (arith, found) in
        let (ready, chosen) = ready_identity-IsReady r w creds found in
        subst (IsFound r w) (sym same) (inr (creds, refl, inl (refl, ready), chosen))
  ]

  creds_of-ok :
      (identity : SandboxCreds) (p : Result LaunchError (Unit {0}) × World) (creds : SandboxCreds)
      → (creds_of l a h (some identity) p).0 ≡ ok creds
      → (identity ≡ creds) × (p.0 ≡ ok tt)
  creds_of-ok identity (err why, v) creds e = cc e
  creds_of-ok identity (ok done, v) creds e = (cc e, refl)

  creds_of-ne-out_of_date :
      (identity : SandboxCreds) (p : Result LaunchError (Unit {0}) × World)
      → (creds_of l a h (some identity) p).0 ≢ err out_of_date
  creds_of-ne-out_of_date identity (err why, v) e = cc e
  creds_of-ne-out_of_date identity (ok done, v) e = cc e

  module _ (f : Files) (d : Directories) where
    -- The credentials are those of the account for the request's network identity, from files of this
    -- version, and a refresh of the access succeeded after them. The files were there and agreed with
    -- the request, with no account to repair, or a setup for the request has left them.
    abbrev pub IsCurrent : LogonRequest → World → SandboxCreds → Type 0
    IsCurrent r w creds =
        (v : World) × (((v ≡ w) × IsReady r w) ⊎ IsSetUp r w v)
        × IsChosen h l a (network_identity_of r) r.codex_home v creds
        × ((run_setup_refresh_inner h l f d (setup_request r) (root_overrides l a h f d r)
              (some (desired_settings l a h r w)) v).0
            ≡ ok tt)

    refreshed-IsCurrent :
        (r : LogonRequest) (w : World) (p : Result IdentityError (Option SandboxCreds) × World)
        (creds : SandboxCreds)
        → IsFound r w p
        → (refreshed l a h f d r (desired_settings l a h r w) p).0 ≡ ok creds
        → IsCurrent r w creds
    refreshed-IsCurrent r w (err why, v) creds found e = cc e
    refreshed-IsCurrent r w (ok o, v) creds (inl (why, same, _)) e = cc same
    refreshed-IsCurrent r w (ok none, v) creds (inr (c, same, _, _)) e = cc same
    refreshed-IsCurrent r w (ok (some c), v) creds (inr (c', same, from, chosen)) e =
        let ran =
          run_setup_refresh_inner h l f d (setup_request r) (root_overrides l a h f d r)
            (some (desired_settings l a h r w)) v in
        let (own, done) = creds_of-ok c ran creds e in
        let is : c' ≡ creds = ground (arith, same, own) in
        (v, from, subst (IsChosen h l a (network_identity_of r) r.codex_home v) is chosen, done)

    refreshed-ne-out_of_date :
        (r : LogonRequest) (w : World) (p : Result IdentityError (Option SandboxCreds) × World)
        → IsFound r w p
        → (refreshed l a h f d r (desired_settings l a h r w) p).0 ≢ err out_of_date
    refreshed-ne-out_of_date r w (err why, v) (inl (other, same, apart)) e =
        apart (ground (arith, same, e))
    refreshed-ne-out_of_date r w (err why, v) (inr (c, same, _, _)) e = cc same
    refreshed-ne-out_of_date r w (ok none, v) (inl (why, same, _)) e = cc same
    refreshed-ne-out_of_date r w (ok none, v) (inr (c, same, _, _)) e = cc same
    refreshed-ne-out_of_date r w (ok (some c), v) found e =
        creds_of-ne-out_of_date c
          (run_setup_refresh_inner h l f d (setup_request r) (root_overrides l a h f d r)
            (some (desired_settings l a h r w)) v)
          e

    -- Given that clearing the report keeps the setup's files, credentials that are returned are those of
    -- the account for the request's network identity, from files of this version; a refresh of the access
    -- has succeeded after them. The files were there and agreed with the request, with no account to
    -- repair, or a setup for the request, which succeeded, has left them.
    pub require_logon-IsCurrent :
        (laws : IsLauncher h l) (r : LogonRequest) (w : World) (creds : SandboxCreds)
        → (require_logon_sandbox_creds l a h f d r w).0 ≡ ok creds
        → IsCurrent r w creds
    unfolding require_logon_sandbox_creds
    require_logon-IsCurrent laws r w creds e =
        refreshed-IsCurrent r w (identity_for l a h r w) creds (identity_for-IsFound laws r w) e

    -- Given that clearing the report keeps the setup's files, the error that the setup is missing or out
    -- of date is never returned: it is run again before, and a run that succeeds leaves what is needed.
    pub require_logon-ne-out_of_date :
        (laws : IsLauncher h l) (r : LogonRequest) (w : World)
        → (require_logon_sandbox_creds l a h f d r w).0 ≢ err out_of_date
    unfolding require_logon_sandbox_creds
    require_logon-ne-out_of_date laws r w =
        refreshed-ne-out_of_date r w (identity_for l a h r w) (identity_for-IsFound laws r w)
