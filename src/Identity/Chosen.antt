-- ===== src/Identity/Chosen.antt =====
-- Whose credentials src/identity.rs returns, and when it sets up again first.
use yj_sandbox.Base.{
  true, false, ◌&&◌, not, ◌≡◌, ◌≢◌, sym, ◌∙◌, ◌⊎◌, inl, inr, none, some, arith, Bool-cases,
  Option-cases,
}
use yj_sandbox.Base.Outcome.{Result, ok, err, Result-cases}
use yj_sandbox.Base.Text.{Text}
use yj_sandbox.Base.Host.{Host, FilePath}
use yj_sandbox.Setup.Ports.{SandboxNetworkIdentity}
use yj_sandbox.Setup.Launch.{
  Launcher, SetupMarker, SandboxUserRecord, SandboxUsersFile, marker_matches, users_match,
  load_marker, load_users, sandbox_setup_is_complete,
}
use yj_sandbox.Identity.{
  Accounts, SandboxCreds, IdentityError, bad_password, request_mismatches, chosen_record,
  LogonRequest, network_identity_of, decode_password, with_password, select_identity,
  desired_settings, ready_identity,
}

module _ (h : Host) (l : Launcher) (a : Accounts l) where
  open l use {World}

  -- The credentials of the account for the network identity, from a setup of this version.
  pub record IsChosen (network_identity : SandboxNetworkIdentity) (codex_home : FilePath)
      (w : World) (creds : SandboxCreds) : Type 0 where
    pub marker : SetupMarker
    pub users : SandboxUsersFile
    pub has_marker : load_marker h l w codex_home ≡ some marker
    pub is_marked : marker_matches marker ≡ true
    pub has_users : load_users h l w codex_home ≡ some users
    pub is_current : users_match users ≡ true
    pub is_named : creds.username ≡ (chosen_record network_identity users).username
    pub has_password :
        decode_password l a (chosen_record network_identity users) ≡ ok creds.password

  select_identity-cases :
      (network_identity : SandboxNetworkIdentity) (codex_home : FilePath) (w : World)
      → (sandbox_setup_is_complete h l w codex_home ≡ false)
          × (select_identity l a h network_identity codex_home w ≡ ok none)
        ⊎ ((users : SandboxUsersFile) × (select_identity l a h network_identity codex_home w
              ≡ with_password l a
                  (chosen_record network_identity users)
                  (decode_password l a (chosen_record network_identity users)))
            × ((marker : SetupMarker) × (load_marker h l w codex_home ≡ some marker)
                × (marker_matches marker ≡ true)
                × (load_users h l w codex_home ≡ some users)
                × (users_match users ≡ true)))
  unfolding select_identity sandbox_setup_is_complete
  select_identity-cases network_identity codex_home w =
      elim (Option-cases (load_marker h l w codex_home)) [
        | inl no_marker ↦ inl (ground (arith, no_marker), ground (arith, no_marker))
        | inr (marker, has_marker) ↦ elim (Bool-cases (marker_matches marker)) [
          | inr old ↦ inl (ground (arith, has_marker, old), ground (arith, has_marker, old))
          | inl marked ↦ elim (Option-cases (load_users h l w codex_home)) [
            | inl no_users ↦ inl (
              ground (arith, has_marker, marked, no_users),
              ground (arith, has_marker, marked, no_users),
            )
            | inr (users, has_users) ↦ elim (Bool-cases (users_match users)) [
              | inr other ↦ inl (
                ground (arith, has_marker, marked, has_users, other),
                ground (arith, has_marker, marked, has_users, other),
              )
              | inl current ↦ inr (
                users,
                ground (arith, has_marker, marked, has_users, current),
                (marker, has_marker, marked, has_users, current),
              )
            ]
          ]
        ]
      ]

  with_password-some :
      (user : SandboxUserRecord) (r : Result IdentityError Text) (creds : SandboxCreds)
      → with_password l a user r ≡ ok (some creds)
      → (creds.username ≡ user.username) × (r ≡ ok creds.password)
  with_password-some user (err why) creds e = cc e
  with_password-some user (ok password) creds e = ground (arith, e)

  with_password-err :
      (user : SandboxUserRecord) (r : Result IdentityError Text) (why : IdentityError)
      → with_password l a user r ≡ err why
      → r ≡ err why
  with_password-err user (err other) why e = cc e
  with_password-err user (ok password) why e = cc e

  with_password-ne-none :
      (user : SandboxUserRecord) (r : Result IdentityError Text)
      → with_password l a user r ≢ ok none
  with_password-ne-none user (err why) e = cc e
  with_password-ne-none user (ok password) e = cc e

  pub select_identity-IsChosen :
      (network_identity : SandboxNetworkIdentity) (codex_home : FilePath) (w : World)
      (creds : SandboxCreds)
      → select_identity l a h network_identity codex_home w ≡ ok (some creds)
      → IsChosen network_identity codex_home w creds
  select_identity-IsChosen network_identity codex_home w creds e =
      elim (select_identity-cases network_identity codex_home w) [
        | inl (_, nobody) ↦ ground (arith, nobody, e)
        | inr (users, found, (marker, has_marker, marked, has_users, current)) ↦
            let user = chosen_record network_identity users in
            let (named, known) =
              with_password-some user (decode_password l a user) creds (sym found ∙ e) in
            record {
              marker = marker;
              users = users;
              has_marker = has_marker;
              is_marked = marked;
              has_users = has_users;
              is_current = current;
              is_named = named;
              has_password = known;
            }
      ]

  pub select_identity_complete :
      (network_identity : SandboxNetworkIdentity) (codex_home : FilePath) (w : World)
      → sandbox_setup_is_complete h l w codex_home ≡ true
      → select_identity l a h network_identity codex_home w ≢ ok none
  select_identity_complete network_identity codex_home w done e =
      elim (select_identity-cases network_identity codex_home w) [
        | inl (missing, _) ↦ ground (arith, done, missing)
        | inr (users, found, _) ↦
            let user = chosen_record network_identity users in
            with_password-ne-none user (decode_password l a user) (sym found ∙ e)
      ]

module _ (h : Host) (l : Launcher) (a : Accounts l) where
  decode_password-err :
      (user : SandboxUserRecord) (why : IdentityError)
      → decode_password l a user ≡ err why
      → why ≡ bad_password
  unfolding decode_password
  decode_password-err user why e = elim (Option-cases (a.base64_decode user.password)) [
    | inl undecoded ↦ ground (arith, undecoded, e)
    | inr (blob, decoded) ↦ elim (Option-cases (a.unprotect blob)) [
      | inl locked ↦ ground (arith, decoded, locked, e)
      | inr (bytes, unlocked) ↦ elim (Option-cases (a.from_utf8 bytes)) [
        | inl garbled ↦ ground (arith, decoded, unlocked, garbled, e)
        | inr (text, read) ↦ ground (arith, decoded, unlocked, read, e)
      ]
    ]
  ]

  pub select_identity-err :
      (network_identity : SandboxNetworkIdentity) (codex_home : FilePath) (w : l.World)
      (why : IdentityError)
      → select_identity l a h network_identity codex_home w ≡ err why
      → why ≡ bad_password
  select_identity-err network_identity codex_home w why e =
      elim (select_identity-cases h l a network_identity codex_home w) [
        | inl (_, nobody) ↦ ground (arith, nobody, e)
        | inr (users, found, _) ↦
            let user = chosen_record network_identity users in
            decode_password-err user why
              (with_password-err h l a user (decode_password l a user) why (sym found ∙ e))
      ]

  pub ready_identity-err :
      (r : LogonRequest) (w : l.World) (why : IdentityError)
      → ready_identity l a h r w ≡ err why
      → why ≡ bad_password
  unfolding ready_identity
  ready_identity-err r w why e =
      let net = network_identity_of r in
      elim (Option-cases (load_marker h l w r.codex_home)) [
        | inl no_marker ↦ ground (arith, no_marker, e)
        | inr (marker, has_marker) ↦
            elim (Bool-cases (
              marker_matches marker
              && not (request_mismatches marker net (desired_settings l a h r w)))) [
                | inr differs ↦ ground (arith, has_marker, differs, e)
                | inl same ↦ elim (Result-cases (select_identity l a h net r.codex_home w)) [
                  | inl (other, fails) ↦
                      select_identity-err net r.codex_home w why
                        (ground (arith, has_marker, same, fails, e))
                  | inr (none, nobody) ↦ ground (arith, has_marker, same, nobody, e)
                  | inr (some found, selected) ↦ ground (arith, has_marker, same, selected, e)
                ]
              ]
      ]
