-- ===== src/Cap/Files.antt =====
-- What a file of capability SIDs holds after the operations of src/cap.rs.
use yj_sandbox.Base.{true, ◌&&◌, ◌≡◌, refl, subst, ◌⊎◌, inl, inr, some, arith, Bool-cases}
use yj_sandbox.Base.Outcome.{ok, err}
use yj_sandbox.Base.Text.{Text, codes, trim, starts_with, ends_with}
use yj_sandbox.Cap.{
  CapSids, FileState, absent, unreadable, holds, CapWorld, CapLibraries, Ran, and_run, persist_caps,
  create_cap_sids, migrate_cap_sids, load_cap_sids, load_or_create_cap_sids,
}

pub ok_of_run :
    {A B : Type 0} (first : Ran A) (rest : A → CapWorld → Ran B) {b : B} {w : CapWorld}
    → and_run first rest ≡ (ok b, w)
    → (a : A) × (v : CapWorld) × (first ≡ (ok a, v)) × (rest a v ≡ (ok b, w))
ok_of_run (err why, v) rest e = cc
ok_of_run (ok a, v) rest e = (a, v, refl, e)

file-cases : (f : FileState) → (f ≡ absent) ⊎ (f ≡ unreadable) ⊎ ((t : Text) × (f ≡ holds t))
file-cases absent = inl refl
file-cases unreadable = inr (inl refl)
file-cases (holds t) = inr (inr (t, refl))

-- serde_json reads what it has written, which is one object.
pub record IsSerde (l : CapLibraries) : Type 0 where
  pub reads : (caps : CapSids) → l.from_str (l.to_string caps) ≡ some caps
  pub is_trimmed : (caps : CapSids) → trim (l.to_string caps) ≡ l.to_string caps
  pub is_object :
      (caps : CapSids)
      → (starts_with (l.to_string caps) (codes "{") && ends_with (l.to_string caps) (codes "}"))
        ≡ true

module _ (l : CapLibraries) where
  -- The SIDs that the file holds: loading them changes nothing.
  abbrev pub Loads : CapSids → CapWorld → Type 0
  Loads caps w = load_or_create_cap_sids l w ≡ (ok caps, w)

  module _ (serde : IsSerde l) where
    holds-Loads : (caps : CapSids) (w : CapWorld) → w.file ≡ holds (l.to_string caps) → Loads caps w
    unfolding load_or_create_cap_sids load_cap_sids
    holds-Loads caps w e =
        rw (e, load_cap_sids, serde.is_trimmed caps, serde.is_object caps, serde.reads caps) refl

    pub persist-Loads :
        (caps : CapSids) (w v : CapWorld) → persist_caps l caps w ≡ (ok tt, v) → Loads caps v
    unfolding persist_caps
    persist-Loads caps w v e = elim (Bool-cases w.is_writable) [
      | inl can ↦ holds-Loads caps v (ground arith)
      | inr cannot ↦ absurd (ground arith)
    ]

    -- what a run gives that ends with the write of a file
    pub saved-Loads :
        {A : Type 0} (caps : CapSids) (w : CapWorld) (a : A) {b : A} {v : CapWorld}
        → and_run (persist_caps l caps w) (λ _ u. (ok a, u)) ≡ (ok b, v)
        → (a ≡ b) × Loads caps v
    saved-Loads caps w a {b} {v} e =
        let (_, u, saved, rest) = ok_of_run (persist_caps l caps w) (λ _ u. (ok a, u)) e in
        (ground arith, subst (Loads caps) (ground arith) (persist-Loads caps w u (ground arith)))

    create-Loads :
        (caps : CapSids) (w v : CapWorld) → create_cap_sids l w ≡ (ok caps, v) → Loads caps v
    unfolding create_cap_sids
    create-Loads caps w v e =
        let (same, kept) = saved-Loads _ _ _ e in subst (λ c. Loads c v) same kept

    migrate-Loads :
        (t : Text) (caps : CapSids) (w v : CapWorld)
        → migrate_cap_sids l t w ≡ (ok caps, v)
        → Loads caps v
    unfolding migrate_cap_sids
    migrate-Loads t caps w v e =
        let (same, kept) = saved-Loads _ _ _ e in subst (λ c. Loads c v) same kept

    load-Loads :
        (t : Text) (caps : CapSids) (w v : CapWorld)
        → w.file ≡ holds t
        → load_cap_sids l (trim t) w ≡ (ok caps, v)
        → Loads caps v
    unfolding load_cap_sids load_or_create_cap_sids
    load-Loads t caps w v there e =
        ground (arith, create-Loads caps w v, migrate-Loads (trim t) caps w v)

    pub load_or_create-Loads :
        (caps : CapSids) (w v : CapWorld)
        → load_or_create_cap_sids l w ≡ (ok caps, v)
        → Loads caps v
    unfolding load_or_create_cap_sids
    load_or_create-Loads caps w v e = elim (file-cases w.file) [
      | inl gone ↦ create-Loads caps w v (ground arith)
      | inr (inl shut) ↦ absurd (ground arith)
      | inr (inr (t, there)) ↦ load-Loads t caps w v there (ground arith)
    ]
