-- ===== src/Setup/Roots/Profile.antt =====
-- What becomes of the user's profile among the roots of src/setup.rs: its entries stand for it.
use yj_sandbox.Base.{
  ◌≡◌, refl, sym, ◌∙◌, ap, subst, ◌⊎◌, inl, inr, ◌↔◌, Bool, not, none, some, List, [], ◌∷◌, map,
  keep, Member, Member-append, Member-map, Member-keep, arith, Bool-cases, Option-cases,
}
use yj_sandbox.Base.Text.{Text, text_eq}
use yj_sandbox.Base.Text.Laws.{text_eq_iff}
use yj_sandbox.Base.Sorting.{IsStrict, dedup-sort-IsStrict, Member-dedup-sort, dedup-sort_cover}
use yj_sandbox.Base.Host.{Host, FilePath}
use yj_sandbox.Paths.{canonical_path_key}
use yj_sandbox.Setup.Roots.Children.{IsExcluded, not_iff, is_excluded_name_iff, some_injective}
use yj_sandbox.Setup.Roots.{
  Directories, DirEntry, is_excluded_name, profile_read_roots, with_profile_entries,
  expand_user_profile_root_for,
}

module _ (h : Host) (d : Directories) (user_profile : FilePath) where
  abbrev key : FilePath → Text
  key = canonical_path_key h

  -- What stands for the profile: its entries, but those of an excluded name, or the profile itself when
  -- it cannot be listed.
  abbrev pub IsProfileRoot : FilePath → Type 0
  IsProfileRoot r =
      ((d.read_dir user_profile ≡ none) × (r ≡ user_profile))
      ⊎ ((entries : List DirEntry) × (d.read_dir user_profile ≡ some entries)
          × ((entry : DirEntry) × Member entry entries
              × (r ≡ entry.path)
              × ¬ IsExcluded entry.file_name))

  entry_iff :
      (entries : List DirEntry) (r : FilePath)
      → Member r (
          map
            (λ (e : DirEntry). e.path)
            (keep (λ (e : DirEntry). not (is_excluded_name e.file_name)) entries))
        ↔ ((entry : DirEntry) × Member entry entries
            × (r ≡ entry.path)
            × ¬ IsExcluded entry.file_name)
  entry_iff entries r =
      let included : DirEntry → Bool = λ e. not (is_excluded_name e.file_name) in
      let (taken, put) = Member-map (λ (e : DirEntry). e.path) (keep included entries) r in
      (
        λ m.
            let (entry, at, same) = taken m in
            let (there, open_name) = (Member-keep included entries entry).0 at in
            (
              entry,
              there,
              same,
              (not_iff (is_excluded_name entry.file_name)
                    (is_excluded_name_iff h entry.file_name)).0
                  open_name,
            ),
        λ (entry, there, same, apart). put (
          entry,
          (Member-keep included entries entry).1 (
            there,
            (not_iff (is_excluded_name entry.file_name) (is_excluded_name_iff h entry.file_name)).1
                apart,
          ),
          same,
        ),
      )

  profile_read_roots_iff :
      (r : FilePath) → Member r (profile_read_roots h d user_profile) ↔ IsProfileRoot r
  unfolding profile_read_roots
  profile_read_roots_iff r = elim (Option-cases (d.read_dir user_profile)) [
    | inl unlisted ↦
        let own : profile_read_roots h d user_profile ≡ user_profile ∷ [] =
          ground (arith, unlisted) in
        rw own (
          elim [ inl here ↦ inl (unlisted, here) | inr nothing ↦ absurd nothing ],
          elim [ inl (_, here) ↦ inl here | inr (entries, listed, _) ↦ cc (listed, unlisted) ],
        )
    | inr (entries, listed) ↦
        let paths : profile_read_roots h d user_profile
            ≡ map (λ (e : DirEntry). e.path)
                (keep (λ (e : DirEntry). not (is_excluded_name e.file_name)) entries) =
          ground (arith, listed) in
        rw paths (
          λ m. inr (entries, listed, (entry_iff entries r).0 m),
          elim [
            | inl (unlisted, _) ↦ cc (listed, unlisted)
            | inr (others, same, entry) ↦ (entry_iff entries r).1 (
                subst
                  (λ xs.
                    (entry : DirEntry) × Member entry xs
                    × (r ≡ entry.path)
                    × ¬ IsExcluded entry.file_name)
                  (some_injective (sym same ∙ listed)) entry)
          ],
        )
  ]

  -- A root that is not the profile, or an entry of the profile when it is a root.
  abbrev pub IsExpanded : List FilePath → FilePath → Type 0
  IsExpanded roots r =
      (Member r roots × ¬ (canonical_path_key h r ≡ canonical_path_key h user_profile))
      ⊎ (((root : FilePath) × Member root roots
            × (canonical_path_key h root ≡ canonical_path_key h user_profile))
          × IsProfileRoot r)

  IsExpanded-later :
      (root : FilePath) (roots : List FilePath) (r : FilePath)
      → IsExpanded roots r
      → IsExpanded (root ∷ roots) r
  IsExpanded-later root roots r (inl (m, other)) = inl (inr m, other)
  IsExpanded-later root roots r (inr ((x, m, e), entry)) = inr ((x, inr m, e), entry)

  with_profile_entries-IsExpanded :
      (roots : List FilePath) (r : FilePath)
      → Member r (with_profile_entries h d user_profile roots) ↔ IsExpanded roots r
  unfolding with_profile_entries
  with_profile_entries-IsExpanded [] r =
      (λ m. absurd m, elim [ inl (m, _) ↦ m | inr ((root, m, _), _) ↦ m ])
  with_profile_entries-IsExpanded (root ∷ roots) r =
      let entries = profile_read_roots h d user_profile in
      let rest = with_profile_entries h d user_profile roots in
      elim (Bool-cases (text_eq (key root) (key user_profile))) [
        | inl same ↦
            let e = (text_eq_iff (key root) (key user_profile)).0 same in
            rw same (
              λ m. elim ((Member-append r entries rest).0 m) [
                | inl here ↦ inr ((root, inl refl, e), (profile_read_roots_iff r).0 here)
                | inr later ↦
                    IsExpanded-later root roots r
                      ((with_profile_entries-IsExpanded roots r).0 later)
              ],
              elim [
                | inl (inl own, other) ↦
                    absurd (other (subst (λ x. key x ≡ key user_profile) (sym own) e))
                | inl (inr m, other) ↦
                    (Member-append r entries rest).1
                      (inr ((with_profile_entries-IsExpanded roots r).1 (inl (m, other))))
                | inr (_, entry) ↦
                    (Member-append r entries rest).1 (inl ((profile_read_roots_iff r).1 entry))
              ],
            )
        | inr apart ↦ rw apart (
          elim [
            | inl own ↦ inl (
              inl own,
              λ e. ground (arith, text_eq_iff (key root) (key user_profile), ap key own, e),
            )
            | inr later ↦
                IsExpanded-later root roots r ((with_profile_entries-IsExpanded roots r).0 later)
          ],
          elim [
            | inl (inl own, other) ↦ inl own
            | inl (inr m, other) ↦
                inr ((with_profile_entries-IsExpanded roots r).1 (inl (m, other)))
            | inr ((x, inl own, e), entry) ↦
                absurd (ground (arith, text_eq_iff (key root) (key user_profile), ap key own, e))
            | inr ((x, inr m, e), entry) ↦
                inr ((with_profile_entries-IsExpanded roots r).1 (inr ((x, m, e), entry)))
          ],
        )
      ]

  -- The result is in strictly increasing order of the keys. The keys in it are those of the roots other
  -- than the profile and, when the profile is a root, of the entries of the profile whose name is not
  -- excluded, or of the profile itself when it cannot be listed.
  pub expand_user_profile_root-IsExpanded :
      (roots : List FilePath)
      → IsStrict (canonical_path_key h) (expand_user_profile_root_for h d roots user_profile)
        × ((r : FilePath)
            → Member r (expand_user_profile_root_for h d roots user_profile)
            → IsExpanded roots r)
        × ((r : FilePath)
            → IsExpanded roots r
            → (s : FilePath) × Member s (expand_user_profile_root_for h d roots user_profile)
              × (canonical_path_key h r ≡ canonical_path_key h s))
  unfolding expand_user_profile_root_for
  expand_user_profile_root-IsExpanded roots =
      let raw = with_profile_entries h d user_profile roots in
      (
        dedup-sort-IsStrict key raw,
        λ r m. (with_profile_entries-IsExpanded roots r).0 (Member-dedup-sort key raw r m),
        λ r e. dedup-sort_cover key raw r ((with_profile_entries-IsExpanded roots r).1 e),
      )
