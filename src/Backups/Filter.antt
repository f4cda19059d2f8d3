-- ===== src/Backups/Filter.antt =====
-- Which files `Filter` keeps.
use infra_shelf.Common.{
  Bytes, Bool, true, ◌&&◌, ◌||◌, List, [], ◌∷◌, ◌≡◌, refl, ◌⊎◌, ◌↔◌, filter, inl, inr, arith,
}
use infra_shelf.Common.Text.{is_empty, str_eq, str_eq_iff}
use infra_shelf.Backups.{File, filter_files}

-- The file is of the app and of the service, where one is asked for.
abbrev pub Wanted : Bytes → Bytes → File → Type 0
Wanted app service f = ((app ≡ []) ⊎ (f.app ≡ app)) × ((service ≡ []) ⊎ (f.service ≡ service))

abbrev pub keeps : Bytes → Bytes → File → Bool
keeps app service f =
    (is_empty app || str_eq f.app app) && (is_empty service || str_eq f.service service)

asked_iff :
    (asked s : Bytes) → ((is_empty asked || str_eq s asked) ≡ true) ↔ ((asked ≡ []) ⊎ (s ≡ asked))
asked_iff [] s = (λ h. inl refl, λ h. refl)
asked_iff (c ∷ cs) s =
    let same = str_eq_iff s (c ∷ cs) in (λ h. inr (same.0 h), λ h. ground (arith, h, same))

keeps_iff : (app service : Bytes) (f : File) → (keeps app service f ≡ true) ↔ Wanted app service f
keeps_iff app service f =
    let a = asked_iff app f.app in
    let b = asked_iff service f.service in
    (λ h. (a.0 (ground (arith, h)), b.0 (ground (arith, h))), λ w. cc (a.1 w.0, b.1 w.1))

filter_files-filter :
    (fs : List File) (app service : Bytes)
    → filter_files fs app service ≡ filter (keeps app service) fs
unfolding filter_files
filter_files-filter [] app service = refl
filter_files-filter (f ∷ fs) app service = ground (arith, filter_files-filter fs app service)

-- `Filter` keeps, in their order, exactly the files that are of the app, where the app is not
-- empty, and of the service, where the service is not empty.
pub filter_files_lem :
    (fs : List File) (app service : Bytes)
    → (filter_files fs app service ≡ filter (keeps app service) fs)
      × ((f : File) → (keeps app service f ≡ true) ↔ Wanted app service f)
filter_files_lem fs app service = (filter_files-filter fs app service, keeps_iff app service)
