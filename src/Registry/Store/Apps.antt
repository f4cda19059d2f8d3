-- ===== src/Registry/Store/Apps.antt =====
-- `UpsertApp`, `DeleteApp` and `GetApp`: the file as a map from names to entries.
use infra_shelf.Common.{
  Bytes, false, ◌∷◌, Option, none, some, Result, ok, err, ◌≡◌, refl, sym, ap, ◌∙◌, arith,
  if◌then◌else◌, Bool-cases, inl, inr,
}
use infra_shelf.Common.Text.{str_eq, str_eq_iff}
use infra_shelf.Common.Dict.{lookup, insert, delete, IsSorted, insert-IsSorted, delete-IsSorted}
use infra_shelf.Registry.{Registry, AppEntry, App}
use infra_shelf.Registry.Coerced.{
  coerced, coerced_entry, insert-IsNamed, delete-IsNamed, coerced-insert, coerced-delete,
}
use infra_shelf.Registry.Store.Crypto.{Codec}
use infra_shelf.Registry.Store.RoundTrip.{Saves, save_lem, load-IsClean}
use infra_shelf.Registry.Store.{
  FilePath, Disk, dotenv_name, stored, app_of, load, upsert_loaded, upsert_app, delete_found,
  delete_loaded, delete_app, get_app,
}

-- What `GetApp` gives is the entry of the name, if the map has one.
abbrev pub app_at : Bytes → Option AppEntry → Option App
app_at name none = none
app_at name (some entry) = some (app_of name entry)

at :
    (name n : Bytes) (new before after : Option AppEntry)
    → after ≡ (if str_eq name n then new else before)
    → ok (app_at n after) ≡ (if str_eq name n then ok (app_at name new) else ok (app_at n before))
at name n new before after h = elim (Bool-cases (str_eq name n)) [
  | inl same ↦
      let q = (str_eq_iff name n).0 same in rw (h, same) (ap (λ k. ok (app_at k new)) (sym q))
  | inr other ↦ rw (h, other) refl
]

module _ (c : Codec) where
  get_app_lem :
      (path : FilePath) (name : Bytes) (disk : Disk c.Doc) (reg : Registry)
      → load c path disk ≡ ok reg
      → get_app c path name disk ≡ ok (app_at name (lookup name reg.apps))
  unfolding get_app
  get_app_lem path name disk reg l = ground arith

module _ (c : Codec) (file : Bytes) (dir : FilePath)
    (not_env : str_eq file dotenv_name ≡ false) where
  abbrev Get : Bytes → Disk c.Doc → Result (Option App)
  Get name disk = get_app c (file ∷ dir) name disk

  -- What is found after a change of the entry of a name: the new entry under the name, what was
  -- there before under the others; and all as before if the change failed.
  abbrev pub Changed :
      Bytes → Option AppEntry → Disk c.Doc → Result (Unit {0}) × Disk c.Doc → Type 0
  Changed name new before (ok u, after) =
      (n : Bytes) → Get n after ≡ (if str_eq name n then ok (app_at name new) else Get n before)
  Changed name new before (err e, after) = (n : Bytes) → Get n after ≡ Get n before

  same_load :
      (n : Bytes) (disk disk' : Disk c.Doc)
      → load c (file ∷ dir) disk' ≡ load c (file ∷ dir) disk
      → Get n disk' ≡ Get n disk
  unfolding get_app
  same_load n disk disk' l = rw l refl

  Changed-of :
      (name : Bytes) (new : Option AppEntry) (reg reg' : Registry) (before after : Disk c.Doc)
      (r : Result (Unit {0}))
      → load c (file ∷ dir) before ≡ ok reg
      → ((n : Bytes)
          → lookup n (coerced c.valid reg').apps
            ≡ (if str_eq name n then new else lookup n reg.apps))
      → Saves c file dir not_env (coerced c.valid (stored reg')) before r after
      → Changed name new before (r, after)
  Changed-of name new reg reg' before after (err e) l apps saves =
      λ n. same_load n before after (saves.failed e refl)
  Changed-of name new reg reg' before after (ok u) l apps saves = λ n.
      get_app_lem c (file ∷ dir) n after (coerced c.valid (stored reg')) (saves.done u refl)
      ∙ at name n new _ _ (apps n)
      ∙ ap (λ r. if str_eq name n then ok (app_at name new) else r)
          (sym (get_app_lem c (file ∷ dir) n before reg l))

  upsert_loaded_lem :
      (name : Bytes) (entry : AppEntry) (disk : Disk c.Doc) (l : Result Registry)
      → load c (file ∷ dir) disk ≡ l
      → c.valid name ≡ name
      → ((reg : Registry) → l ≡ ok reg → IsSorted reg.apps)
      → Changed name
          (some (coerced_entry c.valid entry))
          disk
          (upsert_loaded c l (file ∷ dir) name entry disk)
  unfolding upsert_loaded
  upsert_loaded_lem name entry disk (err e) l v sorted = λ n. refl
  upsert_loaded_lem name entry disk (ok reg) l v sorted =
      let clean = load-IsClean c (file ∷ dir) disk reg l in
      Changed-of name (some (coerced_entry c.valid entry)) reg
        (record reg { apps = insert name entry reg.apps }) disk _ _ l
        (coerced-insert c.valid name entry reg clean.texts)
        (save_lem c file dir not_env _ disk (insert-IsSorted name entry reg.apps (sorted reg refl))
          (insert-IsNamed c.valid name entry reg.apps v clean.names))

  -- `UpsertApp` under a name that is valid UTF-8, on a registry in order, in a file that is no .env
  -- file: on success `GetApp` gives under the name the new entry, each text as JSON keeps it (coerced
  -- to valid UTF-8), and under every other name what it gave before; on an error it gives what it
  -- gave before under every name.
  pub upsert_app_lem :
      (name : Bytes) (entry : AppEntry) (disk : Disk c.Doc)
      → c.valid name ≡ name
      → ((reg : Registry) → load c (file ∷ dir) disk ≡ ok reg → IsSorted reg.apps)
      → Changed name
          (some (coerced_entry c.valid entry))
          disk
          (upsert_app c (file ∷ dir) name entry disk)
  unfolding upsert_app
  upsert_app_lem name entry disk v sorted =
      upsert_loaded_lem name entry disk (load c (file ∷ dir) disk) refl v sorted

  missing :
      (name : Bytes) (disk : Disk c.Doc) (reg : Registry)
      → load c (file ∷ dir) disk ≡ ok reg
      → lookup name reg.apps ≡ none
      → (n : Bytes) → Get n disk ≡ (if str_eq name n then ok none else Get n disk)
  missing name disk reg l absent n = elim (Bool-cases (str_eq name n)) [
    | inr other ↦ rw other refl
    | inl same ↦ rw same (
        get_app_lem c (file ∷ dir) n disk reg l
        ∙ ap (λ o. ok (app_at n o))
            (ap (λ k. lookup k reg.apps) (sym ((str_eq_iff name n).0 same)) ∙ absent))
  ]

  delete_found_lem :
      (name : Bytes) (disk : Disk c.Doc) (reg : Registry) (found : Option AppEntry)
      → load c (file ∷ dir) disk ≡ ok reg
      → lookup name reg.apps ≡ found
      → IsSorted reg.apps
      → Changed name none disk (delete_found c found reg (file ∷ dir) name disk)
  unfolding delete_found
  delete_found_lem name disk reg none l f sorted = missing name disk reg l f
  delete_found_lem name disk reg (some e) l f sorted =
      let clean = load-IsClean c (file ∷ dir) disk reg l in
      Changed-of name none reg (record reg { apps = delete name reg.apps }) disk _ _ l
        (coerced-delete c.valid name reg clean.texts)
        (save_lem c file dir not_env _ disk (delete-IsSorted name reg.apps sorted)
          (delete-IsNamed c.valid name reg.apps clean.names))

  delete_loaded_lem :
      (name : Bytes) (disk : Disk c.Doc) (l : Result Registry)
      → load c (file ∷ dir) disk ≡ l
      → ((reg : Registry) → l ≡ ok reg → IsSorted reg.apps)
      → Changed name none disk (delete_loaded c l (file ∷ dir) name disk)
  unfolding delete_loaded
  delete_loaded_lem name disk (err e) l sorted = λ n. refl
  delete_loaded_lem name disk (ok reg) l sorted =
      delete_found_lem name disk reg (lookup name reg.apps) l refl (sorted reg refl)

  -- `DeleteApp` on a registry in order, in a file that is no .env file: on success `GetApp` gives
  -- nothing under the name, whether it was there or not, and under every other name what it gave
  -- before; on an error it gives what it gave before under every name.
  pub delete_app_lem :
      (name : Bytes) (disk : Disk c.Doc)
      → ((reg : Registry) → load c (file ∷ dir) disk ≡ ok reg → IsSorted reg.apps)
      → Changed name none disk (delete_app c (file ∷ dir) name disk)
  unfolding delete_app
  delete_app_lem name disk sorted =
      delete_loaded_lem name disk (load c (file ∷ dir) disk) refl sorted
