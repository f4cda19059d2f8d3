-- ===== src/Services/Redis/Restore.antt =====
-- internal/services/redis/redis.go: `Restore` replays the JSON document of a backup, key by key.
use infra_shelf.Common.{
  Bytes, ◌||◌, List, [], ◌∷◌, Option, none, some, decode_failed, if◌then◌else◌,
}
use infra_shelf.Common.Text.{codes, is_empty, str_eq, trim_space}
use infra_shelf.Json.{Json, Items, null, text, array, nil, cons, as_text}
use infra_shelf.Registry.Store.{FilePath}
use infra_shelf.Machine.{Host, M, pure, fail, ◌>>=◌, ◌>>◌, open_file}
use infra_shelf.Services.Redis.{admin_cli}

-- A triple `[key, type, value]`.
pub record BackupEntry : Type 0 where
  pub key : Bytes
  pub kind : Bytes
  pub value : Json

abbrev head_or_null : Items → Json
head_or_null nil = null
head_or_null (cons v vs) = v

-- `UnmarshalJSON` into `[3]any`: what is missing is nil, what is left over is dropped.
unfoldable pub entry_of : Json → Option BackupEntry
entry_of (array (cons (text k) (cons (text t) rest))) =
    some (record { key = k; kind = t; value = head_or_null rest })
entry_of _ = none

entries_of : Items → Option (List BackupEntry)
unfolding entry_of
entries_of nil = some []
entries_of (cons j js) =
    let later = entries_of js in
    elim (entry_of j) [
      | none ↦ none
      | some e ↦ elim later [ none ↦ none | some es ↦ some (e ∷ es) ]
    ]

-- The whole document is decoded before anything is restored.
decode_document : Option Json → Option (List BackupEntry)
unfolding entries_of
decode_document (some (array items)) = entries_of items
decode_document (some null) = some []
decode_document _ = none

-- ZRANGE gives member, score, …; ZADD wants score, member, …; an odd one out is dropped.
unfoldable pub swap_pairs : List Bytes → List Bytes
swap_pairs (member ∷ score ∷ rest) = score ∷ member ∷ swap_pairs rest
swap_pairs _ = []

module _ (h : Host) where
  string_of : Json → Bytes
  string_of (text s) = s
  string_of j = h.format_any j

  string_items : Items → List Bytes
  unfolding string_of
  string_items nil = []
  string_items (cons j js) = string_of j ∷ string_items js

  unfoldable pub string_slice : Json → List Bytes
  unfolding string_items
  string_slice (array items) = string_items items
  string_slice _ = []

  -- Without items there is nothing to push.
  push : Bytes → Bytes → List Bytes → M (Unit {0})
  push command key [] = pure tt
  push command key (item ∷ items) = do admin_cli h (command ∷ key ∷ item ∷ items); pure tt

  unfoldable pub restore_entry : BackupEntry → M (Unit {0})
  unfolding push
  restore_entry e =
      let items = string_slice e.value in
      if str_eq e.kind (codes "string")
      then (do admin_cli h (codes "SET" ∷ e.key ∷ as_text e.value ∷ []); pure tt)
      else if str_eq e.kind (codes "hash")
      then (do admin_cli h (codes "HSET" ∷ e.key ∷ items); pure tt)
      else if str_eq e.kind (codes "list")
      then push (codes "RPUSH") e.key items
      else if str_eq e.kind (codes "set")
      then push (codes "SADD") e.key items
      else if str_eq e.kind (codes "zset")
      then push (codes "ZADD") e.key (swap_pairs items)
      else pure tt

  restore_entries : List BackupEntry → M (Unit {0})
  unfolding restore_entry
  restore_entries [] = pure tt
  restore_entries (e ∷ es) = do restore_entry e; restore_entries es

  restore_document : Option (List BackupEntry) → M (Unit {0})
  unfolding restore_entries
  restore_document none = fail decode_failed
  restore_document (some es) = restore_entries es

  unfoldable pub restore : FilePath → M (Unit {0})
  unfolding restore_document decode_document
  restore src_path = do
    raw ← open_file src_path
    let trimmed = trim_space raw
    if is_empty trimmed || str_eq trimmed (codes "{}") || str_eq trimmed (codes "[]")
        then pure tt
        else restore_document (decode_document (h.parse_json trimmed))
