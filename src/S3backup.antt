-- ===== src/S3backup.antt =====
-- internal/s3backup/s3backup.go. Of the object store the requests to it are kept, and how it fares
-- with the coming ones: each none, or the error that it fails with.
pub mod Requests
use infra_shelf.Common.{
  ℕ, Bytes, Bool, true, false, ◌&&◌, not, List, [], ◌∷◌, ◌++◌, Option, none, some, Result, ok, err,
  Error, wrapped, if◌then◌else◌,
}
use infra_shelf.Common.Text.{codes, is_empty}
use infra_shelf.Common.Paths.{join_path}
use infra_shelf.Config.{S3Config, trim_slash}
use infra_shelf.Backups.{File}

-- A client is made for a bucket that is not empty; without one there is none.
pub record Client : Type 0 where
  pub cfg : S3Config

pub record UploadedFile : Type 0 where
  pub file : File
  pub key : Bytes

pub data Request : Type 0 where
  put_object : Bytes → Bytes → Request
  delete_object : Bytes → Request

pub record Remote : Type 0 where
  pub requests : List Request
  pub faults : List (Option Error)

unfoldable pub enabled : Option Client → Bool
enabled none = false
enabled (some c) = not (is_empty c.cfg.bucket)

abbrev config_destination : S3Config → Bytes
config_destination cfg =
    if is_empty cfg.prefix
    then codes "s3://" ++ cfg.bucket
    else codes "s3://" ++ cfg.bucket ++ b'/' ∷ cfg.prefix

pub destination : Option Client → Bytes
destination none = codes "not configured"
destination (some c) = if enabled (some c) then config_destination c.cfg else codes "not configured"

-- `key`
pub object_key : S3Config → File → Bytes
object_key cfg file =
    let rest = file.app ∷ file.name ∷ [] in
    join_path (if is_empty cfg.prefix then rest else trim_slash cfg.prefix ∷ rest)

-- A request to the object store.
pub send_on : List (Option Error) → Request → List Request → Result (Unit {0}) × Remote
send_on [] q qs = (ok tt, record { requests = qs ++ q ∷ []; faults = [] })
send_on (none ∷ fs) q qs = (ok tt, record { requests = qs ++ q ∷ []; faults = fs })
send_on (some e ∷ fs) q qs = (err e, record { requests = qs ++ q ∷ []; faults = fs })

pub send : Request → Remote → Result (Unit {0}) × Remote
unfolding send_on
send q r = send_on r.faults q r.requests

abbrev item_error : Bytes → Bytes → File → Option Client → Error → Error
item_error verb word file c e =
    wrapped (verb ++ (b' ' ∷ file.app ++ (b'/' ∷ file.name ++ (word ++ destination c)))) e

abbrev no_file : File
no_file = record { app = []; service = []; name = []; path = []; size = 0; modified = 0 }

abbrev uploaded_as : File → Bytes → Result (Unit {0}) → Result UploadedFile
uploaded_as file key (err e) = err e
uploaded_as file key (ok _) = ok (record { file = file; key = key })

abbrev put_on : Option Error → S3Config → File → Remote → Result UploadedFile × Remote
put_on (some e) cfg file r = (err e, r)
put_on none cfg file r =
    let (sent, r') = send (put_object (object_key cfg file) file.path) r in
    (uploaded_as file (object_key cfg file) sent, r')

abbrev upload_on :
    (Bytes → Option Error) → Bool → S3Config → File → Remote → Result UploadedFile × Remote
upload_on open_file false cfg file r = (ok (record { file = no_file; key = [] }), r)
upload_on open_file true cfg file r = put_on (open_file file.path) cfg file r

-- `Upload`; `open_file` gives the error that os.Open of a path fails with, if it does.
pub upload : (Bytes → Option Error) → Option Client → File → Remote → Result UploadedFile × Remote
upload open_file none file r = (ok (record { file = no_file; key = [] }), r)
upload open_file (some c) file r = upload_on open_file (enabled (some c)) c.cfg file r

-- `UploadMany`, over the files that are uploaded so far.
pub upload_files :
    (Bytes → Option Error)
    → Option Client
    → List UploadedFile
    → List File
    → Remote
    → (List UploadedFile × Option Error) × Remote
unfolding upload
upload_files open_file c uploaded [] r = ((uploaded, none), r)
upload_files open_file c uploaded (f ∷ fs) r =
    let (item, r') = upload open_file c f r in
    elim item [
      | err e ↦ ((uploaded, some (item_error (codes "upload") (codes " to ") f c e)), r')
      | ok u ↦ upload_files open_file c (uploaded ++ u ∷ []) fs r'
    ]

pub upload_many :
    (Bytes → Option Error)
    → Option Client
    → List File
    → Remote
    → (List UploadedFile × Option Error) × Remote
unfolding upload_files
upload_many open_file c fs r = upload_files open_file c [] fs r

pub delete_files : Client → List File → Remote → Option Error × Remote
delete_files c [] r = (none, r)
delete_files c (f ∷ fs) r =
    let (sent, r') = send (delete_object (object_key c.cfg f)) r in
    elim sent [
      | err e ↦ (some (item_error (codes "delete") (codes " from ") f (some c) e), r')
      | ok _ ↦ delete_files c fs r'
    ]

pub delete_many : Option Client → List File → Remote → Option Error × Remote
unfolding delete_files
delete_many none fs r = (none, r)
delete_many (some c) fs r = if enabled (some c) then delete_files c fs r else (none, r)
