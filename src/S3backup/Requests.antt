-- ===== src/S3backup/Requests.antt =====
-- internal/s3backup/s3backup.go: which requests `UploadMany` and `DeleteMany` send.
use infra_shelf.Common.{
  ℕ, Bytes, true, List, [], ◌∷◌, ◌++◌, map, take, zero, suc, Option, none, some, Result, ok, err,
  Error, ◌≡◌, refl, sym, ◌∙◌, append_assoc, append-nil, subst,
}
use infra_shelf.Common.Text.{codes}
use infra_shelf.Backups.{File}
use infra_shelf.S3backup.{
  Client, Remote, Request, UploadedFile, put_object, delete_object, enabled, object_key, put_on,
  uploaded_as, item_error, upload, upload_files, upload_many, delete_files, delete_many, send,
  send_on,
}

abbrev pub put_of : Client → File → Request
put_of c f = put_object (object_key c.cfg f) f.path

abbrev pub delete_of : Client → File → Request
delete_of c f = delete_object (object_key c.cfg f)

-- The requests after a run over files: one for each in their order, up to an error.
abbrev pub Sends : (File → Request) → List Request → List File → Option Error × Remote → Type 0
Sends q before fs (none, r) = r.requests ≡ before ++ map q fs
Sends q before fs (some e, r) = (k : ℕ) × (r.requests ≡ before ++ map q (take k fs))

Sends-cons :
    (q : File → Request) (before : List Request) (f : File) (fs : List File)
    (r : Option Error × Remote)
    → Sends q (before ++ q f ∷ []) fs r
    → Sends q before (f ∷ fs) r
Sends-cons q before f fs (none, r) h = h ∙ append_assoc before (q f ∷ []) (map q fs)
Sends-cons q before f fs (some e, r) (k, h) =
    (suc k, h ∙ append_assoc before (q f ∷ []) (map q (take k fs)))

send_on-requests :
    (faults : List (Option Error)) (q : Request) (qs : List Request)
    → (send_on faults q qs).1.requests ≡ qs ++ q ∷ []
unfolding send_on
send_on-requests [] q qs = refl
send_on-requests (none ∷ fs) q qs = refl
send_on-requests (some e ∷ fs) q qs = refl

send-requests : (q : Request) (r : Remote) → (send q r).1.requests ≡ r.requests ++ q ∷ []
send-requests q r = unfold send in send_on-requests r.faults q r.requests

-- The first request is sent, and the others follow.
Sends-first :
    (q : File → Request) (f : File) (fs : List File) (r : Remote) (last : Option Error × Remote)
    → Sends q (send (q f) r).1.requests fs last
    → Sends q r.requests (f ∷ fs) last
Sends-first q f fs r last h =
    Sends-cons q r.requests f fs last (subst (λ qs. Sends q qs fs last) (send-requests (q f) r) h)

delete_files-Sends :
    (c : Client) (fs : List File) (r : Remote)
    → Sends (delete_of c) r.requests fs (delete_files c fs r)
unfolding delete_files
delete_files-Sends c [] r = sym (append-nil r.requests)
delete_files-Sends c (f ∷ fs) r =
    on_sent (send (delete_of c f) r).0 (delete_files-Sends c fs (send (delete_of c f) r).1)
  where
    r' : Remote
    r' = (send (delete_of c f) r).1

    on_sent :
        (sent : Result (Unit {0}))
        → Sends (delete_of c) r'.requests fs (delete_files c fs r')
        → Sends (delete_of c) r.requests (f ∷ fs) (elim sent [
          | err e ↦ (some (item_error (codes "delete") (codes " from ") f (some c) e), r')
          | ok _ ↦ delete_files c fs r'
        ])
    on_sent (err e) h = (suc zero, send-requests (delete_of c f) r)
    on_sent (ok u) h = Sends-first (delete_of c) f fs r (delete_files c fs r') h

pub delete_many-Sends :
    (c : Client) (fs : List File) (r : Remote)
    → enabled (some c) ≡ true
    → Sends (delete_of c) r.requests fs (delete_many (some c) fs r)
unfolding delete_many
delete_many-Sends c fs r h = rw h (delete_files-Sends c fs r)

-- The error of a run of uploads, and the store after it.
abbrev pub outcome : (List UploadedFile × Option Error) × Remote → Option Error × Remote
outcome ((us, e), r) = (e, r)

module _ (open_file : Bytes → Option Error) (c : Client) (on : enabled (some c) ≡ true) where
  -- One upload sends its request, or the file was not opened.
  abbrev IsStep : File → Remote → Result UploadedFile × Remote → Type 0
  IsStep f r (err e, r') =
      (e' : Error) (fs : List File) → Sends (put_of c) r.requests (f ∷ fs) (some e', r')
  IsStep f r (ok u, r') = r' ≡ (send (put_of c f) r).1

  put_on-IsStep : (o : Option Error) (f : File) (r : Remote) → IsStep f r (put_on o c.cfg f r)
  put_on-IsStep (some e) f r = λ e' fs. (zero, sym (append-nil r.requests))
  put_on-IsStep none f r = on_sent (send (put_of c f) r).0
    where
      on_sent :
          (sent : Result (Unit {0}))
          → IsStep f r (uploaded_as f (object_key c.cfg f) sent, (send (put_of c f) r).1)
      on_sent (err e) = λ e' fs. (suc zero, send-requests (put_of c f) r)
      on_sent (ok u) = refl

  upload-IsStep : (f : File) (r : Remote) → IsStep f r (upload open_file (some c) f r)
  unfolding upload
  upload-IsStep f r = rw on (put_on-IsStep (open_file f.path) f r)

  upload_files-Sends :
      (us : List UploadedFile) (fs : List File) (r : Remote)
      → Sends (put_of c) r.requests fs (outcome (upload_files open_file (some c) us fs r))
  unfolding upload_files
  upload_files-Sends us [] r = sym (append-nil r.requests)
  upload_files-Sends us (f ∷ fs) r =
      on_item item.0 (upload-IsStep f r) (λ us'. upload_files-Sends us' fs item.1)
    where
      item : Result UploadedFile × Remote
      item = upload open_file (some c) f r

      on_item :
          (i : Result UploadedFile)
          → IsStep f r (i, item.1)
          → ((us' : List UploadedFile)
              → Sends
                  (put_of c)
                  item.1.requests
                  fs
                  (outcome (upload_files open_file (some c) us' fs item.1)))
          → Sends (put_of c) r.requests (f ∷ fs) (
              outcome (elim i [
                | err e ↦
                    ((us, some (item_error (codes "upload") (codes " to ") f (some c) e)), item.1)
                | ok u ↦ upload_files open_file (some c) (us ++ u ∷ []) fs item.1
              ]))
      on_item (err e) w h = w (item_error (codes "upload") (codes " to ") f (some c) e) fs
      on_item (ok u) w h =
          Sends-first (put_of c) f fs r
            (outcome (upload_files open_file (some c) (us ++ u ∷ []) fs item.1))
            (subst
              (λ r'.
                Sends (put_of c) r'.requests fs
                  (outcome (upload_files open_file (some c) (us ++ u ∷ []) fs item.1)))
              w (h (us ++ u ∷ [])))

  pub upload_many-Sends :
      (fs : List File) (r : Remote)
      → Sends (put_of c) r.requests fs (outcome (upload_many open_file (some c) fs r))
  unfolding upload_many
  upload_many-Sends fs r = upload_files-Sends [] fs r
