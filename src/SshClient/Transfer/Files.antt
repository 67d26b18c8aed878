-- ===== src/SshClient/Transfer/Files.antt =====
-- platform/ssh_client.c: a transfer makes a whole new file or none.
use nova_desktop.Base.{
  ℕ, ◌≡◌, refl, ◌⊎◌, inl, inr, arith, ap, Bool-cases, Bool, true, false, not, ◌&&◌, List, [],
  Option, none, some, if◌then◌else◌, ℤ,
}
use nova_desktop.SshClient.{Bytes, Connection, retry, is_zero}
use nova_desktop.SshClient.Transfer.{
  Incoming, Outgoing, Calls, Arrived, fails_with_file, download_rounds, upload_rounds, ended,
  closes, downloaded, download_file, uploaded, upload_file,
}
use nova_desktop.SshClient.Transfer.Loops.{
  Yields, served, upload_rounds-Yields, download_rounds-Yields,
}

-- A new file with the whole content, or the file, or none, that was there before.
abbrev pub IsTransferred : Bytes → Option Bytes → Bool × Option Bytes × Connection → Type 0
IsTransferred content before (ok, after, c) =
    ((ok ≡ true) × (before ≡ none) × (after ≡ some content)) ⊎ ((ok ≡ false) × (after ≡ before))

-- A new remote file with the whole content; or FALSE, and the file, or none, that was there before, unless an open of a new
-- file has failed, which may have made one.
abbrev pub IsUploaded : Calls → ℤ → Bytes → Option Bytes → Bool × Option Bytes × Connection → Type 0
IsUploaded o opened content before (ok, after, c) =
    ((ok ≡ true) × (before ≡ none) × (after ≡ some content) × (is_zero opened ≡ true))
    ⊎ ((ok ≡ false) × (after ≡ before))
    ⊎ ((ok ≡ false) × (before ≡ none) × (is_zero opened ≡ false) × (after ≡ o.unanswered))

either-IsTransferred :
    (content : Bytes) (before : Option Bytes) (b : Bool) (x y : Bool × Option Bytes × Connection)
    → IsTransferred content before x
    → IsTransferred content before y
    → IsTransferred content before (if b then x else y)
either-IsTransferred content before true x y first second = first
either-IsTransferred content before false x y first second = second

module _ (o : Calls) (removed : o.left ≡ none) where
  ended-IsTransferred :
      (content arrived : Bytes) (ok : Bool) (removal : ℕ → ℕ) (c : Connection) (x : ℤ × ℕ)
      → (ok ≡ false) ⊎ (arrived ≡ content)
      → IsTransferred content none (ended o ok arrived removal c x)
  ended-IsTransferred content arrived ok removal c (rc, e) yields =
      elim (Bool-cases (ok && is_zero rc)) [
        | inl done ↦ rw done (inl (refl, refl, whole yields done))
        | inr undone ↦ rw undone (inr (refl, removed))
      ]
    where
      whole :
          (ok ≡ false) ⊎ (arrived ≡ content)
          → (ok && is_zero rc) ≡ true
          → some arrived ≡ some content
      whole (inl bad) done = absurd (ground (arith, done))
      whole (inr same) done = ap some same

  closes-IsTransferred :
      (content : Bytes) (flushed : Bool) (removal : ℕ → ℕ) (c : Connection) (x : Arrived)
      → Yields content x
      → IsTransferred content none (closes o flushed removal c x)
  closes-IsTransferred content flushed removal c (true, arrived, e) (inl bad) =
      absurd (ground arith)
  closes-IsTransferred content flushed removal c (ok, arrived, e) (inr same) =
      ended-IsTransferred content arrived (ok && flushed) removal c (retry o.close_calls e)
        (inr same)
  closes-IsTransferred content flushed removal c (false, arrived, e) (inl bad) =
      ended-IsTransferred content arrived false removal c (retry o.close_calls e) (inl refl)

  prepared-Yields :
      (b : Bool) (content : Bytes) (x : Arrived) (e : ℕ)
      → Yields content x
      → Yields content (if b then x else (false, [], e))
  prepared-Yields true content x e yields = yields
  prepared-Yields false content x e yields = inl refl

  downloaded-IsTransferred :
      (rounds : List Incoming) (c : Connection) (x : ℤ × ℕ)
      → IsTransferred (served rounds) none (downloaded o rounds c x)
  downloaded-IsTransferred rounds c (rc, e) = elim (Bool-cases (is_zero rc)) [
    | inr closed ↦ rw closed (inr (refl, removed))
    | inl opened ↦ rw opened (
        closes-IsTransferred (served rounds) o.flushes (λ error. error) c _
          (prepared-Yields o.memory (served rounds) (download_rounds rounds [] e) e
            (download_rounds-Yields rounds [] e)))
  ]

  transferred-IsUploaded :
      (opened : ℤ) (source : Bytes) (x : Bool × Option Bytes × Connection)
      → is_zero opened ≡ true
      → IsTransferred source none x
      → IsUploaded o opened source none x
  transferred-IsUploaded opened source (ok, after, c) open_now (inl (e, b, a)) =
      inl (e, b, a, open_now)
  transferred-IsUploaded opened source (ok, after, c) open_now (inr (e, a)) = inr (inl (e, a))

  opened-IsUploaded :
      (rounds : List Outgoing) (source : Bytes) (c : Connection) (rc : ℤ) (e : ℕ) (b : Bool)
      → is_zero rc ≡ b
      → IsUploaded o rc source none (
          if not b
          then fails_with_file o o.unanswered e c
          else closes o true
              (λ error. (retry o.unlink_calls error).1)
              c
              (if o.memory then upload_rounds rounds source [] e else (false, [], e)))
  opened-IsUploaded rounds source c rc e false closed = inr (inr (refl, refl, closed, refl))
  opened-IsUploaded rounds source c rc e true opened =
      transferred-IsUploaded rc source
        (closes o true (λ error. (retry o.unlink_calls error).1) c
          (if o.memory then upload_rounds rounds source [] e else (false, [], e)))
        opened
        (closes-IsTransferred source true (λ error. (retry o.unlink_calls error).1) c _
          (prepared-Yields o.memory source (upload_rounds rounds source [] e) e
            (upload_rounds-Yields rounds source [] e)))

  uploaded-IsUploaded :
      (rounds : List Outgoing) (source : Bytes) (remote : Option Bytes) (c : Connection) (x : ℤ × ℕ)
      → IsUploaded o x.0 source remote (uploaded o rounds source remote c x)
  uploaded-IsUploaded rounds source (some content) c (rc, e) = inr (inl (refl, refl))
  uploaded-IsUploaded rounds source none c (rc, e) =
      opened-IsUploaded rounds source c rc e (is_zero rc) refl

  if-IsUploaded :
      (opened : ℤ) (source : Bytes) (remote : Option Bytes) (b : Bool)
      (x y : Bool × Option Bytes × Connection)
      → IsUploaded o opened source remote x
      → IsUploaded o opened source remote y
      → IsUploaded o opened source remote (if b then x else y)
  if-IsUploaded opened source remote true x y p q = p
  if-IsUploaded opened source remote false x y p q = q

  -- A download of a file whose part could be removed is TRUE, and a new local file has all bytes that the server sent up
  -- to the end, or it is FALSE, and what was there is as before: a file that was there is never overwritten, and no
  -- part of one is left.
  pub download_file_lem :
      (rounds : List Incoming) (local : Option Bytes) (c : Connection)
      → IsTransferred (served rounds) local (download_file o rounds local c)
  unfolding download_file
  download_file_lem rounds (some content) c = inr (refl, refl)
  download_file_lem rounds none c =
      either-IsTransferred (served rounds) none o.opens_local _ _
        (downloaded-IsTransferred rounds c (retry o.open_calls c.native_error)) (inr (refl, refl))

  -- An upload of a file whose part could be removed once it was open is TRUE, and a new remote file has exactly the bytes of
  -- the local one, however the server splits the writes; or it is FALSE, and what was there on the server is as before, but
  -- where none was there and the open has failed: then what a server that has not answered has made of it may be
  -- left. A remote file that was there is never changed.
  pub upload_file_lem :
      (rounds : List Outgoing) (source : Bytes) (remote : Option Bytes) (c : Connection)
      → IsUploaded o
          (retry o.open_calls c.native_error).0
          source
          remote
          (upload_file o rounds source remote c)
  unfolding upload_file
  upload_file_lem rounds source remote c =
      if-IsUploaded (retry o.open_calls c.native_error).0 source remote o.opens_local _ _
        (uploaded-IsUploaded rounds source remote c (retry o.open_calls c.native_error))
        (inr (inl (refl, refl)))
