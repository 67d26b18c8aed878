-- ===== src/SshClient/Transfer.antt =====
-- platform/ssh_client.c: the transfer of one file in transfer_node, behind its guards. A file is its bytes, none where there is
-- no file; progress and the count of the log are left out.
pub mod Loops
pub mod Files
use nova_desktop.Base.{
  ℕ, Bool, true, false, ◌&&◌, not, List, [], ◌∷◌, ◌++◌, Option, none, some, ltb, ◌==◌,
  if◌then◌else◌, ℤ, pos, negsuc, length, take, drop,
}
use nova_desktop.SshClient.{Bytes, Connection, Try, retry, is_zero, failed}

abbrev pub buffer_size : ℕ
buffer_size = 65536

-- One round of a download: the cancel event is set, or the answers to read, what it leaves in the buffer, and whether WriteFile
-- writes it.
pub data Incoming : Type 0 where
  cancelled : Incoming
  receives : List Try → Bytes → Bool → Incoming

-- One round of an upload: the cancel event is set, ReadFile fails, or the answers to the writes of what it reads.
pub data Outgoing : Type 0 where
  stopped : Outgoing
  unread : Outgoing
  sends : List (List Try) → Outgoing

-- The other calls: CreateFileW, open_remote, malloc, FlushFileBuffers, close_remote, and the removal of what was not
-- transferred in whole, with what is left of it.
pub record Calls : Type 0 where
  pub opens_local : Bool
  pub open_calls : List Try
  -- what there is of a new remote file where the open fails: the server may have made it before a timeout or a cancel
  pub unanswered : Option Bytes
  pub memory : Bool
  pub flushes : Bool
  pub close_calls : List Try
  pub unlink_calls : List Try
  pub left : Option Bytes
  pub cancel_set : Bool
  pub late : Bool

-- Whether it went well so far, the bytes that have arrived, and the last error.
abbrev pub Arrived : Type 0
Arrived = Bool × Bytes × ℕ

abbrev received : Bytes → Bool → Bytes → (Bytes → ℕ → Arrived) → ℤ × ℕ → Arrived
received content writes buffer next (negsuc n, native_error) = (false, content, native_error)
received content writes buffer next (pos n, native_error) =
    if n == 0
    then (true, content, native_error)
    else if writes
    then next (content ++ take n buffer) native_error
    else (false, content, native_error)

-- The loop of a download; after the rounds nothing is left to read.
unfoldable pub download_rounds : List Incoming → Bytes → ℕ → Arrived
unfolding retry
download_rounds [] content native_error = (true, content, native_error)
download_rounds (cancelled ∷ rounds) content native_error = (false, content, native_error)
download_rounds (receives calls buffer writes ∷ rounds) content native_error =
    received content writes buffer (download_rounds rounds) (retry calls native_error)

abbrev written_part : Bytes → Bytes → (Bytes → Bytes → ℕ → Arrived) → ℤ × ℕ → Arrived
written_part rest content next (negsuc n, native_error) = (false, content, native_error)
written_part rest content next (pos n, native_error) =
    if n == 0
    then (false, content, native_error)
    else next (drop n rest) (content ++ take n rest) native_error

-- The loop over `offset`: `rest` is still to be written. The server answers until it is done or fails.
unfoldable pub write_all : List (List Try) → Bytes → Bytes → ℕ → Arrived
unfolding retry
write_all [] rest content native_error = (length rest == 0, content, native_error)
write_all (calls ∷ answers) rest content native_error =
    if length rest == 0
    then (true, content, native_error)
    else written_part rest content (write_all answers) (retry calls native_error)

abbrev then_round : (Bytes → ℕ → Arrived) → Arrived → Arrived
then_round next (ok, content, native_error) =
    if ok then next content native_error else (false, content, native_error)

-- The loop of an upload. ReadFile reads a whole buffer while there is so much.
unfoldable pub upload_rounds : List Outgoing → Bytes → Bytes → ℕ → Arrived
unfolding write_all
upload_rounds [] source content native_error = (length source == 0, content, native_error)
upload_rounds (stopped ∷ rounds) source content native_error = (false, content, native_error)
upload_rounds (unread ∷ rounds) source content native_error = (false, content, native_error)
upload_rounds (sends answers ∷ rounds) source content native_error =
    if length source == 0
    then (true, content, native_error)
    else then_round (upload_rounds rounds (drop buffer_size source))
        (write_all answers (take buffer_size source) content native_error)

module _ (o : Calls) where
  -- The file that was there before, and the connection.
  abbrev pub fails_with_file : Option Bytes → ℕ → Connection → Bool × Option Bytes × Connection
  fails_with_file file native_error c =
      (false, file, failed o.cancel_set o.late (record c { native_error = native_error }))

  -- Both files are closed. The last error is that behind the removal of what was not transferred in whole.
  abbrev pub ended : Bool → Bytes → (ℕ → ℕ) → Connection → ℤ × ℕ → Bool × Option Bytes × Connection
  ended ok content removal c (rc, native_error) =
      if ok && is_zero rc
      then (true, some content, record c { native_error = native_error })
      else fails_with_file o.left (removal native_error) c

  abbrev pub closes : Bool → (ℕ → ℕ) → Connection → Arrived → Bool × Option Bytes × Connection
  closes flushed removal c (ok, content, native_error) =
      ended (ok && flushed) content removal c (retry o.close_calls native_error)

  abbrev downloaded : List Incoming → Connection → ℤ × ℕ → Bool × Option Bytes × Connection
  downloaded rounds c (rc, native_error) =
      if not (is_zero rc)
      then fails_with_file o.left native_error c
      else closes o.flushes (λ error. error) c
          (if o.memory then download_rounds rounds [] native_error else (false, [], native_error))

  -- The local file afterwards; CREATE_NEW refuses one that is there.
  abbrev pub download_new :
      List Incoming → Option Bytes → Connection → Bool × Option Bytes × Connection
  download_new rounds (some content) c = fails_with_file (some content) c.native_error c
  download_new rounds none c =
      if o.opens_local
      then downloaded rounds c (retry o.open_calls c.native_error)
      else fails_with_file none c.native_error c

  unfoldable pub download_file :
      List Incoming → Option Bytes → Connection → Bool × Option Bytes × Connection
  unfolding retry download_rounds failed
  download_file rounds local c = download_new rounds local c

  -- LIBSSH2_FXF_EXCL refuses a remote file that is there.
  abbrev uploaded :
      List Outgoing → Bytes → Option Bytes → Connection → ℤ × ℕ → Bool × Option Bytes × Connection
  uploaded rounds source (some content) c (rc, native_error) =
      fails_with_file (some content) native_error c
  uploaded rounds source none c (rc, native_error) =
      if not (is_zero rc)
      then fails_with_file o.unanswered native_error c
      else closes true (λ error. (retry o.unlink_calls error).1) c
          (if o.memory
            then upload_rounds rounds source [] native_error
            else (false, [], native_error))

  -- The remote file afterwards, for a local file with these bytes.
  unfoldable pub upload_file :
      List Outgoing → Bytes → Option Bytes → Connection → Bool × Option Bytes × Connection
  unfolding retry upload_rounds failed
  upload_file rounds source remote c =
      if o.opens_local
      then uploaded rounds source remote c (retry o.open_calls c.native_error)
      else fails_with_file remote c.native_error c
