-- ===== src/SyncClient.antt =====
-- platform/sync_client.c: what a run keeps while it receives versions from the server, and its calls. The working folder
-- and the folders of the cache are stores of contents by path, the index of SQLite is its tables. SHA-256, the
-- functions of JSON and the attributes of paths are parameters; `answers` says of the calls of Windows and of
-- SQLite to come whether they go through. The log lines and the callback of sy_progress are outside.
pub mod Download
pub mod Jobs
pub mod Tables
pub mod Apply
pub mod Temporary
pub mod Receive
pub mod Quiet
pub mod Looks
pub mod Facts
pub mod Leaves
pub mod Outcome
pub mod Checks
pub mod Moves
pub mod Keeps
pub mod Safety
pub mod Ensures
pub mod Index
pub mod Done
pub mod Recorded
pub mod Tracks
pub mod Indexed
pub mod All
pub mod Places
pub mod Placed
pub mod Compare
mod Examples
use nova_desktop.Base.{
  ℕ, ◌+◌, ◌-◌, ◌*◌, ◌%◌, ◌^◌, Bool, true, false, ◌&&◌, ◌||◌, not, List, [], ◌∷◌, ◌++◌, Option, none,
  some, leb, ltb, ◌==◌, if◌then◌else◌, ℤ, pos, negsuc, length,
}
use nova_desktop.Text.{Text, codes, text_eq}
use nova_desktop.SyncFiles.{sy_join}
use nova_desktop.SyncWire.{
  Bytes, Run, M, Outside, SyncReply, SyncFailure, cancelled, storage, path, cache, protocol,
  sy_fail, sy_rpc,
}

abbrev pub chunk_max : ℕ
chunk_max = 2 * 1024 * 1024

-- A file with its content and its last write in nanoseconds.
pub record File : Type 0 where
  pub content : Bytes
  pub mtime : ℕ

abbrev pub Working : Type 0
Working = Text → Option File

abbrev pub set_file : Text → Option File → Working → Working
set_file p file files q = if text_eq q p then file else files q

pub data Phase : Type 0 where
  downloading ready applied : Phase

-- A row of the table `inbox`.
pub record Row : Type 0 where
  pub id : Text
  pub dataset : Text
  pub manifest : Text
  pub mhash : Text
  pub phase : Phase

-- A row of the table `files`, whose key is the dataset with the key of the path.
pub record Head : Type 0 where
  pub manifest : Text
  pub size : ℕ
  pub mtime : ℤ

abbrev pub Heads : Type 0
Heads = Text → Text → Option Head

-- A version of the table `versions`: its identifier and its manifest.
abbrev pub Versions : Type 0
Versions = List (Text × Text)

-- `polls` says of the looks at the cancel event to come whether it is set, and it stays set.
pub record World : Type 0 where
  pub run : Run
  pub answers : List Bool
  pub polls : List Bool
  pub working : Working
  pub chunk_files : Text → Option Bytes
  pub part_files : Text → Option Bytes
  pub heads : Heads
  pub inbox : List Row
  pub versions : Versions
  pub accepted_local : Text
  pub downloaded : ℕ
  pub reused : ℕ
  pub resumed : ℕ
  pub reclaimed : ℕ

-- The request and what a run finds outside.
pub record Client : Type 0 where
  pub outside : Outside
  pub realloc : List ℕ → ℕ → Option (List ℕ)
  pub node_id : Text
  pub role : ℕ
  -- sync_utf8 of the dataset of the pair
  pub dataset : Option Text
  pub directory : Text
  pub sync_deletes : Bool
  pub resolution : ℕ
  pub resolve_path : Text
  pub cache_folder : Text
  pub partial_folder : Text
  -- sync_wide with a capacity
  pub wide : Text → ℕ → Option Text
  -- SHA-256 in 64 characters, none where OpenSSL refuses
  pub sha : Bytes → Option Text
  -- the rows that json_each yields: the chunks of a manifest, the jobs of a reply, and the rows of a listing
  pub chunks : Text → List (Option Text × ℕ)
  pub jobs : Text → List (Option Text × Option Text)
  -- json() on a manifest
  pub minified : Text → Text
  pub reparse : Text → Bool
  -- what other programs do to the working folder while a version is written beside its place
  pub meanwhile : Working → Working
  -- what swprintf leaves of the name of a temporary file that is too long for its cells or has other than ASCII
  pub misprinted : Text → Text
  -- what of a buffer is in the file behind a WriteFile that does not write it whole
  pub torn : Bytes → Bytes
  -- whether the file, with its size and time, was moved to the recycle bin
  pub recycle : Option (Text → ℕ → ℕ → Bool)
  -- the time of a new file
  pub now : ℕ

-- A step with a result; none is FALSE. The state comes back either way.
abbrev pub Act : Type 0 → Type 0
Act A = World → Option A × World

abbrev pub pure : {A : Type 0} → A → Act A
pure a w = (some a, w)

abbrev pub follow : {A B : Type 0} → (A → Act B) → Option A × World → Option B × World
follow f (none, w) = (none, w)
follow f (some a, w) = f a w

infixl 5 ◌>>=◌ ◌>>◌
unfoldable pub ◌>>=◌ : {A B : Type 0} → Act A → (A → Act B) → Act B
◌>>=◌ m f w = follow f (m w)

unfoldable pub ◌>>◌ : {B : Type 0} → Act (Unit {0}) → Act B → Act B
m >> k = m >>= λ _. k

unfoldable pub change : (World → World) → Act (Unit {0})
change f w = (some tt, f w)

-- A step that goes on with the state.
unfoldable pub from : {A B : Type 0} → (World → B) → (B → Act A) → Act A
from f k w = k (f w) w

abbrev lifted : {A : Type 0} → World → Option A × Run → Option A × World
lifted w (a, r) = (a, record w { run = r })

unfoldable pub lift : {A : Type 0} → M A → Act A
lift m w = lifted w (m w.run)

-- FALSE without a failure of its own.
abbrev pub check : Bool → Act (Unit {0})
check b w = (if b then some tt else none, w)

abbrev pub of_option : {A : Type 0} → Option A → Act A
of_option a w = (a, w)

abbrev answer_of : List Bool → Bool
answer_of [] = true
answer_of (b ∷ bs) = b

abbrev answers_after : List Bool → List Bool
answers_after [] = []
answers_after (b ∷ bs) = bs

unfoldable pub ask : Act Bool
ask w = (some (answer_of w.answers), record w { answers = answers_after w.answers })

-- A call of Windows or of SQLite.
abbrev pub call : Act (Unit {0})
call = ask >>= check

abbrev is_set : List Bool → Bool
is_set [] = false
is_set (b ∷ bs) = b

abbrev polls_after : List Bool → List Bool
polls_after [] = []
polls_after (true ∷ bs) = true ∷ bs
polls_after (false ∷ bs) = bs

unfoldable pub poll : Act Bool
poll w = (some (is_set w.polls), record w { polls = polls_after w.polls })

abbrev pub fallen : {A : Type 0} → Act A → Option A × World → Option A × World
fallen k (some a, w) = (some a, w)
fallen k (none, w) = k w

-- `m||k`
unfoldable pub or_do : {A : Type 0} → Act A → Act A → Act A
or_do k m w = fallen k (m w)

abbrev pub unsigned : ℤ → ℕ
unsigned (pos n) = n % 2 ^ 64
unsigned (negsuc n) = (2 ^ 64 - 1) - n % 2 ^ 64

abbrev pub is_same : Option Text → Text → Bool
is_same none b = false
is_same (some a) b = text_eq a b

abbrev pub joined : Text → Option Text → Option Text
joined folder none = none
joined folder (some name) = sy_join folder name

abbrev is_hash : Text → Bool
is_hash [] = true
is_hash (c ∷ cs) = (leb b'0' c && leb c b'9' || leb b'a' c && leb c b'f') && is_hash cs

module _ (c : Client) where
  abbrev pub fail : {A : Type 0} → SyncFailure → Act A
  fail code = lift (sy_fail c.outside.last_error code)

  abbrev pub or_fail : {A : Type 0} → SyncFailure → Act A → Act A
  or_fail code m = or_do (fail code) m

  abbrev pub demand : Bool → SyncFailure → Act (Unit {0})
  demand b code = or_fail code (check b)

  -- sy_cancel, where FALSE goes on.
  abbrev pub unless_cancelled : Act (Unit {0})
  unless_cancelled = poll >>= λ b. if b then fail cancelled else pure tt

  -- sy_rpc, which looks at the cancel event first.
  unfoldable pub rpc : Text → Act SyncReply
  unfolding lift
  rpc request =
      poll >>= λ b. lift (sy_rpc (record c.outside { cancel_set = b }) c.node_id c.role request [])

  -- sy_statement and sy_exec with what they change.
  abbrev pub statement : (World → World) → Act (Unit {0})
  statement f = or_fail storage call >> change f

  -- sy_query, whose NULL does not end the run.
  abbrev pub query : {A : Type 0} → (World → Option A) → Act (Option A)
  query f = ask >>= λ b. if b then (λ w. (some (f w), w)) else or_do (pure none) (fail storage)

  -- The hash of a content that sync_hash_file reads.
  abbrev pub hash_of : Bytes → Act Text
  hash_of bytes = call >> of_option (c.sha bytes)

  abbrev named_by : Option Text → Act Text
  named_by none = fail protocol
  named_by (some hash) =
      if length hash == 64 && is_hash hash
      then or_fail path (of_option (joined c.cache_folder (c.wide hash 80)))
      else fail protocol

  unfoldable pub cache_path : Option Text → Act Text
  unfolding lift
  cache_path hash = named_by hash

  -- The rows that the statement of pairs_array yields.
  abbrev pub pairs_array : Text → Act (List (Option Text × ℕ))
  pairs_array manifest = or_fail protocol call >> pure (c.chunks manifest)

  abbrev pub chunk_read : Option Bytes → Act Bytes
  chunk_read none = check false >> pure []
  chunk_read (some bytes) = pure bytes

  -- The content of a file of the cache, with the hash that it has.
  abbrev pub hashed_chunk : Text → Act (Bytes × Text)
  hashed_chunk target =
      from (λ w. w.chunk_files target)
        (λ file. chunk_read file >>= λ bytes. hash_of bytes >>= λ hash. pure (bytes, hash))

  unfoldable pub cached : Option Text → ℕ → Act (Unit {0})
  unfolding cache_path ask
  cached hash size = cache_path hash >>= hashed_chunk >>= λ found.
      check (length found.0 % 2 ^ 64 == size && is_same hash found.1)
