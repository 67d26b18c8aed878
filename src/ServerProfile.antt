-- ===== src/ServerProfile.antt =====
-- core/server_profile.h and core/server_profile.c: the saved SSH servers, the locations that name a
-- remote directory, remote paths, and the line that carries a directory to the remote shell. Arrays that
-- `bounded` looks at are buffers with all their cells. An out buffer is the string or the bytes that
-- are written, and none is the result false.
pub mod Location
pub mod Paths
pub mod Payload
pub mod Servers
mod Examples
use nova_desktop.Base.{
  ◌>>◌, ◌>>=◌, ℕ, ◌+◌, ◌-◌, ◌*◌, ◌/◌, ◌%◌, ◌^◌, Bool, true, false, ◌&&◌, ◌||◌, not, List, [], ◌∷◌,
  ◌++◌, Option, none, some, guard, ltb, leb, ◌==◌, if◌then◌else◌, ℤ, pos, negsuc, count_in,
  is_positive, same_int, length, take, get_or,
}
use nova_desktop.Text.{Text, Buffer, bounded, c_str, codes, first, strip_prefix, text_eq, has_char}
use nova_desktop.Decimal.{to_decimal, wcstoll}

abbrev pub server_limit : ℕ
server_limit = 16

abbrev pub path_cap : ℕ
path_cap = 2048

abbrev pub name_cap : ℕ
name_cap = 64

pub record SshServer : Type 0 where
  pub id : ℤ
  pub name : Buffer
  pub host : Buffer
  pub user : Buffer
  pub directory : Buffer
  pub port : ℤ

-- `items` has all `server_limit` cells.
pub record SshServers : Type 0 where
  pub items : List SshServer
  pub count : ℤ

-- `port>=1&&port<=65535`
abbrev pub is_port : ℤ → Bool
is_port (pos n) = leb 1 n && leb n 65535
is_port (negsuc n) = false

-- The loop over the host: no blank, slash or at sign.
pub host_valid : Text → Bool
host_valid [] = true
host_valid (c ∷ cs) =
    if leb c b' ' || c == b'/' || c == b'\\' || c == b'@' then false else host_valid cs

-- The tests of one server, without those against the others.
pub server_valid : SshServer → Bool
unfolding host_valid
server_valid s =
    is_positive s.id
    && is_port s.port
    && bounded s.name name_cap
    && not (first (c_str s.name) == 0)
    && bounded s.host 256
    && not (first (c_str s.host) == 0)
    && bounded s.user 128
    && not (first (c_str s.user) == 0)
    && bounded s.directory path_cap
    && first (c_str s.directory) == b'/'
    && ltb (length (c_str s.directory)) (path_cap - 40)
    && host_valid (c_str s.host)

-- `s->id==items[j].id||!wcscmp(s->name,items[j].name)` for some earlier server.
pub clashes : SshServer → List SshServer → Bool
clashes s [] = false
clashes s (x ∷ xs) =
    if same_int s.id x.id || text_eq (c_str s.name) (c_str x.name) then true else clashes s xs

-- The loop of ssh_servers_valid; `earlier` are the servers passed.
pub servers_valid : List SshServer → List SshServer → Bool
servers_valid earlier [] = true
servers_valid earlier (s ∷ xs) =
    server_valid s && not (clashes s earlier) && servers_valid (s ∷ earlier) xs

pub ssh_servers_valid : SshServers → Bool
unfolding servers_valid
ssh_servers_valid servers = elim (count_in servers.count server_limit) [
  | none ↦ false
  | some count ↦ servers_valid [] (take count servers.items)
]

abbrev pub location_prefix : Text
location_prefix = codes "nova-ssh:"

-- Behind the number: a colon, and a path.
abbrev pub after_number : Text → Option Text
after_number [] = none
after_number (c ∷ path) = if c == b':' && first path == b'/' then some path else none

-- The identifier and the path of a location. The digit in front makes the value positive.
pub ssh_location_parse : Text → Option (ℕ × Text)
ssh_location_parse location = do
  p ← strip_prefix location_prefix location
  guard (leb b'1' (first p) && leb (first p) b'9')
  let (value, errno, end) = wcstoll p in
      do guard (not errno && ltb 0 value); path ← after_number end; some (value, path)

-- `swprintf(out,capacity,...)` writes nothing when there is no room for the terminator.
pub ssh_location_format : ℕ → ℤ → Text → Option Text
ssh_location_format capacity (negsuc id) path = none
ssh_location_format capacity (pos id) path =
    if not (first path == b'/') || id == 0 || leb capacity (length path + 40)
    then none
    else let out = location_prefix ++ to_decimal id ++ b':' ∷ path in
      if ltb (length out) capacity then some out else none

-- `base[n-1]`
abbrev last : Text → ℕ
last base = get_or base (length base - 1) 0

-- `base` without one slash at its end, unless it is that slash.
pub trimmed : Text → Text
trimmed base =
    if ltb 1 (length base) && last base == b'/' then take (length base - 1) base else base

-- `!name[0]||wcschr(name,L'/')||!wcscmp(name,L".")||!wcscmp(name,L"..")`
pub is_bad_name : Text → Bool
is_bad_name name =
    first name == 0 || has_char name b'/' || text_eq name (codes ".") || text_eq name (codes "..")

-- `kept` and the name with one slash between them.
abbrev pub join_kept : ℕ → Text → Text → Option Text
join_kept capacity kept name =
    let root = length kept == 1 in
    if ltb capacity (length kept + length name + (if root then 1 else 2))
    then none
    else some (kept ++ ((if root then [] else b'/' ∷ []) ++ name))

unfoldable pub ssh_path_join : ℕ → Text → Text → Option Text
unfolding trimmed is_bad_name
ssh_path_join capacity base name =
    if not (first base == b'/') || is_bad_name name
    then none
    else join_kept capacity (trimmed base) name

abbrev pub size_max : ℕ
size_max = 2 ^ 64 - 1

-- `path[i]` is an unsigned char, and each takes five bytes: a backslash, a zero and three octal digits.
pub octal : List ℕ → Option (List ℕ)
octal [] = some []
octal (c ∷ path) = do
  guard (not (c == 0))
  more ← octal path
  some (b'\\' ∷ b'0' ∷ (b'0' + c / 64 % 8) ∷ (b'0' + c / 8 % 8) ∷ (b'0' + c % 8) ∷ more)

-- `!length||path[0]!='/'||length>(SIZE_MAX-2)/5||capacity<length*5+2`
pub refuses : List ℕ → ℕ → Bool
refuses path capacity =
    length path == 0
    || not (first path == b'/')
    || ltb ((size_max - 2) / 5) (length path)
    || ltb capacity (length path * 5 + 2)

-- The bytes written: the line and its terminator.
pub ssh_directory_payload : List ℕ → ℕ → Option (List ℕ)
unfolding octal refuses
ssh_directory_payload path capacity =
    if refuses path capacity then none else do line ← octal path; some (line ++ 10 ∷ 0 ∷ [])
