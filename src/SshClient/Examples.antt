-- ===== src/SshClient/Examples.antt =====
-- The theorems on platform/ssh_client.c at one server, whose key is pinned or not.
use nova_desktop.Base.{
  All, ◌≤◌, true, false, List, [], ◌∷◌, ◌++◌, some, none, pos, ◌≡◌, ◌⊎◌, refl, leb, length,
}
use nova_desktop.Text.{Text, codes, c_str, text_eq, has_char}
use nova_desktop.BatchRunner.Output.{joined}
use nova_desktop.Credentials.{SshLogin}
use nova_desktop.SyncFiles.{hex}
use nova_desktop.SshClient.{retry, Bytes, no_phase, Connection, gives}
use nova_desktop.SshClient.Connect.{Answers, connects, closed, connect_impl}
use nova_desktop.SshClient.Verified.{connect_impl_sent, IsVerified}
use nova_desktop.SshClient.Output.{append_all, append_output_reads, end_of, output_cap}
use nova_desktop.ServerProfile.{ssh_path_join}
use nova_desktop.SshClient.Deletion.{Node, node, entry, no_more, delete_impl}
use nova_desktop.SshClient.Deletion.Removed.{IsDeleted, delete_impl_lem}
use nova_desktop.SshClient.Transfer.{
  Calls, Outgoing, sends, Incoming, receives, upload_file, download_file,
}
use nova_desktop.SshClient.Transfer.Loops.{served}
use nova_desktop.SshClient.Transfer.Files.{
  IsTransferred, IsUploaded, upload_file_lem, download_file_lem,
}
use nova_desktop.SshClient.Deletion.{entry_limit}
use nova_desktop.SshClient.Download
use nova_desktop.SshClient.Download.{download_tree}
use nova_desktop.SshClient.Download.Parts.{Lands}
use nova_desktop.SshClient.Download.Landing.{download_tree_lem}

abbrev login_with : Text → SshLogin
login_with fingerprint = record {
  fingerprint = fingerprint ++ (0 ∷ []);
  server = record {
    id = pos 7;
    name = codes "n" ++ (0 ∷ []);
    host = codes "h" ++ (0 ∷ []);
    user = codes "u" ++ (0 ∷ []);
    directory = codes "/" ++ (0 ∷ []);
    port = pos 22;
  };
  secret = codes "s" ++ (0 ∷ []);
  key_file = 0 ∷ [];
}

abbrev answers : Answers
answers = record {
  memory = true;
  lookup = 0;
  attempts = connects ∷ [];
  session = true;
  preferences = true;
  handshake_calls = gives (pos 0) ∷ [];
  host_hash = some (171 ∷ []);
  utf8 = λ text size. some text;
  last_error = 0;
  list_calls = gives (pos 0) ∷ [];
  methods = codes "password";
  authenticated = false;
  key = closed 2;
  key_calls = [];
  password_calls = gives (pos 0) ∷ [];
  sftp_calls = gives (pos 0) ∷ [];
  cancel_set = false;
  late = false;
}

abbrev start : Connection
start = record {
  phase = no_phase;
  native_error = 0;
  code = 0;
  result_phase = no_phase;
  result_native_error = 0;
  cancelled = false;
  fingerprint = [];
  auth_methods = none;
  sent = [];
}

connect_impl_sent_example :
    ((connect_impl answers (login_with (codes "ab")) start).1.sent ≡ [])
    ⊎ IsVerified answers (login_with (codes "ab"))
connect_impl_sent_example = connect_impl_sent answers (login_with (codes "ab")) start

pinned_connects : (connect_impl answers (login_with (codes "ab")) start).0 ≡ true
unfolding connect_impl hex c_str text_eq
pinned_connects = refl

abbrev chunks : List Bytes
chunks = codes "ab" ∷ codes "c" ∷ []

append_output_reads_example :
    ((append_all (record { output = []; truncated = false }) chunks).output
      ≡ end_of (joined chunks))
    × ((append_all (record { output = []; truncated = false }) chunks).truncated
        ≡ leb output_cap (length (joined chunks)))
append_output_reads_example = append_output_reads chunks

abbrev downloads : Text
downloads = codes "C:\\d"

-- A directory with one file.
abbrev tree : Node
tree =
    node false (gives (pos 0) ∷ []) true (gives (pos 0) ∷ [])
      (entry (gives (pos 1) ∷ []) (codes "a")
        (node false (gives (pos 0) ∷ []) false [] no_more (gives (pos 0) ∷ [])) no_more)
      (gives (pos 0) ∷ [])

tree_removed :
    (delete_impl (λ text size. some text) some false false tree (codes "/d") start).1.paths
    ≡ codes "/d" ∷ codes "/d/a" ∷ []
unfolding delete_impl ssh_path_join text_eq c_str has_char
tree_removed = refl

delete_impl_lem_example :
    IsDeleted
      (λ text size. some text)
      some
      false
      false
      (codes "/d")
      (delete_impl (λ text size. some text) some false false tree (codes "/d") start)
delete_impl_lem_example =
    delete_impl_lem (λ text size. some text) some false false (codes "/d") tree start

abbrev calls : Calls
calls = record {
  opens_local = true;
  open_calls = gives (pos 0) ∷ [];
  unanswered = none;
  memory = true;
  flushes = true;
  close_calls = gives (pos 0) ∷ [];
  unlink_calls = [];
  left = none;
  cancel_set = false;
  late = false;
}

-- The server takes three bytes in two pieces.
abbrev pieces : List Outgoing
pieces = sends ((gives (pos 2) ∷ []) ∷ (gives (pos 1) ∷ []) ∷ []) ∷ []

uploaded_whole : (upload_file calls pieces (codes "abc") none start).1 ≡ some (codes "abc")
unfolding upload_file
uploaded_whole = refl

upload_file_lem_example :
    IsUploaded calls
      (retry calls.open_calls start.native_error).0
      (codes "abc")
      none
      (upload_file calls pieces (codes "abc") none start)
upload_file_lem_example = upload_file_lem calls refl pieces (codes "abc") none start

abbrev packets : List Incoming
packets =
    receives (gives (pos 2) ∷ []) (codes "ab") true ∷ receives (gives (pos 0) ∷ []) [] true ∷ []

download_file_lem_example :
    IsTransferred (served packets) none (download_file calls packets none start)
download_file_lem_example = download_file_lem calls refl packets none start

-- A directory with a file whose name leads out of the folder.
abbrev leading_out : Download.Node
leading_out =
    Download.node false (gives (pos 0) ∷ []) Download.directory true (gives (pos 0) ∷ [])
      (Download.entry (gives (pos 5) ∷ []) (codes "..\\ab")
        (Download.node false (gives (pos 0) ∷ []) Download.other false [] Download.no_more none
          packets calls)
        Download.no_more)
      none [] calls

download_tree_lem_example :
    (length
        (download_tree
          (λ c. c)
          (λ text size. some text)
          some
          false
          false
          leading_out
          downloads
          (codes "/d")
          start).1.paths
      ≤ entry_limit)
    × All
        (Lands (λ c. c) downloads)
        (download_tree
          (λ c. c)
          (λ text size. some text)
          some
          false
          false
          leading_out
          downloads
          (codes "/d")
          start).1.paths
download_tree_lem_example =
    download_tree_lem (λ c. c) (λ text size. some text) some false false downloads leading_out
      (codes "/d") start

only_the_folder :
    (download_tree
      (λ c. c)
      (λ text size. some text)
      some
      false
      false
      leading_out
      downloads
      (codes "/d")
      start).1.paths
    ≡ downloads ∷ []
unfolding download_tree ssh_path_join text_eq c_str has_char
only_the_folder = refl
