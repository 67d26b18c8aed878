-- ===== src/Lib.antt =====
-- NOVA Desktop, a Windows desktop program in C: workspaces of applications that are started together,
-- a file manager with command presets and batch tasks, SSH servers with a terminal, and the
-- synchronisation of folders with a server. The window code (src/ui and src/main.c) owns the state and
-- calls the core (src/core), which holds the rules and touches no window, file or network; the platform
-- code (src/platform) runs commands, stores settings and talks to servers, and asks the core whether data
-- is acceptable before it uses them.
--
-- Files and the code they are about:
--   Base, Base/*          what C gives the program: int as ℤ, arrays as lists of all their cells, memmove
--                         and writes to a cell, comparisons as Booleans, a loop that accepts a list
--                         whose elements do not clash (Base/Checked)
--   Text, Decimal         wide strings, the functions of the C library on them, and decimal numbers
--   Workspace, Workspace/*      src/core/workspace.c: `workspace_move` under its own name; `locate` is its
--                         guards, `reorder` and `transfer` its two branches
--   LaunchQueue, LaunchQueue/*  src/core/launch_queue.c: launch_queue_begin, _step and _cancel are `begin`,
--                         `step` and `cancel`
--   BatchTask, BatchTask/*      src/core/batch_task.c: the steps of a task and its target path under the
--                         source's names; BatchTask/Queue the queue of tasks
--   FileCommand, FileCommand/*  src/core/file_command.c: the presets, by the source's names
--   ServerProfile, ServerProfile/*  src/core/server_profile.c: saved servers (Servers), locations
--                         (Location), remote paths (Paths) and the line that carries a directory (Payload)
--   SyncModel, SyncModel/*      src/core/sync_model.c: folder state (Folder), identifiers (Identifier),
--                         relative paths (Relative), saved pairs (Pairs) and chunks (Chunks, with the loop
--                         of src/platform/sync_client.c that fills them)
--   SyncJson, SyncJson/*  src/platform/sync_json.c: the growing buffer (Buffers), the escaping of strings
--                         (Strings) and the room that is enough (Room)
--   BatchRunner, BatchRunner/*  src/platform/batch_runner.c: the run of a task over its directories (Tasks), the
--                         tail of a command's output and the line made of it (Output), and the folders in
--                         which git is looked for (Search)
--   HoldDrag, HoldDrag/*  src/ui/hold_drag.c: dragging an application as a state machine over window messages
--   Storage, Storage/*    src/platform/storage.c: the settings table (Table), statements and transactions, and what
--                         is kept in the table: command presets (Commands), SSH servers (Servers), batch
--                         tasks (BatchTasks, with the single task of older versions in Legacy), and the
--                         check of the preferences (Preferences). Writes and Works say what writing calls do
--                         to the rows and when they succeed, Entries and Reads what is found afterwards
--   SyncStore, SyncStore/*  src/platform/sync_settings.c: loading and saving the synchronisation settings, and
--                         their import from a file (Import)
--   SyncWire, SyncWire/*  src/platform/sync_wire.c: one call to the synchronisation server, with the frames on
--                         the wire (Frames, RoundTrip) and the failure that is left (Failures)
--   SyncClient, SyncClient/*  src/platform/sync_client.c: the reception of versions from the server (Receive) with what
--                         a manifest says of a file (Jobs), the index (Tables), the chunks (Download) and the file
--                         that takes its place (Apply), and the comparison of a file with the versions (Compare).
--                         Temporary is about the file that a version is written into first, and Tracks about the rows
--                         of the index that a reception changes.
--                         Quiet, Looks and Keeps say which steps leave the folder and the index alone, Facts and
--                         Checks what a step has found; Leaves, Outcome, Moves, Safety and All what can become of
--                         the files, Places and Placed what a success leaves there, and Ensures, Index, Done and
--                         Recorded what it leaves in the index
--   SyncFiles, SyncFiles/*  src/platform/sync_files.c: the directories of a path (Directories), the hash of a file
--                         (Hashes), and the cache and the statements on the index (Cache)
--   Credentials, Credentials/*  src/platform/ssh_credentials.c: the secrets of the servers, what a login gets of them
--                         (Loaded), that it is what was saved (Saved) and how they are put back (Restored)
--   SshClient, SshClient/*  src/platform/ssh_client.c: the state of a connection and its waits, the kinds of key
--                         files (Keys), connect_impl with each of its parts as one function (Connect), what it
--                         reveals (Verified) and the code it ends with (Codes), the deletion of a tree (Deletion),
--                         the transfer of a file (Transfer) and the download of a tree (Download), the output of
--                         a command that is kept (Output), and the names of remote and local files (Names)
--   ConfigJson, ConfigJson/*  src/platform/config_json.c: the documents of the configuration, which
--                         config_json_commit prepares (Publications) and writes or restores (Commit), and the
--                         loading of them into the database (Loading, with what it brings in in Loads)
--   Log, Log/*            src/platform/app_log.c: the lines of the log (Lines) and its two files (Files)
-- The children of a module hold its proofs; the modules named Examples apply the theorems to concrete data.
--
-- The parts meet at these places. `batch_task_queue_add` and the runner test a task by `batch_task_is_valid`. The
-- launch queue copies the applications of a workspace. A saved server's identifier and start directory are
-- what its location is made of. The store asks file_command_list_is_valid, ssh_servers_valid,
-- batch_task_is_valid and sync_settings_valid before it saves and after it has loaded. The
-- settings of the synchronisation are checked as a whole before a pair is stored. What a commit publishes a load reads. The credentials are those of
-- the saved servers, whose tests of an endpoint they repeat. The cache of chunks reports its failures to the
-- run of SyncWire, and so do the statements on the index. The reception of a version makes its calls to the
-- server by sy_rpc of SyncWire, tests its path by sync_relative_path and joins it by sy_join.
--
-- The store. SQLite is not modelled: a statement is a function on the rows of the table, as its SQL says,
-- and whether SQLite carries it out is read from a list of outcomes in the state, so that theorems
-- hold for every way in which calls fail. After the list all calls succeed. One outcome stands for the
-- preparation and the step of a statement; a refused binding counts as a refused preparation. A COMMIT has one
-- outcome, which outside the opening of the store is that of config_json_commit. The documents that this
-- publishes are the folder of ConfigJson, where the JSON functions of SQLite and the calls on files are
-- parameters. Texts are well-formed UTF-16, which SQLite keeps as it is. The reading of a text for batch tasks
-- and command presets is one function, `read_text`, under both names of the source.
--
-- How the code is modelled. A function that changes a structure takes it and returns it with its result. An
-- array is the list of all its cells, so that what memmove and a write do to the cells behind the count is
-- visible; a string of which only the characters matter is the text before the terminator. An int that the
-- code tests for a range is an integer, a count that only grows a natural. An int64 that is printed is
-- assumed to be at most LLONG_MAX. Unsigned arithmetic that wraps has its modulus written out. Null
-- pointers, which the functions refuse first, are outside the model. A read beyond an array, undefined in C, is
-- written as a refusal. The callbacks, the comparisons lstrcmpiW and lstrcmpW, the case mapping towlower and what the
-- operating system and realloc answer are parameters, of which nothing is assumed but what is documented of
-- realloc (`Reallocs` in SyncJson/Buffers), of the digests of OpenSSL (`Digests` in SyncFiles/Hashes), of a credential store (`ReadsWritten` and `ForgetsRemoved` in
-- Credentials/Restored), and, for ConfigJson/Commit and SshClient/Transfer, that a file of the program's own can
-- be put back or removed again.
--
-- The reception of a version has its own state: the files of the working folder and of the cache as contents
-- by path, the tables of the index, and the run of SyncWire. Whether a call of Windows or SQLite goes through
-- is read from a list, and so is the cancel event, which stays set. What other programs do to the folder while a
-- version is written beside its place is a parameter; the last look at a file and its replacement are one step,
-- as no call of Windows does both. A version is first written into a temporary file of the folder, which stays where a
-- step behind its opening fails; other programs are taken to leave that file alone. Directories are outside, and
-- two paths are one file where their texts are the same. What the callback moves to the recycle bin is gone from the folder.
--
-- Loops are recursion on the list they walk, and the walks over a tree on the server are recursion on the
-- tree of the server's answers, which may differ from one call to the next. The printing of a decimal
-- number recurses on fuel, as many rounds as the number plus one, and each round divides the number by ten. The
-- download of a chunk has fuel for one round of each byte that is missing, and each round brings one at least.
--
-- Not modelled: the windows, message loops and drawing of src/ui and src/main.c, but for the drag of
-- src/ui/hold_drag.c and the end of a task in src/ui/batch_tasks.c, because they are input and output; the
-- calls of Windows, OpenSSL, libssh2, libvterm and SQLite, which are other programs' code; the Python
-- server under sync/; of the storage the tables of workspaces and items, the opening of the store as a
-- whole, the SQL of valid_json and snapshot in config_json.c, error texts; of ssh_client.c the lists of
-- directories, the upload of a tree and the terminal; the opening of the index of sync_files.c; of
-- sync_client.c the scan of the folder, the publication of versions, the choice of a version for a conflict and the
-- frame of a run; the set-up of the server in sync_server.c. In the
-- runner, the starting and watching of a process and the decoding of its output are left out: what a
-- command leaves is a parameter, and the threads of the parallel mode are their results, since each writes
-- only its own entry and all are waited for.
pub mod Base
pub mod Text
pub mod Decimal
pub mod Workspace
pub mod LaunchQueue
pub mod BatchTask
pub mod FileCommand
pub mod ServerProfile
pub mod SyncModel
pub mod SyncJson
pub mod BatchRunner
pub mod HoldDrag
pub mod Storage
pub mod SyncStore
pub mod SyncWire
pub mod Log
pub mod Credentials
pub mod SyncFiles
pub mod SshClient
pub mod ConfigJson
pub mod SyncClient
