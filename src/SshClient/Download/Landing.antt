-- ===== src/SshClient/Download/Landing.antt =====
-- platform/ssh_client.c: where the files and directories of a download are made.
use nova_desktop.Base.{ℕ, ◌+◌, ◌≤◌, arith, Bool, Option, length, All}
use nova_desktop.Text.{Text}
use nova_desktop.SshClient.{Bytes, Connection}
use nova_desktop.SshClient.Names.{path_bytes}
use nova_desktop.SshClient.Deletion.{entry_limit, Walk, call, begin}
use nova_desktop.SshClient.Download.{
  Node, node, Entries, no_more, entry, last_name, make_directory, make_file, with_attributes,
  has_valid_name, download_node, download_entries, download_tree,
}
use nova_desktop.SshClient.Download.Parts.{
  Within, here, Lands, Steps, make_directory-Made, make_file-Made, with_attributes-Made,
  visit_within-Made, entry_paths-Within, with_entry-Made,
}

module _ (upper : ℕ → ℕ) (utf8 : Text → ℕ → Option Bytes) (wide : Bytes → Option Text)
    (cancel_set late : Bool) (root : Text) where
  mutual
    unfolding download_node

    download_node-Made :
        (n : Node) (local remote : Text) (depth : ℕ)
        → Within upper root depth local
        → Steps upper utf8 wide cancel_set late root 0 0
            (download_node upper utf8 wide cancel_set late n local remote depth)
    download_node-Made (node stopped stat kind creates opening entries before rounds o) local remote
          depth inner s h =
        let children : Walk → Bool × Walk =
          download_entries upper utf8 wide cancel_set late entries local remote depth in
        let into : Walk → Bool × Walk =
          make_directory upper utf8 wide cancel_set late local creates opening children in
        let file : Walk → Bool × Walk =
          make_file upper utf8 wide cancel_set late local before rounds o in
        visit_within-Made upper utf8 wide cancel_set late root
          (has_valid_name upper utf8 wide cancel_set late (last_name local)) stopped depth
          (path_bytes utf8 remote)
          (λ s'. with_attributes upper utf8 wide cancel_set late kind into file (call stat s'))
          (λ shallow s' h'.
            with_attributes-Made upper utf8 wide cancel_set late root kind into file (call stat s')
              (make_directory-Made upper utf8 wide cancel_set late root local creates opening
                children (depth, shallow, inner)
                (download_entries-Made entries local remote depth inner))
              (make_file-Made upper utf8 wide cancel_set late root local before rounds o
                (depth, shallow, inner))
              h')
          s h

    download_entries-Made :
        (entries : Entries) (local remote : Text) (depth : ℕ)
        → Within upper root depth local
        → Steps upper utf8 wide cancel_set late root 0 0
            (download_entries upper utf8 wide cancel_set late entries local remote depth)
    download_entries-Made no_more local remote depth inner s h = h
    download_entries-Made (entry read bytes child rest) local remote depth inner s h =
        with_entry-Made upper utf8 wide cancel_set late root local remote bytes
          (λ l r. download_node upper utf8 wide cancel_set late child l r (depth + 1)) _
          (call read s)
          (λ name l r e. download_node-Made child l r (depth + 1) (
            entry_paths-Within upper utf8 wide cancel_set late root depth local remote name l r
              inner e))
          (download_entries-Made rest local remote depth inner) h

  -- Whatever names the server sends, a download makes at most 10000 files and directories: the one that was chosen, and others
  -- under it by at most 32 names. None of these has a separator, a drive, a stream or a control character, is the
  -- folder itself or its parent, ends with a dot or a blank, which Windows drops, or has up to its first dot one of
  -- the names of devices that the code knows.
  pub download_tree_lem :
      (n : Node) (remote : Text) (c : Connection)
      → (length (download_tree upper utf8 wide cancel_set late n root remote c).1.paths
          ≤ entry_limit)
        × All
            (Lands upper root)
            (download_tree upper utf8 wide cancel_set late n root remote c).1.paths
  unfolding download_tree
  download_tree_lem n remote c =
      let s : Walk = begin utf8 wide cancel_set late c in
      let (all, some_left, within) =
        download_node-Made n root remote 0 here s (tt, omega arith, omega arith) in
      (omega (arith, within), all)
