-- ===== src/SyncClient/Keeps.antt =====
-- platform/sync_client.c: the steps on the index keep the working folder.
use nova_desktop.Base.{
  ℕ, Bool, true, false, not, ◌||◌, List, [], ◌∷◌, Option, none, some, ◌≡◌, refl, ◌∙◌, ap, ℤ, arith,
}
use nova_desktop.Text.{Text}
use nova_desktop.SyncClient.{World, Client, Act, Head, query, fallen, statement, pure, ◌>>◌}
use nova_desktop.SyncClient.Jobs.{Job, Seen}
use nova_desktop.SyncClient.Tables.{
  all_cached, acknowledge, nothing, saved_head, head_save, transaction, rolled_back, save_applied,
  finish,
}
use nova_desktop.SyncClient.Receive.{fetch_chunks, checked_job}
use nova_desktop.SyncClient.Quiet.{View, IsQuiet, quiet, then-IsQuiet}
use nova_desktop.SyncClient.Looks.{rpc-IsQuiet, cached-IsQuiet, probe-IsQuiet, download_all-IsQuiet}
use nova_desktop.SyncClient.Facts.{local}

read-IsQuiet :
    {O : Type 0} {g : View → O} {A : Type 0} (f : World → Option A)
    → IsQuiet g {A = Option A} (λ w. (some (f w), w))
read-IsQuiet f = record { quiet = λ w. refl }

pub query-IsQuiet :
    {O : Type 0} {g : View → O} {A : Type 0} (c : Client) (f : World → Option A)
    → IsQuiet g (query c f)
query-IsQuiet c f = search (quiet, read-IsQuiet) depth 12

pub wanted_deletes :
    (deletes sync_deletes keeps in_place : Bool)
    → deletes ≡ true
    → in_place || keeps ≡ false
    → not deletes || sync_deletes || keeps ≡ true
    → sync_deletes ≡ true
wanted_deletes deletes sync_deletes keeps in_place d o h = ground arith

pub not_in_place : (in_place keeps : Bool) → in_place || keeps ≡ false → in_place ≡ false
not_in_place in_place keeps h = ground arith

rolled_back-working :
    (w : World) (x : Option (Unit {0}) × World) → (rolled_back w x).1.working ≡ x.1.working
rolled_back-working w (none, w') = refl
rolled_back-working w (some a, w') = refl

module _ (c : Client) where
  all_cached-IsQuiet :
      {O : Type 0} {g : View → O} (chunks : List (Option Text × ℕ))
      → IsQuiet g (all_cached c chunks)
  all_cached-IsQuiet [] = search quiet
  all_cached-IsQuiet ((hash, size) ∷ chunks) =
      then-IsQuiet (cached-IsQuiet c hash size) (all_cached-IsQuiet chunks)

  pub acknowledge-IsQuiet : (manifest mhash : Text) → IsQuiet local (acknowledge c manifest mhash)
  unfolding acknowledge
  acknowledge-IsQuiet manifest mhash = search (quiet, all_cached-IsQuiet, rpc-IsQuiet) depth 16

  pub fetch_chunks-IsQuiet :
      (manifest mhash : Text) (job : Job) → IsQuiet local (fetch_chunks c manifest mhash job)
  unfolding fetch_chunks
  fetch_chunks-IsQuiet manifest mhash job = search (quiet, download_all-IsQuiet) depth 16

  saved_head-IsQuiet :
      (manifest : Text) (dataset key relative id : Option Text) (head : Head)
      → IsQuiet (λ u. u.working) (saved_head c manifest dataset key relative id head)
  saved_head-IsQuiet manifest (some dataset) (some key) (some relative) (some id) head =
      search quiet depth 16
  saved_head-IsQuiet manifest none key relative id head = search quiet
  saved_head-IsQuiet manifest (some dataset) none relative id head = search quiet
  saved_head-IsQuiet manifest (some dataset) (some key) none id head = search quiet
  saved_head-IsQuiet manifest (some dataset) (some key) (some relative) none head = search quiet

  transaction-IsQuiet :
      (act : Act (Unit {0}))
      → IsQuiet (λ u. u.working) act
      → IsQuiet (λ u. u.working) (transaction c act)
  transaction-IsQuiet act still =
      let whole : IsQuiet (λ u. u.working) (statement c nothing >> act >> statement c nothing) =
        then-IsQuiet (then-IsQuiet (search quiet depth 12) still) (search quiet depth 12) in
      record {
        quiet = λ w.
            rolled_back-working w ((statement c nothing >> act >> statement c nothing) w)
            ∙ whole.quiet w;
      }

  head_save-IsQuiet :
      (manifest : Text) (size : ℕ) (mtime : ℤ)
      → IsQuiet (λ u. u.working) (head_save c manifest size mtime)
  unfolding head_save
  head_save-IsQuiet manifest size mtime = search (quiet, saved_head-IsQuiet)

  save_applied-IsQuiet :
      (manifest : Text) (job : Job) (seen : Option Seen)
      → IsQuiet (λ u. u.working) (save_applied c manifest job seen)
  unfolding save_applied
  save_applied-IsQuiet manifest job seen =
      transaction-IsQuiet _ (then-IsQuiet (head_save-IsQuiet manifest _ _) (search quiet depth 12))

  acknowledge-still :
      (manifest mhash : Text) → IsQuiet (λ u. u.working) (acknowledge c manifest mhash)
  acknowledge-still manifest mhash = record {
    quiet = λ w. ap (λ l. l.working) ((acknowledge-IsQuiet manifest mhash).quiet w);
  }

  pub finish-IsQuiet :
      (place manifest mhash : Text) (job : Job) (resolving : Bool)
      → IsQuiet (λ u. u.working) (finish c place manifest mhash job resolving)
  unfolding finish
  finish-IsQuiet place manifest mhash job resolving =
      search (quiet, probe-IsQuiet, save_applied-IsQuiet, acknowledge-still) depth 20

pub checked_job-IsQuiet :
    {O : Type 0} {g : View → O} (c : Client) (manifest mhash : Text)
    → IsQuiet g (checked_job c manifest mhash)
checked_job-IsQuiet c manifest mhash = search quiet depth 14

pub some_eq : {A : Type 0} (a b : A) → some a ≡ some b → b ≡ a
some_eq a b h = cc

pub fallen_null :
    {A : Type 0} (x : Option (Option A) × World) (a : Option A)
    → x.0 ≡ none
    → (fallen (pure none) x).0 ≡ some a
    → a ≡ none
fallen_null (none, w) a fails h = cc
fallen_null (some b, w) a fails h = cc
