-- ===== src/SyncClient/All.antt =====
-- platform/sync_client.c: the versions of a data set are received one after the other.
use nova_desktop.Base.{List, [], ◌∷◌, Option, none, some, sym, subst}
use nova_desktop.Text.{Text}
use nova_desktop.SyncClient.{World, Client, Act, follow, ◌>>=◌, ◌>>◌}
use nova_desktop.SyncClient.Receive.{receive_one, receive_each, receive_all}
use nova_desktop.SyncClient.Quiet.{view, IsQuiet, quiet}
use nova_desktop.SyncClient.Looks.{rpc-IsQuiet}
use nova_desktop.SyncClient.Facts.{Local, local}
use nova_desktop.SyncClient.Outcome.{Outcome}
use nova_desktop.SyncClient.Keeps.{query-IsQuiet}
use nova_desktop.SyncClient.Safety.{receive_one_lem}
use nova_desktop.SyncClient.Tracks.{IsIndexed}
use nova_desktop.SyncClient.Indexed.{receive_one-IsIndexed}

-- The states that receptions of versions lead to, each from the one that the reception before has left.
pub data IsReached (c : Client) (v : Local) : Local → Type 0 where
  start : IsReached c v v
  received :
      {u t : Local} (manifest : Text)
      → IsReached c v u
      → Outcome c u manifest t.working
      → IsIndexed c manifest u t
      → IsReached c v t

-- The step keeps what holds of the files, the index and the accepted content.
record Carries (P : Local → Type 0) {A : Type 0} (m : Act A) : Type 0 where
  carries : (w : World) → P (local (view w)) → P (local (view (m w).1))

followed-Carries :
    {A B : Type 0} (P : Local → Type 0) (f : A → Act B) (x : Option A × World)
    → P (local (view x.1))
    → ((a : A) → Carries P (f a))
    → P (local (view (follow f x).1))
followed-Carries P f (none, w) here next = here
followed-Carries P f (some a, w) here next = (next a).carries w here

module _ {P : Local → Type 0} where
  bind-Carries :
      {A B : Type 0} {m : Act A} {f : A → Act B}
      → Carries P m
      → ((a : A) → Carries P (f a))
      → Carries P (m >>= f)
  unfolding ◌>>=◌
  bind-Carries {m} {f} p q = record {
    carries = λ w here. followed-Carries P f (m w) (p.carries w here) q;
  }

  then-Carries :
      {B : Type 0} {m : Act (Unit {0})} {k : Act B} → Carries P m → Carries P k → Carries P (m >> k)
  unfolding ◌>>◌
  then-Carries p q = bind-Carries p (λ a. q)

  quiet-Carries : {A : Type 0} {m : Act A} → IsQuiet local m → Carries P m
  quiet-Carries still = record { carries = λ w here. subst P (sym (still.quiet w)) here }

module _ (c : Client) (v : Local) where
  without_hash-IsQuiet : (manifest : Text) → IsQuiet local (receive_one c (some manifest) none)
  unfolding receive_one
  without_hash-IsQuiet manifest = search quiet

  without_manifest-IsQuiet : (mhash : Option Text) → IsQuiet local (receive_one c none mhash)
  unfolding receive_one
  without_manifest-IsQuiet mhash = search quiet

  receive_one-Carries :
      (manifest mhash : Option Text) → Carries (IsReached c v) (receive_one c manifest mhash)
  receive_one-Carries (some manifest) (some mhash) = record {
    carries = λ w here.
        received manifest here (receive_one_lem c manifest mhash w)
          (receive_one-IsIndexed c manifest mhash w);
  }
  receive_one-Carries (some manifest) none = quiet-Carries (without_hash-IsQuiet manifest)
  receive_one-Carries none mhash = quiet-Carries (without_manifest-IsQuiet mhash)

  receive_each-Carries :
      (versions : List (Option Text × Option Text))
      → Carries (IsReached c v) (receive_each c versions)
  unfolding receive_each
  receive_each-Carries [] = quiet-Carries (search quiet)
  receive_each-Carries ((manifest, mhash) ∷ versions) =
      then-Carries (receive_one-Carries manifest mhash) (receive_each-Carries versions)

  receive_all-Carries : Carries (IsReached c v) (receive_all c)
  unfolding receive_all
  receive_all-Carries = bind-Carries (quiet-Carries (search quiet)) (λ dataset.
      bind-Carries (quiet-Carries (search (quiet, query-IsQuiet) depth 12)) (λ rows.
        bind-Carries
          (bind-Carries
            (then-Carries (then-Carries (quiet-Carries (search quiet)) (receive_each-Carries rows))
              (quiet-Carries (search quiet)))
            (λ request. quiet-Carries (search (quiet, rpc-IsQuiet))))
          (λ reply.
            then-Carries (quiet-Carries (search quiet))
              (receive_each-Carries (c.jobs reply.json)))))

-- Whatever the server sends, and however the reception of all versions ends, the files, the index and the accepted content
-- come of those before by receptions of single versions, each from what the reception before has left. Each of these leaves the
-- files as they were, but for the temporary file of its manifest and for what other programs do meanwhile, or with the file
-- of the manifest replaced by the version or removed, where the content that was there is the version that the index has
-- recorded then or the one that the user's choice has accepted. It changes at most the row of the manifest in the index, to the
-- manifest, and the accepted content only to that of the manifest, where the choice is the server's file.
pub receive_all_lem :
    (c : Client) (w : World) → IsReached c (local (view w)) (local (view (receive_all c w).1))
receive_all_lem c w = (receive_all-Carries c (local (view w))).carries w start
