-- ===== src/SyncClient/Temporary.antt =====
-- platform/sync_client.c: the steps on the temporary file leave all other files alone.
use nova_desktop.Base.{
  List, ℕ, zero, suc, ◌≤◌, ◌++◌, arith, length, take, drop, length-drop, take-append-drop, [], ◌∷◌,
  false, Option, none, some, ◌≡◌, refl, ◌∙◌, ap,
}
use nova_desktop.Text.{Text, text_eq}
use nova_desktop.SyncWire.{Bytes, packet_max}
use nova_desktop.SyncClient.{
  World, Working, File, Client, Act, follow, fallen, change, set_file, or_do, ◌>>=◌, ◌>>◌,
}
use nova_desktop.SyncClient.Apply.{packets, copy_packets, copy_chunks, fill_file}
use nova_desktop.SyncClient.Quiet.{view, IsQuiet, quiet}
use nova_desktop.SyncClient.Looks.{cache_path-IsQuiet}
use nova_desktop.SyncClient.Facts.{Local, local, Leaves}

abbrev whole : List Bytes → Bytes
whole [] = []
whole (p ∷ ps) = p ++ whole ps

-- The fuel is enough: the packets are all of the file.
whole-packets :
    (fuel : ℕ) (bytes : Bytes) → length bytes ≤ fuel → whole (packets fuel bytes) ≡ bytes
unfolding packets
whole-packets zero [] h = refl
whole-packets zero (b ∷ bs) h = absurd (omega arith)
whole-packets (suc fuel) [] h = refl
whole-packets (suc fuel) (b ∷ bs) h =
    let size = length-drop packet_max (b ∷ bs) in
    ap (λ rest. take packet_max (b ∷ bs) ++ rest)
      (whole-packets fuel (drop packet_max (b ∷ bs)) (omega (arith, size)))
    ∙ take-append-drop packet_max (b ∷ bs)

-- All files but the one with this name are the same.
abbrev pub SameBut : Text → Working → Working → Type 0
SameBut name before after = (q : Text) → text_eq q name ≡ false → after q ≡ before q

-- The step changes at most the file with this name.
abbrev pub Changes : Text → World → World → Type 0
Changes name w u =
    SameBut name w.working u.working × (u.heads ≡ w.heads) × (u.accepted_local ≡ w.accepted_local)

pub record Writes (name : Text) {A : Type 0} (m : Act A) : Type 0 where
  pub writes : (w : World) → Changes name w (m w).1

Changes-trans :
    (name : Text) (w u t : World) → Changes name w u → Changes name u t → Changes name w t
Changes-trans name w u t (files, heads, accepted) (files', heads', accepted') =
    (λ q other. files' q other ∙ files q other, heads' ∙ heads, accepted' ∙ accepted)

module _ {name : Text} where
  follow-Writes :
      {A B : Type 0} (f : A → Act B) (w : World) (x : Option A × World)
      → ((a : A) → Writes name (f a))
      → Changes name w x.1
      → Changes name w (follow f x).1
  follow-Writes f w (none, u) next so_far = so_far
  follow-Writes f w (some a, u) next so_far =
      Changes-trans name w u (f a u).1 so_far ((next a).writes u)

  fallen-Writes :
      {A : Type 0} (k : Act A) (w : World) (x : Option A × World)
      → Writes name k
      → Changes name w x.1
      → Changes name w (fallen k x).1
  fallen-Writes k w (some a, u) q so_far = so_far
  fallen-Writes k w (none, u) q so_far = Changes-trans name w u (k u).1 so_far (q.writes u)

  pub quiet-Writes : {A : Type 0} {m : Act A} → IsQuiet local m → Writes name m
  quiet-Writes still = record {
    writes = λ w. (
      λ q other. ap (λ l. l.working q) (still.quiet w),
      ap (λ l. l.heads) (still.quiet w),
      ap (λ l. l.accepted_local) (still.quiet w),
    );
  }

  bind-Writes :
      {A B : Type 0} {m : Act A} {f : A → Act B}
      → Writes name m
      → ((a : A) → Writes name (f a))
      → Writes name (m >>= f)
  unfolding ◌>>=◌
  bind-Writes {m} {f} p q = record { writes = λ w. follow-Writes f w (m w) q (p.writes w) }

  then-Writes :
      {B : Type 0} {m : Act (Unit {0})} {k : Act B}
      → Writes name m
      → Writes name k
      → Writes name (m >> k)
  unfolding ◌>>◌
  then-Writes p q = bind-Writes p (λ a. q)

  or_do-Writes :
      {A : Type 0} {m k : Act A} → Writes name m → Writes name k → Writes name (or_do k m)
  unfolding or_do
  or_do-Writes {m} {k} p q = record { writes = λ w. fallen-Writes k w (m w) q (p.writes w) }

  set-Writes :
      (file : World → Option File)
      → Writes name (change (λ w. record w { working = set_file name (file w) w.working }))
  unfolding change
  set-Writes file = record { writes = λ w. (λ q other. rw other refl, refl, refl) }

module _ (c : Client) (name : Text) where
  copy_packets-Writes : (packets : List Bytes) → Writes name (copy_packets c name packets)
  unfolding copy_packets
  copy_packets-Writes [] = quiet-Writes (search quiet depth 12)
  copy_packets-Writes (packet ∷ packets) =
      then-Writes
        (then-Writes (quiet-Writes (search quiet depth 12)) (
          bind-Writes (quiet-Writes (search quiet))
            (λ whole. then-Writes (set-Writes _) (quiet-Writes (search quiet)))))
        (copy_packets-Writes packets)

  copy_chunks-Writes : (chunks : List (Option Text × ℕ)) → Writes name (copy_chunks c name chunks)
  unfolding copy_chunks
  copy_chunks-Writes [] = quiet-Writes (search quiet)
  copy_chunks-Writes ((hash, size) ∷ chunks) =
      then-Writes
        (then-Writes
          (or_do-Writes
            (bind-Writes (quiet-Writes (cache_path-IsQuiet c hash))
              (λ target. bind-Writes (quiet-Writes (search quiet depth 14)) copy_packets-Writes))
            (quiet-Writes (search quiet depth 12)))
          (quiet-Writes (search quiet depth 12)))
        (copy_chunks-Writes chunks)

  pub fill_file-Writes : (manifest : Text) → Writes name (fill_file c name manifest)
  unfolding fill_file
  fill_file-Writes manifest =
      then-Writes
        (then-Writes (then-Writes (set-Writes _) (quiet-Writes (search quiet depth 12)))
          (bind-Writes (quiet-Writes (search quiet depth 14)) copy_chunks-Writes))
        (quiet-Writes (search quiet depth 12))

pub written :
    (v : Local) (w u : World) (name : Text)
    → local (view w) ≡ v
    → Changes name w u
    → SameBut name v.working u.working × (local (view u) ≡ record v { working = u.working })
written v w u name e (files, heads, accepted) = (
  λ q other. files q other ∙ ap (λ l. l.working q) e,
  λ i. record {
    working = u.working;
    heads = (heads ∙ ap (λ l. l.heads) e) i;
    accepted_local = (accepted ∙ ap (λ l. l.accepted_local) e) i;
  },
)

module _ {v : Local} {O : Working → Type 0} where
  followed_writes :
      {B : Type 0} (name : Text) (k : Act B) (w : World) (x : Option (Unit {0}) × World)
      → ((files : Working) → SameBut name v.working files → O files)
      → ((files : Working)
          → SameBut name v.working files
          → Leaves (record v { working = files }) O k)
      → local (view w) ≡ v
      → Changes name w x.1
      → O (follow (λ _. k) x).1.working
  followed_writes name k w (none, u) here next e changed =
      here u.working (written v w u name e changed).0
  followed_writes name k w (some a, u) here next e changed =
      (next u.working (written v w u name e changed).0).leaves u (written v w u name e changed).1

  -- Behind a step on the temporary file, whatever it has made of it.
  pub Writes-Leaves :
      {B : Type 0} {name : Text} {m : Act (Unit {0})} {k : Act B}
      → Writes name m
      → ((files : Working) → SameBut name v.working files → O files)
      → ((files : Working)
          → SameBut name v.working files
          → Leaves (record v { working = files }) O k)
      → Leaves v O (m >> k)
  unfolding ◌>>◌ ◌>>=◌
  Writes-Leaves {name} {m} {k} p here next = record {
    leaves = λ w e. followed_writes name k w (m w) here next e (p.writes w);
  }
