-- ===== src/SyncClient/Places.antt =====
-- platform/sync_client.c: what the working folder is behind a step that went through.
use nova_desktop.Base.{Option, none, some, ◌≡◌, ◌∙◌, sym, subst, ap}
use nova_desktop.Text.{Text}
use nova_desktop.SyncWire.{SyncFailure}
use nova_desktop.SyncClient.{
  World, Client, Act, File, Working, pure, or_do, fail, change, ◌>>=◌, ◌>>◌,
}
use nova_desktop.SyncClient.Quiet.{view, IsQuiet}
use nova_desktop.SyncClient.Facts.{fail-none, Local, local, Finds, any-Finds}
use nova_desktop.SyncClient.Ensures.{kept_true, followed}
use nova_desktop.SyncClient.Temporary.{Writes, written}

abbrev pub file_hash : Client → Option File → Option Text
file_hash c none = none
file_hash c (some file) = c.sha file.content

-- Where the step goes through from such a state, the working folder meets P.
pub record Places (v : Local) (P : Working → Type 0) {A : Type 0} (m : Act A) : Type 0 where
  pub places : (w : World) → local (view w) ≡ v → (a : A) → (m w).0 ≡ some a → P (m w).1.working

module _ {v : Local} {P : Working → Type 0} where
  pub bind-Places :
      {A B : Type 0} {F : A → Type 0} {m : Act A} {f : A → Act B}
      → IsQuiet local m
      → Finds v m F
      → ((a : A) → F a → Places v P (f a))
      → Places v P (m >>= f)
  unfolding ◌>>=◌
  bind-Places {m} {f} still p q = record {
    places = λ w e.
        followed (λ u. P u.working) f (m w)
          (λ a h. (q a (p.finds w e a h)).places (m w).1 (still.quiet w ∙ e));
  }

  pub then-Places :
      {B : Type 0} {m : Act (Unit {0})} {k : Act B}
      → IsQuiet local m
      → Places v P k
      → Places v P (m >> k)
  unfolding ◌>>◌
  then-Places {k} still q = bind-Places {F = λ _. Unit {0}} {f = λ _. k} still any-Finds (λ a _. q)

  pub still-Places :
      {B : Type 0} {m : Act (Unit {0})} (k : Act B)
      → Places v P m
      → IsQuiet (λ u. u.working) k
      → Places v P (m >> k)
  unfolding ◌>>◌ ◌>>=◌
  still-Places {m} k p still = record {
    places = λ w e.
        followed (λ u. P u.working) (λ _. k) (m w)
          (λ a h b g. subst P (sym (still.quiet (m w).1)) (p.places w e a h));
  }

  pub pure-Places : P v.working → Places v P (pure tt)
  pure-Places here = record { places = λ w e a h. subst (λ l. P l.working) (sym e) here }

  pub or_fail-Places :
      {A : Type 0} {m : Act A} (c : Client) (code : SyncFailure)
      → Places v P m
      → Places v P (or_do (fail c code) m)
  unfolding or_do
  or_fail-Places {m} c code p = record {
    places =
        λ w e. kept_true (λ u. P u.working) (fail c code) (m w) (fail-none c code) (p.places w e);
  }

  -- A step behind one that has found something.
  pub found-Places :
      {Q : Type 0} {B : Type 0} {m : Act (Unit {0})} {k : Act B}
      → IsQuiet local m
      → Finds v m (λ _. Q)
      → (Q → Places v P k)
      → Places v P (m >> k)
  unfolding ◌>>◌
  found-Places {Q} {k} still p q =
      bind-Places {F = λ _. Q} {f = λ _. k} still p (λ a known. q known)

  pub change-Places :
      (f : Working → Working)
      → P (f v.working)
      → Places v P (change (λ w. record w { working = f w.working }))
  unfolding change
  change-Places f there = record { places = λ w e a h. subst (λ l. P (f l.working)) (sym e) there }

  -- The working folder changes, and what comes next starts from there.
  pub from_change-Places :
      {B : Type 0} (f : Working → Working) {k : Act B}
      → Places (record v { working = f v.working }) P k
      → Places v P (change (λ w. record w { working = f w.working }) >> k)
  unfolding change ◌>>◌ ◌>>=◌
  from_change-Places f p = record {
    places = λ w e.
        p.places (record w { working = f w.working })
          (ap {A = Local} (λ l. record l { working = f l.working }) e);
  }

  -- Behind a step on the temporary file, whatever it has made of it.
  pub Writes-Places :
      {B : Type 0} {name : Text} {m : Act (Unit {0})} {k : Act B}
      → Writes name m
      → ((files : Working) → Places (record v { working = files }) P k)
      → Places v P (m >> k)
  unfolding ◌>>◌ ◌>>=◌
  Writes-Places {name} {m} {k} p next = record {
    places = λ w e.
        followed (λ u. P u.working) (λ _. k) (m w)
          (λ a h.
            (next (m w).1.working).places (m w).1 (written v w (m w).1 name e (p.writes w)).1);
  }
