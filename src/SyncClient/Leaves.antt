-- ===== src/SyncClient/Leaves.antt =====
-- platform/sync_client.c: what a step does to the working folder, however it ends.
use nova_desktop.Base.{
  Bool, true, false, Option, none, some, if◌then◌else◌, ◌≡◌, refl, ◌∙◌, ap, subst, sym,
}
use nova_desktop.SyncClient.{World, Working, Act, follow, ◌>>=◌, ◌>>◌, change, or_do}
use nova_desktop.SyncClient.Quiet.{view, IsQuiet}
use nova_desktop.SyncClient.Facts.{Local, local, Finds, Leaves, followed-Leaves, fallen-Leaves}

module _ {v : Local} where
  module _ {O : Working → Type 0} where
    pub quiet-Leaves : {A : Type 0} {m : Act A} → O v.working → IsQuiet local m → Leaves v O m
    quiet-Leaves {m} here quiet = record {
      leaves = λ w e. subst O (sym (ap (λ l. l.working) (quiet.quiet w ∙ e))) here;
    }

    follow-Leaves :
        {A B : Type 0} (F : A → Type 0) (f : A → Act B) (x : Option A × World)
        → O v.working
        → local (view x.1) ≡ v
        → ((a : A) → x.0 ≡ some a → F a)
        → ((a : A) → F a → Leaves v O (f a))
        → O (follow f x).1.working
    follow-Leaves F f (none, w) here e p q = subst O (sym (ap (λ l. l.working) e)) here
    follow-Leaves F f (some a, w) here e p q = (q a (p a refl)).leaves w e

    pub bind-Leaves :
        {A B : Type 0} {F : A → Type 0} {m : Act A} {f : A → Act B}
        → O v.working
        → IsQuiet local m
        → Finds v m F
        → ((a : A) → F a → Leaves v O (f a))
        → Leaves v O (m >>= f)
    unfolding ◌>>=◌
    bind-Leaves {F} {m} {f} here quiet p q = record {
      leaves = λ w e. follow-Leaves F f (m w) here (quiet.quiet w ∙ e) (p.finds w e) q;
    }

    pub then-Leaves :
        {P : Type 0} {B : Type 0} {m : Act (Unit {0})} {k : Act B}
        → O v.working
        → IsQuiet local m
        → Finds v m (λ _. P)
        → (P → Leaves v O k)
        → Leaves v O (m >> k)
    unfolding ◌>>◌
    then-Leaves {P} {k} here quiet p q =
        bind-Leaves {F = λ _. P} {f = λ _. k} here quiet p (λ a known. q known)

    -- A step behind that keeps the working folder.
    pub still-Leaves :
        {B : Type 0} {m : Act (Unit {0})} {k : Act B}
        → Leaves v O m
        → IsQuiet (λ u. u.working) k
        → Leaves v O (m >> k)
    unfolding ◌>>◌ ◌>>=◌
    still-Leaves {m} {k} p still = record {
      leaves = λ w e. followed-Leaves O k (m w) still (p.leaves w e);
    }

    pub or_do-Leaves :
        {A : Type 0} {m k : Act A}
        → Leaves v O m
        → IsQuiet (λ u. u.working) k
        → Leaves v O (or_do k m)
    unfolding or_do
    or_do-Leaves {m} {k} p still = record {
      leaves = λ w e. fallen-Leaves O k (m w) still (p.leaves w e);
    }

    -- The working folder changes, and what comes next starts from there.
    pub change-Leaves :
        (f : Working → Working)
        → O (f v.working)
        → Leaves v O (change (λ w. record w { working = f w.working }))
    unfolding change
    change-Leaves f there = record { leaves = λ w e. subst (λ l. O (f l.working)) (sym e) there }

    pub from_change-Leaves :
        {B : Type 0} (f : Working → Working) (k : Act B)
        → Leaves (record v { working = f v.working }) O k
        → Leaves v O (change (λ w. record w { working = f w.working }) >> k)
    unfolding change ◌>>◌ ◌>>=◌
    from_change-Leaves f k p = record {
      leaves = λ w e.
          p.leaves (record w { working = f w.working })
            (ap {A = Local} (λ l. record l { working = f l.working }) e);
    }

    pub if-Leaves :
        {A : Type 0} {m k : Act A} (b : Bool)
        → (b ≡ true → Leaves v O m)
        → Leaves v O k
        → Leaves v O (if b then m else k)
    if-Leaves true p q = p refl
    if-Leaves false p q = q
