-- ===== src/SyncClient/Facts.antt =====
-- platform/sync_client.c: what a step that went through has found.
use nova_desktop.Base.{
  Bool, true, false, Option, none, some, if◌then◌else◌, ◌≡◌, refl, ◌∙◌, arith, ap, subst, sym,
}
use nova_desktop.Text.{Text}
use nova_desktop.SyncWire.{SyncFailure, sy_fail}
use nova_desktop.SyncClient.{
  World, Working, Heads, Act, Client, pure, follow, ◌>>=◌, ◌>>◌, from, check, of_option, or_do,
  fallen, lift, fail, demand, unless_cancelled, poll,
}
use nova_desktop.SyncClient.Quiet.{View, view, IsQuiet}

-- What the decisions on a file read.
pub record Local : Type 0 where
  pub working : Working
  pub heads : Heads
  pub accepted_local : Text

abbrev pub local : View → Local
local v = record { working = v.working; heads = v.heads; accepted_local = v.accepted_local }

-- Where the step goes through from such a state, its result meets F.
pub record Finds (v : Local) {A : Type 0} (m : Act A) (F : A → Type 0) : Type 0 where
  pub finds : (w : World) → local (view w) ≡ v → (a : A) → (m w).0 ≡ some a → F a

-- However the step ends, the working folder meets O.
pub record Leaves (v : Local) (O : Working → Type 0) {A : Type 0} (m : Act A) : Type 0 where
  pub leaves : (w : World) → local (view w) ≡ v → O (m w).1.working

first-Finds :
    {B : Type 0} (P : Type 0) (k : Act B) (x : Option (Unit {0}) × World)
    → ((a : Unit {0}) → x.0 ≡ some a → P)
    → (b : B) → (follow (λ _. k) x).0 ≡ some b
    → P
first-Finds P k (none, w) p b h = cc
first-Finds P k (some a, w) p b h = p a refl

check_true : (b : Bool) {u : Unit {0}} → (if b then some tt else none) ≡ some u → b ≡ true
check_true true h = refl
check_true false h = cc

pub fail-none :
    {A : Type 0} (c : Client) (code : SyncFailure) (w : World) → (fail c {A = A} code w).0 ≡ none
unfolding lift sy_fail
fail-none c code w = refl

fallen-Finds :
    {A : Type 0} (F : A → Type 0) (k : Act A) (x : Option A × World)
    → ((w : World) → (k w).0 ≡ none)
    → ((a : A) → x.0 ≡ some a → F a)
    → (a : A) → (fallen k x).0 ≡ some a
    → F a
fallen-Finds F k (some a, w) fails p b h = p b h
fallen-Finds F k (none, w) fails p b h = cc (fails w)

pub followed-Leaves :
    {B : Type 0} (O : Working → Type 0) (k : Act B) (x : Option (Unit {0}) × World)
    → IsQuiet (λ u. u.working) k
    → O x.1.working
    → O (follow (λ _. k) x).1.working
followed-Leaves O k (none, w) still here = here
followed-Leaves O k (some a, w) still here = subst O (sym (still.quiet w)) here

pub fallen-Leaves :
    {A : Type 0} (O : Working → Type 0) (k : Act A) (x : Option A × World)
    → IsQuiet (λ u. u.working) k
    → O x.1.working
    → O (fallen k x).1.working
fallen-Leaves O k (none, w) still here = subst O (sym (still.quiet w)) here
fallen-Leaves O k (some a, w) still here = here

pub cancelled_none :
    {A : Type 0} (c : Client) (code : SyncFailure) (w : World)
    → ((unless_cancelled c >> fail c {A = A} code) w).0 ≡ none
unfolding ◌>>◌ ◌>>=◌ poll lift sy_fail
cancelled_none c code w = ground arith

module _ {v : Local} where
  follow-Finds :
      {A B : Type 0} (F : A → Type 0) (G : B → Type 0) (f : A → Act B) (x : Option A × World)
      → local (view x.1) ≡ v
      → ((a : A) → x.0 ≡ some a → F a)
      → ((a : A) → F a → Finds v (f a) G)
      → (b : B) → (follow f x).0 ≡ some b
      → G b
  follow-Finds F G f (none, w) e p q b h = cc
  follow-Finds F G f (some a, w) e p q b h = (q a (p a refl)).finds w e b h

  pub bind-Finds :
      {A B : Type 0} {F : A → Type 0} {G : B → Type 0} {m : Act A} {f : A → Act B}
      → IsQuiet local m
      → Finds v m F
      → ((a : A) → F a → Finds v (f a) G)
      → Finds v (m >>= f) G
  unfolding ◌>>=◌
  bind-Finds {F} {G} {m} {f} quiet p q = record {
    finds = λ w e. follow-Finds F G f (m w) (quiet.quiet w ∙ e) (p.finds w e) q;
  }

  pub then-Finds :
      {P : Type 0} {B : Type 0} {G : B → Type 0} {m : Act (Unit {0})} {k : Act B}
      → IsQuiet local m
      → Finds v m (λ _. P)
      → Finds v k G
      → Finds v (m >> k) (λ b. P × G b)
  unfolding ◌>>◌
  then-Finds {P} {G} {k} quiet p q =
      bind-Finds {F = λ _. P} {G = λ b. P × G b} {f = λ _. k} quiet p
        (λ a known. record { finds = λ w e b h. (known, q.finds w e b h) })

  -- What the first of two steps has found.
  pub before-Finds :
      {P : Type 0} {B : Type 0} {m : Act (Unit {0})} (k : Act B)
      → Finds v m (λ _. P)
      → Finds v (m >> k) (λ _. P)
  unfolding ◌>>◌ ◌>>=◌
  before-Finds {P} {m} k p = record { finds = λ w e. first-Finds P k (m w) (p.finds w e) }

  -- What the last of two steps has found.
  pub last-Finds :
      {B : Type 0} {G : B → Type 0} {m : Act (Unit {0})} {k : Act B}
      → IsQuiet local m
      → Finds v k G
      → Finds v (m >> k) G
  unfolding ◌>>◌
  last-Finds {G} {k} quiet q =
      bind-Finds {F = λ _. Unit {0}} {G = G} {f = λ _. k} quiet (record { finds = λ w e a h. tt })
        (λ a known. q)

  -- A step that goes on with what it reads of the state.
  pub from-Finds :
      {A B : Type 0} {F : A → Type 0} (f : World → B) (r : Local → B) (k : B → Act A)
      → ((w : World) → f w ≡ r (local (view w)))
      → Finds v (k (r v)) F
      → Finds v (from f k) F
  unfolding from
  from-Finds {F} f r k reads p = record {
    finds = λ w e a h. p.finds w e a (subst (λ b. (k b w).0 ≡ some a) (reads w ∙ ap r e) h);
  }

  pub of_option-Finds : {A : Type 0} (a : Option A) → Finds v (of_option a) (λ b. a ≡ some b)
  of_option-Finds a = record { finds = λ w e b h. h }

  pub pure-Finds : {A : Type 0} (a : A) → Finds v (pure a) (λ b. b ≡ a)
  pure-Finds a = record { finds = λ w e b h. cc }

  pub check-Finds : (b : Bool) → Finds v (check b) (λ _. b ≡ true)
  check-Finds b = record { finds = λ w e u h. check_true b h }

  pub or_do-Finds :
      {A : Type 0} {F : A → Type 0} {m : Act A} (k : Act A)
      → ((w : World) → (k w).0 ≡ none)
      → Finds v m F
      → Finds v (or_do k m) F
  unfolding or_do
  or_do-Finds {F} {m} k fails p = record {
    finds = λ w e. fallen-Finds F k (m w) fails (p.finds w e);
  }

  pub or_fail-Finds :
      {A : Type 0} {F : A → Type 0} {m : Act A} (c : Client) (code : SyncFailure)
      → Finds v m F
      → Finds v (or_do (fail c code) m) F
  or_fail-Finds c code p = or_do-Finds (fail c code) (fail-none c code) p

  pub demand-Finds :
      (c : Client) (b : Bool) (code : SyncFailure) → Finds v (demand c b code) (λ _. b ≡ true)
  demand-Finds c b code = or_fail-Finds c code (check-Finds b)

  pub if-Finds :
      {A : Type 0} {F : A → Type 0} {m k : Act A} (b : Bool)
      → Finds v m F
      → Finds v k F
      → Finds v (if b then m else k) F
  if-Finds true p q = p
  if-Finds false p q = q

  pub weaken-Finds :
      {A : Type 0} {F G : A → Type 0} {m : Act A}
      → Finds v m F
      → ((a : A) → F a → G a)
      → Finds v m G
  weaken-Finds p q = record { finds = λ w e a h. q a (p.finds w e a h) }

  pub any-Finds : {A : Type 0} {m : Act A} → Finds v m (λ _. Unit {0})
  any-Finds = record { finds = λ w e a h. tt }
