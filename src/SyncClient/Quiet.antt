-- ===== src/SyncClient/Quiet.antt =====
-- platform/sync_client.c: the steps that only read the working folder and the index.
use nova_desktop.Base.{Bool, true, false, Option, none, some, if◌then◌else◌, ◌≡◌, refl, ◌∙◌}
use nova_desktop.SyncWire.{M}
use nova_desktop.SyncClient.{
  World, Working, Heads, Versions, Row, Act, pure, follow, ◌>>=◌, ◌>>◌, change, from, lift, check,
  of_option, ask, poll, fallen, or_do,
}
use nova_desktop.Text.{Text}
use nova_desktop.Base.{List, ℕ}

-- What a step that only looks leaves alone.
pub record View : Type 0 where
  pub working : Working
  pub heads : Heads
  pub inbox : List Row
  pub versions : Versions
  pub accepted_local : Text
  pub downloaded : ℕ

abbrev pub view : World → View
view w = record {
  working = w.working;
  heads = w.heads;
  inbox = w.inbox;
  versions = w.versions;
  accepted_local = w.accepted_local;
  downloaded = w.downloaded;
}

-- What `g` reads of the view stays.
pub record IsQuiet {O : Type 0} (g : View → O) {A : Type 0} (m : Act A) : Type 0 where
  pub quiet : (w : World) → g (view (m w).1) ≡ g (view w)

module _ {O : Type 0} {g : View → O} where
  follow-IsQuiet :
      {A B : Type 0} (f : A → Act B) (w : World) (x : Option A × World)
      → ((a : A) → IsQuiet g (f a))
      → g (view x.1) ≡ g (view w)
      → g (view (follow f x).1) ≡ g (view w)
  follow-IsQuiet f w (none, w') next e = e
  follow-IsQuiet f w (some a, w') next e = (next a).quiet w' ∙ e

  pub bind-IsQuiet :
      {A B : Type 0} {m : Act A} {f : A → Act B}
      → IsQuiet g m
      → ((a : A) → IsQuiet g (f a))
      → IsQuiet g (m >>= f)
  unfolding ◌>>=◌
  bind-IsQuiet {m} {f} p q = record { quiet = λ w. follow-IsQuiet f w (m w) q (p.quiet w) }

  pub then-IsQuiet :
      {B : Type 0} {m : Act (Unit {0})} {k : Act B} → IsQuiet g m → IsQuiet g k → IsQuiet g (m >> k)
  unfolding ◌>>◌
  then-IsQuiet p q = bind-IsQuiet p (λ a. q)

  pub lift-IsQuiet : {A : Type 0} (m : M A) → IsQuiet g (lift m)
  unfolding lift
  lift-IsQuiet m = record { quiet = λ w. refl }

  pub check-IsQuiet : (b : Bool) → IsQuiet g (check b)
  check-IsQuiet b = record { quiet = λ w. refl }

  pub pure-IsQuiet : {A : Type 0} (a : A) → IsQuiet g (pure a)
  pure-IsQuiet a = record { quiet = λ w. refl }

  pub of_option-IsQuiet : {A : Type 0} (a : Option A) → IsQuiet g (of_option a)
  of_option-IsQuiet a = record { quiet = λ w. refl }

  pub ask-IsQuiet : IsQuiet g ask
  unfolding ask
  ask-IsQuiet = record { quiet = λ w. refl }

  pub poll-IsQuiet : IsQuiet g poll
  unfolding poll
  poll-IsQuiet = record { quiet = λ w. refl }

  pub from-IsQuiet :
      {A B : Type 0} (f : World → B) (k : B → Act A)
      → ((b : B) → IsQuiet g (k b))
      → IsQuiet g (from f k)
  unfolding from
  from-IsQuiet f k q = record { quiet = λ w. (q (f w)).quiet w }

  pub if-IsQuiet :
      {A : Type 0} (b : Bool) (m k : Act A)
      → IsQuiet g m
      → IsQuiet g k
      → IsQuiet g (if b then m else k)
  if-IsQuiet true m k p q = p
  if-IsQuiet false m k p q = q

  fallen-IsQuiet :
      {A : Type 0} (k : Act A) (w : World) (x : Option A × World)
      → IsQuiet g k
      → g (view x.1) ≡ g (view w)
      → g (view (fallen k x).1) ≡ g (view w)
  fallen-IsQuiet k w (some a, w') q e = e
  fallen-IsQuiet k w (none, w') q e = q.quiet w' ∙ e

  pub or_do-IsQuiet : {A : Type 0} {m k : Act A} → IsQuiet g m → IsQuiet g k → IsQuiet g (or_do k m)
  unfolding or_do
  or_do-IsQuiet {m} {k} p q = record { quiet = λ w. fallen-IsQuiet k w (m w) q (p.quiet w) }

  pub change-IsQuiet :
      (f : World → World) → ((w : World) → g (view (f w)) ≡ g (view w)) → IsQuiet g (change f)
  unfolding change
  change-IsQuiet f same = record { quiet = same }

pub ruleset quiet = (
  then-IsQuiet, bind-IsQuiet, lift-IsQuiet, check-IsQuiet, pure-IsQuiet, of_option-IsQuiet,
  ask-IsQuiet, poll-IsQuiet, from-IsQuiet, if-IsQuiet, or_do-IsQuiet, change-IsQuiet,
)
