-- ===== src/SyncClient/Ensures.antt =====
-- platform/sync_client.c: what the state is behind a step that went through.
use nova_desktop.Base.{Option, none, some, ◌≡◌, refl, sym, subst}
use nova_desktop.SyncClient.{
  World, Client, Act, of_option, follow, statement, change, or_do, fallen, fail, ◌>>=◌, ◌>>◌,
}
use nova_desktop.SyncWire.{SyncFailure}
use nova_desktop.SyncClient.Facts.{fail-none}
use nova_desktop.SyncClient.Quiet.{View, view, IsQuiet}

-- Where the step goes through, the state behind it meets P.
pub record Ensures (P : World → Type 0) {A : Type 0} (m : Act A) : Type 0 where
  pub ensures : (w : World) (a : A) → (m w).0 ≡ some a → P (m w).1

pub followed :
    {A B : Type 0} (P : World → Type 0) (f : A → Act B) (x : Option A × World)
    → ((a : A) → x.0 ≡ some a → (b : B) → (f a x.1).0 ≡ some b → P (f a x.1).1)
    → (b : B) → (follow f x).0 ≡ some b
    → P (follow f x).1
followed P f (none, w) p b h = cc
followed P f (some a, w) p b h = p a refl b h

pub kept_true :
    {A : Type 0} (P : World → Type 0) (k : Act A) (x : Option A × World)
    → ((w : World) → (k w).0 ≡ none)
    → ((a : A) → x.0 ≡ some a → P x.1)
    → (a : A) → (fallen k x).0 ≡ some a
    → P (fallen k x).1
kept_true P k (some b, w) fails p a h = p a h
kept_true P k (none, w) fails p a h = cc (fails w)

first_known :
    {A : Type 0} (x : Option (Unit {0}) × World) (a : Option A) (b : A)
    → (follow (λ _. of_option a) x).0 ≡ some b
    → a ≡ some b
first_known (none, w) a b h = cc
first_known (some u, w) a b h = h

module _ {P : World → Type 0} where
  -- The last step decides.
  pub last-Ensures :
      {A B : Type 0} {f : A → Act B} (m : Act A) → ((a : A) → Ensures P (f a)) → Ensures P (m >>= f)
  unfolding ◌>>=◌
  last-Ensures {f} m p = record { ensures = λ w. followed P f (m w) (λ a h. (p a).ensures (m w).1) }

  pub end-Ensures : {B : Type 0} {k : Act B} (m : Act (Unit {0})) → Ensures P k → Ensures P (m >> k)
  unfolding ◌>>◌
  end-Ensures m p = last-Ensures m (λ a. p)

  -- The step behind keeps what was ensured.
  carry-Ensures :
      {B : Type 0} {m : Act (Unit {0})} (k : Act B)
      → Ensures P m
      → ((w : World) → P w → P (k w).1)
      → Ensures P (m >> k)
  unfolding ◌>>◌ ◌>>=◌
  carry-Ensures {m} k p keeps = record {
    ensures = λ w. followed P (λ _. k) (m w) (λ a h b e. keeps (m w).1 (p.ensures w a h));
  }

  pub change-Ensures : (f : World → World) → ((w : World) → P (f w)) → Ensures P (change f)
  unfolding change
  change-Ensures f p = record { ensures = λ w a h. p w }

  pub known-Ensures :
      {A B : Type 0} {f : A → Act B} (m : Act A) (F : A → Type 0)
      → ((w : World) (a : A) → (m w).0 ≡ some a → F a)
      → ((a : A) → F a → Ensures P (f a))
      → Ensures P (m >>= f)
  unfolding ◌>>=◌
  known-Ensures {f} m F known p = record {
    ensures = λ w. followed P f (m w) (λ a h. (p a (known w a h)).ensures (m w).1);
  }

  pub or_fail-Ensures :
      {A : Type 0} {m : Act A} (c : Client) (code : SyncFailure)
      → Ensures P m
      → Ensures P (or_do (fail c code) m)
  unfolding or_do
  or_fail-Ensures {m} c code p = record {
    ensures = λ w. kept_true P (fail c code) (m w) (fail-none c code) (p.ensures w);
  }

  pub statement-Ensures :
      (c : Client) (f : World → World) → ((w : World) → P (f w)) → Ensures P (statement c f)
  statement-Ensures c f p = end-Ensures _ (change-Ensures f p)

module _ {O : Type 0} {g : View → O} (Q : O → Type 0) where
  pub quiet-Ensures :
      {B : Type 0} {m : Act (Unit {0})} {k : Act B}
      → Ensures (λ w. Q (g (view w))) m
      → IsQuiet g k
      → Ensures (λ w. Q (g (view w))) (m >> k)
  quiet-Ensures {k} p still = carry-Ensures k p (λ w q. subst Q (sym (still.quiet w)) q)

pub after_of_option :
    {A : Type 0} (m : Act (Unit {0})) (a : Option A) (w : World) (b : A)
    → ((m >> of_option a) w).0 ≡ some b
    → a ≡ some b
unfolding ◌>>◌ ◌>>=◌
after_of_option m a w b = first_known (m w) a b
