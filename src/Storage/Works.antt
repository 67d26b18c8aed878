-- ===== src/Storage/Works.antt =====
-- The writing calls of platform/storage.c succeed while SQLite refuses nothing.
use nova_desktop.Base.{ℕ, ◌≡◌, refl, true, false, List, [], ◌∷◌, Option, none, some, arith, ◌+◌}
use nova_desktop.Text.{Text}
use nova_desktop.Storage.Table.{Row}
use nova_desktop.Storage.{
  Store, M, ◌>>◌, pure, follow, also, and_after, execute, store_begin, store_end, commit, is_some,
  in_transaction, own_transaction, store_set, store_clear, Entry, write_all, write_each, write_loop,
  in_section, numbered,
}

-- A store within a transaction in which nothing has failed.
pub record IsReady (s : Store) : Type 0 where
  open_store : s.is_open ≡ true
  quiet : s.outcomes ≡ []
  intact : s.transaction_failed ≡ false
  old : List Row
  inside : s.snapshot ≡ some old

-- The call succeeds on a ready store and leaves it ready.
abbrev pub Works : M (Unit {0}) → Type 0
Works m = (s : Store) → IsReady s → ((m s).0 ≡ some tt) × IsReady (m s).1

pub pure-Works : Works (pure tt)
pure-Works s r = (refl, r)

own-Works : (change : List Row → List Row) → Works (own_transaction change)
unfolding own_transaction execute
own-Works change s r = (
  ground (arith, r.open_store, r.quiet, r.intact, r.inside),
  record {
    open_store = ground (arith, r.open_store, r.quiet, r.intact, r.inside);
    quiet = ground (arith, r.open_store, r.quiet, r.intact, r.inside);
    intact = ground (arith, r.open_store, r.quiet, r.intact, r.inside);
    old = r.old;
    inside = ground (arith, r.open_store, r.quiet, r.intact, r.inside);
  },
)

module _ (m n : M (Unit {0})) (p : Works m) (q : Works n) where
  pub >>-Works : Works (m >> n)
  >>-Works s r = go (m s) (p s r)
    where
      go :
          (x : Option (Unit {0}) × Store)
          → (x.0 ≡ some tt) × IsReady x.1
          → ((follow (λ _. n) x).0 ≡ some tt) × IsReady (follow (λ _. n) x).1
      go (none, s') h = cc
      go (some u, s') h = q s' h.1

  also-Works : Works (also m n)
  also-Works s r = go (m s) (p s r)
    where
      go :
          (x : Option (Unit {0}) × Store)
          → (x.0 ≡ some tt) × IsReady x.1
          → ((and_after x.0 (n x.1)).0 ≡ some tt) × IsReady (and_after x.0 (n x.1)).1
      go (none, s') h = cc
      go (some u, s') h = q s' h.1

pub store_clear-Works : (scope : Text) → Works (store_clear scope)
unfolding store_clear
store_clear-Works scope = own-Works _

store_set-Works : (scope section key value : Text) → Works (store_set scope section key value)
unfolding store_set
store_set-Works scope section key value = own-Works _

pub write_all-Works : (scope : Text) (es : List Entry) → Works (write_all scope es)
unfolding write_all
write_all-Works scope [] = pure-Works
write_all-Works scope ((section, key, value) ∷ es) =
    >>-Works _ _ (store_set-Works scope section key value) (write_all-Works scope es)

pub write_each-Works :
    (scope : Text) (es : List Entry) (m : M (Unit {0})) → Works m → Works (write_each m scope es)
unfolding write_each
write_each-Works scope [] m h = h
write_each-Works scope ((section, key, value) ∷ es) m h =
    write_each-Works scope es (also m (store_set scope section key value))
      (also-Works m (store_set scope section key value) h (store_set-Works scope section key value))

pub write_loop-Works :
    {A : Type 0} (write : List Entry → M (Unit {0})) (prefix : Text)
    (entries : A → List (Text × Text))
    → ((es : List Entry) → Works (write es))
    → (i : ℕ) (xs : List A) → Works (write_loop write prefix entries i xs)
unfolding write_loop
write_loop-Works write prefix entries h i [] s r = (refl, r)
write_loop-Works write prefix entries h i (x ∷ xs) s r =
    >>-Works _ _ (h (in_section (numbered prefix i) (entries x)))
      (write_loop-Works write prefix entries h (i + 1) xs) s r

begin_works :
    (s : Store)
    → s.is_open ≡ true
    → s.outcomes ≡ []
    → s.snapshot ≡ none
    → ((store_begin s).0 ≡ some tt) × IsReady (store_begin s).1
unfolding store_begin
begin_works s o q e = (
  ground (arith, o, q, e),
  record {
    open_store = ground (arith, o, q, e);
    quiet = ground (arith, o, q, e);
    intact = ground (arith, o, q, e);
    old = s.rows;
    inside = ground (arith, o, q, e);
  },
)

end_works : (s : Store) → IsReady s → (store_end true s).0 ≡ some tt
unfolding store_end commit
end_works s r = ground (arith, r.open_store, r.quiet, r.intact, r.inside)

-- A transaction of working calls succeeds on a store that is open, outside a transaction, and to which
-- SQLite refuses nothing.
pub in_transaction-Works :
    (m : M (Unit {0})) (s : Store)
    → Works m
    → s.is_open ≡ true
    → s.outcomes ≡ []
    → s.snapshot ≡ none
    → (in_transaction m s).0 ≡ some tt
unfolding in_transaction
in_transaction-Works m s h o q e = go (store_begin s) (begin_works s o q e)
  where
    go :
        (x : Option (Unit {0}) × Store)
        → (x.0 ≡ some tt) × IsReady x.1
        → (follow (λ _ t. (let (ok, t') = m t in store_end (is_some ok) t')) x).0 ≡ some tt
    go (none, s') k = cc
    go (some u, s') k = ended (m s') (h s' k.1)
      where
        ended :
            (x : Option (Unit {0}) × Store)
            → (x.0 ≡ some tt) × IsReady x.1
            → (store_end (is_some x.0) x.1).0 ≡ some tt
        ended (none, t) k = cc
        ended (some u, t) k = end_works t k.1
