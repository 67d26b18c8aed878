-- ===== src/Storage/Writes.antt =====
-- What the calls of platform/storage.c that change the settings do to the rows, within a transaction and
-- as a transaction of their own.
use nova_desktop.Base.{◌≡◌, refl, ◌∙◌, ap, Bool, true, List, [], ◌∷◌, Option, none, some, arith}
use nova_desktop.Text.{Text}
use nova_desktop.Storage.Table.{Key, Row, upsert, delete_scope}
use nova_desktop.Storage.{
  Store, M, ◌>>◌, pure, also, execute, store_begin, store_end, rollback, commit, is_some,
  in_transaction, own_transaction, store_set, store_clear, Entry, write_all, write_each,
}

-- Within a transaction the call leaves the snapshot alone, and where it succeeds it has changed the rows
-- by `change`.
abbrev pub Writes : M (Unit {0}) → (List Row → List Row) → Type 0
Writes m change =
    (s : Store) (old : List Row)
    → s.snapshot ≡ some old
    → ((m s).1.snapshot ≡ some old) × ((m s).0 ≡ some tt → (m s).1.rows ≡ change s.rows)

pub pure-Writes : Writes (pure tt) (λ rows. rows)
pure-Writes s old e = (e, λ t. refl)

pub own-Writes : (change : List Row → List Row) → Writes (own_transaction change) change
unfolding own_transaction execute
own-Writes change s old e = ground (arith, e)

module _ (m n : M (Unit {0})) (f g : List Row → List Row) (p : Writes m f) (q : Writes n g) where
  pub >>-Writes : Writes (m >> n) (λ rows. g (f rows))
  >>-Writes s old e = go (m s) refl (p s old e)
    where
      go :
          (r : Option (Unit {0}) × Store)
          → m s ≡ r
          → ((r.1.snapshot ≡ some old) × (r.0 ≡ some tt → r.1.rows ≡ f s.rows))
          → (((m >> n) s).1.snapshot ≡ some old)
            × (((m >> n) s).0 ≡ some tt → ((m >> n) s).1.rows ≡ g (f s.rows))
      go (none, s') made h = rw made (h.0, λ t. cc)
      go (some u, s') made h = rw made ((q s' old h.0).0, λ t. (q s' old h.0).1 t ∙ ap g (h.1 refl))

  pub also-Writes : Writes (also m n) (λ rows. g (f rows))
  also-Writes s old e = go (m s) refl (p s old e)
    where
      go :
          (r : Option (Unit {0}) × Store)
          → m s ≡ r
          → ((r.1.snapshot ≡ some old) × (r.0 ≡ some tt → r.1.rows ≡ f s.rows))
          → ((also m n s).1.snapshot ≡ some old)
            × ((also m n s).0 ≡ some tt → (also m n s).1.rows ≡ g (f s.rows))
      go (none, s') made h = rw made ((q s' old h.0).0, λ t. cc)
      go (some u, s') made h = rw made ((q s' old h.0).0, λ t. (q s' old h.0).1 t ∙ ap g (h.1 refl))

abbrev pub entry_key : Text → Entry → Key
entry_key scope (section, name, value) = record { scope = scope; section = section; name = name }

-- The rows after the entries are written one after the other.
unfoldable pub put_all : Text → List Entry → List Row → List Row
unfolding upsert
put_all scope [] rows = rows
put_all scope (e ∷ es) rows = put_all scope es (upsert (entry_key scope e) e.2 rows)

pub store_set-Writes :
    (scope section key value : Text)
    → Writes
        (store_set scope section key value)
        (upsert (entry_key scope (section, key, value)) value)
unfolding store_set
store_set-Writes scope section key value = own-Writes _

pub store_clear-Writes : (scope : Text) → Writes (store_clear scope) (delete_scope scope)
unfolding store_clear
store_clear-Writes scope = own-Writes _

pub write_all-Writes :
    (scope : Text) (es : List Entry) → Writes (write_all scope es) (put_all scope es)
unfolding write_all put_all
write_all-Writes scope [] = pure-Writes
write_all-Writes scope ((section, key, value) ∷ es) =
    >>-Writes _ _ _ _ (store_set-Writes scope section key value) (write_all-Writes scope es)

pub write_each-Writes :
    (scope : Text) (es : List Entry) (m : M (Unit {0})) (f : List Row → List Row)
    → Writes m f
    → Writes (write_each m scope es) (λ rows. put_all scope es (f rows))
unfolding write_each put_all
write_each-Writes scope [] m f h = h
write_each-Writes scope ((section, key, value) ∷ es) m f h =
    write_each-Writes scope es (also m (store_set scope section key value))
      (λ rows. upsert (entry_key scope (section, key, value)) value (f rows))
      (also-Writes m (store_set scope section key value) f _ h
        (store_set-Writes scope section key value))

-- What is left of a transaction that was ended: the rows of the snapshot or, where it went through, the
-- rows written.
end_lem :
    (success : Bool) (s : Store) (old : List Row)
    → s.snapshot ≡ some old
    → let (result, s') = store_end success s in
      (result ≡ some tt → (success ≡ true) × (s'.rows ≡ s.rows) × (s'.snapshot ≡ none))
      × (result ≡ none → s'.snapshot ≡ none → s'.rows ≡ old)
unfolding store_end commit rollback
end_lem success s old e = ground (arith, e)

begin_lem :
    (s : Store)
    → let (result, s') = store_begin s in
      (s'.rows ≡ s.rows) × (result ≡ some tt → (s.snapshot ≡ none) × (s'.snapshot ≡ some s.rows))
unfolding store_begin
begin_lem s = ground arith

-- A transaction that succeeds has made the changes of its body, and one that fails has made none, as far
-- as the rollback went through.
pub in_transaction_lem :
    (m : M (Unit {0})) (f : List Row → List Row) (s : Store)
    → Writes m f
    → s.snapshot ≡ none
    → let (result, s') = in_transaction m s in
      (result ≡ some tt → (s'.rows ≡ f s.rows) × (s'.snapshot ≡ none))
      × (result ≡ none → s'.snapshot ≡ none → s'.rows ≡ s.rows)
unfolding in_transaction
in_transaction_lem m f s h e = go (store_begin s) refl (begin_lem s)
  where
    go :
        (r : Option (Unit {0}) × Store)
        → store_begin s ≡ r
        → ((r.1.rows ≡ s.rows)
            × (r.0 ≡ some tt → (s.snapshot ≡ none) × (r.1.snapshot ≡ some s.rows)))
        → let (result, s') = in_transaction m s in
          (result ≡ some tt → (s'.rows ≡ f s.rows) × (s'.snapshot ≡ none))
          × (result ≡ none → s'.snapshot ≡ none → s'.rows ≡ s.rows)
    go (none, s1) made b = rw made (λ t. cc, λ t u. b.0)
    go (some u, s1) made b =
        let w = h s1 s.rows (b.1 refl).1 in
        let l = end_lem (is_some (m s1).0) (m s1).1 s.rows w.0 in
        rw made (
          λ t.
              let (went, rows, ended) = l.0 t in
              (rows ∙ w.1 (is_some_lem (m s1).0 went) ∙ ap f b.0, ended),
          l.1,
        )
      where
        is_some_lem : (o : Option (Unit {0})) → is_some o ≡ true → o ≡ some tt
        is_some_lem none k = cc
        is_some_lem (some u) k = refl
