-- ===== src/Storage/Table.antt =====
-- The rows of the settings table of platform/storage.c, whose primary key is scope, section and key. The
-- keys of the program are ASCII, which SQLite compares as they stand.
use nova_desktop.Base.{
  ℕ, ◌+◌, ◌<◌, ◌≡◌, ◌↔◌, refl, Bool, true, false, ◌&&◌, List, [], ◌∷◌, Option, none, some, arith,
  if◌then◌else◌, Bool-cases, inl, inr, sym,
}
use nova_desktop.Text.{Text, text_eq, text_eq_iff, text_eq_refl}

pub record Key : Type 0 where
  pub scope : Text
  pub section : Text
  pub name : Text

pub record Row : Type 0 where
  pub key : Key
  pub value : Text

unfoldable pub key_eq : Key → Key → Bool
key_eq a b = text_eq a.scope b.scope && text_eq a.section b.section && text_eq a.name b.name

-- `SELECT value FROM settings WHERE scope=? AND section=? AND key=?`
unfoldable pub find : Key → List Row → Option Text
unfolding key_eq
find k [] = none
find k (r ∷ rs) = if key_eq k r.key then some r.value else find k rs

-- `INSERT INTO settings VALUES(?,?,?,?) ON CONFLICT(scope,section,key) DO UPDATE SET
-- value=excluded.value WHERE value<>excluded.value`
unfoldable pub upsert : Key → Text → List Row → List Row
unfolding key_eq
upsert k v [] = record { key = k; value = v } ∷ []
upsert k v (r ∷ rs) = if key_eq k r.key then record r { value = v } ∷ rs else r ∷ upsert k v rs

-- `DELETE FROM settings WHERE scope=?`
unfoldable pub delete_scope : Text → List Row → List Row
delete_scope scope [] = []
delete_scope scope (r ∷ rs) =
    if text_eq scope r.key.scope then delete_scope scope rs else r ∷ delete_scope scope rs

-- `SELECT count(*) FROM settings WHERE scope=?`
unfoldable pub count_scope : Text → List Row → ℕ
count_scope scope [] = 0
count_scope scope (r ∷ rs) =
    if text_eq scope r.key.scope then 1 + count_scope scope rs else count_scope scope rs

pub key_eq_refl : (k : Key) → key_eq k k ≡ true
unfolding key_eq
key_eq_refl k = rw (text_eq_refl k.scope, text_eq_refl k.section, text_eq_refl k.name) refl

pub key_eq_iff : (a b : Key) → (key_eq a b ≡ true) ↔ (a ≡ b)
unfolding key_eq
key_eq_iff a b = (
  λ h.
      record_path a b ((text_eq_iff a.scope b.scope).0 (ground arith))
        ((text_eq_iff a.section b.section).0 (ground arith))
        ((text_eq_iff a.name b.name).0 (ground arith)),
  λ e. rw e (key_eq_refl b),
)
  where
    record_path : (a b : Key) → a.scope ≡ b.scope → a.section ≡ b.section → a.name ≡ b.name → a ≡ b
    record_path a b p q r = cc

-- A row that is written is found, and the others stay.
pub find-upsert :
    (k j : Key) (v : Text) (rs : List Row)
    → find k (upsert j v rs) ≡ (if key_eq k j then some v else find k rs)
unfolding find upsert
find-upsert k j v [] = refl
find-upsert k j v (r ∷ rs) = elim (Bool-cases (key_eq j r.key)) [
  | inl same ↦ rw same (rw ((key_eq_iff j r.key).0 same) (ground arith))
  | inr other ↦ rw other (elim (Bool-cases (key_eq k r.key)) [
    | inr unlike ↦ rw unlike (find-upsert k j v rs)
    | inl alike ↦
        let apart : key_eq k j ≡ false =
          rw ((key_eq_iff k r.key).0 alike) (unequal j r.key other) in
        rw (alike, apart) refl
  ])
]
  where
    unequal : (a b : Key) → key_eq a b ≡ false → key_eq b a ≡ false
    unequal a b h = elim (Bool-cases (key_eq b a)) [
      | inr no_match ↦ no_match
      | inl match ↦ absurd (let e : a ≡ b = sym ((key_eq_iff b a).0 match) in cc)
    ]

-- What is found in a scope is counted there.
pub count_scope-find :
    (k : Key) (rs : List Row) {v : Text} → find k rs ≡ some v → 0 < count_scope k.scope rs
unfolding find count_scope key_eq
count_scope-find k [] e = cc
count_scope-find k (r ∷ rs) {v} e = ground (arith, count_scope-find k rs {v = v})
