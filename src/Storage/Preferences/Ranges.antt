-- ===== src/Storage/Preferences/Ranges.antt =====
-- What the numbers that validate_preferences of platform/storage.c accepts are read as by store_int.
use nova_desktop.Base.{
  ℕ, zero, suc, ◌≤◌, ◌<◌, ◌≡◌, refl, sym, ap, ◌∙◌, Bool, true, false, List, [], ◌∷◌, some, arith, ℤ,
  pos, length, get_elem?, take, take_all, inl, inr, Option-cases, subst,
}
use nova_desktop.Text.{Text, c_str, codes}
use nova_desktop.Storage.Table.{Key, find}
use nova_desktop.Storage.{Store, follow, require, select_value, store_get, store_int}
use nova_desktop.Storage.Reads.{calm, followed}
use nova_desktop.Storage.Preferences.{
  in_bounds, number_ok, validate_number, validate_all, validate_preferences, app_numbers,
}

length-c_str_le : (v : Text) → length (c_str v) ≤ length v
unfolding c_str
length-c_str_le [] = omega arith
length-c_str_le (zero ∷ v) = omega arith
length-c_str_le (suc c ∷ v) = omega (arith, length-c_str_le v)

-- No value with this key is longer than the 47 characters that store_int reads.
abbrev pub IsShort : Text → Text → Text → Store → Type 0
IsShort scope section key s =
    (v : Text)
    → find (record { scope = scope; section = section; name = key }) s.rows ≡ some v
    → length v < 48

-- The number lies between two others.
abbrev pub IsBetween : ℕ → ℕ → ℤ → Type 0
IsBetween minimum maximum n = in_bounds n minimum maximum ≡ true

accepted : (b : Bool) (s : Store) → (require b s).0 ≡ some tt → b ≡ true
accepted true s h = refl
accepted false s h = cc

module _ (s : Store) (scope section key : Text) where
  abbrev here : Key
  here = record { scope = scope; section = section; name = key }

  validate_number-calm :
      (minimum maximum : ℕ)
      → (validate_number scope section key minimum maximum (calm s)).1 ≡ calm s
  unfolding validate_number select_value
  validate_number-calm minimum maximum = refl

  -- A number that was accepted is read in_bounds its bounds, as is the fallback where there is none.
  validate_number-store_int :
      (minimum maximum fallback : ℕ)
      → IsBetween minimum maximum (pos fallback)
      → IsShort scope section key s
      → (validate_number scope section key minimum maximum (calm s)).0 ≡ some tt
      → IsBetween minimum maximum (store_int scope section key (pos fallback) (calm s)).0
  unfolding validate_number store_int store_get select_value
  validate_number-store_int minimum maximum fallback between short h =
      elim (Option-cases (find here s.rows)) [
        | inl missing ↦ rw missing between
        | inr (v, e) ↦
            let whole : take 47 (c_str v) ≡ c_str v =
              take_all 47 (c_str v) (omega (arith, short v e, length-c_str_le v)) in
            let ok : number_ok minimum maximum v ≡ true =
              accepted (number_ok minimum maximum v) s (rw e at h) in
            rw (e, whole) (ground (arith, ok))
      ]

module _ (s : Store) (scope section : Text) where
  -- The first number is accepted, and so are the others, by a store that stays as it is.
  first_validated :
      (key : Text) (minimum maximum : ℕ) (numbers : List (Text × ℕ × ℕ))
      → (validate_all scope section ((key, minimum, maximum) ∷ numbers) (calm s)).0 ≡ some tt
      → ((validate_number scope section key minimum maximum (calm s)).0 ≡ some tt)
        × ((validate_all scope section numbers (calm s)).0 ≡ some tt)
        × ((validate_all scope section ((key, minimum, maximum) ∷ numbers) (calm s)).1
            ≡ (validate_all scope section numbers (calm s)).1)
  unfolding validate_all
  first_validated key minimum maximum numbers h =
      let (u, s', made, h') =
        followed (validate_number scope section key minimum maximum (calm s)) _ tt h in
      let still : s' ≡ calm s =
        sym (ap (λ r. r.1) made) ∙ validate_number-calm s scope section key minimum maximum in
      (
        ap (λ r. r.0) made,
        rw still at h',
        ap (λ r. (follow (λ _. validate_all scope section numbers) r).1) made
            ∙ ap (λ t. (validate_all scope section numbers t).1) still,
      )

  -- Of numbers that are all accepted each one is.
  validated :
      (numbers : List (Text × ℕ × ℕ)) (i : ℕ) {key : Text} {minimum maximum : ℕ}
      → get_elem? numbers i ≡ some (key, minimum, maximum)
      → (validate_all scope section numbers (calm s)).0 ≡ some tt
      → (validate_number scope section key minimum maximum (calm s)).0 ≡ some tt
  validated [] i e h = cc
  validated ((k, lo, hi) ∷ numbers) zero {key} {minimum} {maximum} e h =
      subst (λ (x : Text × ℕ × ℕ). (validate_number scope section x.0 x.1 x.2 (calm s)).0 ≡ some tt)
        (let p : (k, lo, hi) ≡ (key, minimum, maximum) = cc in p)
        (first_validated k lo hi numbers h).0
  validated ((k, lo, hi) ∷ numbers) (suc i) e h =
      validated numbers i e (first_validated k lo hi numbers h).1

module _ (s : Store) where
  -- Once the preferences are accepted, while SQLite refuses nothing more, the index of the active
  -- workspace is read as a number from 0 to 7, if its text has no more than 47 characters.
  pub validate_preferences-active :
      IsShort (codes "app") (codes "Nova") (codes "Active") s
      → (validate_preferences (calm s)).0 ≡ some tt
      → IsBetween 0 7 (store_int (codes "app") (codes "Nova") (codes "Active") (pos 0) (calm s)).0
  unfolding validate_preferences
  validate_preferences-active short h =
      let (u1, s1, a1, e1) = followed _ _ tt h in
      let (u2, s2, a2, e2) = followed _ _ tt (ap (λ r. r.0) a1) in
      let (u3, s3, a3, e3) = followed _ _ tt (ap (λ r. r.0) a2) in
      validate_number-store_int s (codes "app") (codes "Nova") (codes "Active") 0 7 0 refl short
        (validated s (codes "app") (codes "Nova") app_numbers 4 refl (ap (λ r. r.0) a3))
