-- ===== src/SyncModel/Chunks/Local.antt =====
-- The rolling hash of sync_chunk_boundary in core/sync_model.c: what its tested bits depend on.
use Prim.Native.Nat.{◌∣◌}
use native.Mathlib.Nat.{
  mod-mod_of_dvd, mod-add-mod, add-mul-mod_self_right, mod-add-div', dvd_trans, dvd-mul_left,
  dvd_refl,
}
use nova_desktop.Base.{
  ℕ, zero, suc, ◌+◌, ◌*◌, ◌/◌, ◌%◌, ◌^◌, ◌≡◌, refl, sym, ap, subst, ◌∙◌, List, [], ◌∷◌, ◌++◌, arith,
  length,
}
use nova_desktop.SyncModel.Chunks.{roll}

-- The hash behind some bytes without a boundary.
abbrev pub rolled : (ℕ → ℕ) → ℕ → List ℕ → ℕ
rolled gear hash [] = hash
rolled gear hash (b ∷ input) = rolled gear (roll gear hash b) input

-- `n` doublings.
abbrev doubled : ℕ → ℕ → ℕ
doubled zero m = m
doubled (suc n) m = doubled n (2 * m)

dvd-doubled : (n m : ℕ) → m ∣ doubled n m
dvd-doubled zero m = dvd_refl m
dvd-doubled (suc n) m = dvd_trans m (dvd-mul_left m 2) (dvd-doubled n (2 * m))

twice : (h m : ℕ) → (h * 2) % (2 * m) ≡ ((h % m) * 2) % (2 * m)
twice h m = ap (λ x. x % (2 * m)) split ∙ add-mul-mod_self_right ((h % m) * 2) (h / m) (2 * m)
  where
    split : h * 2 ≡ (h % m) * 2 + (h / m) * (2 * m)
    split = omega (arith, mod-add-div' h m)

module _ (gear : ℕ → ℕ) where
  roll-mod :
      (m h b : ℕ)
      → 2 * m ∣ 2 ^ 64
      → roll gear h b % (2 * m) ≡ (((h % m) * 2) % (2 * m) + gear b) % (2 * m)
  roll-mod m h b d =
      mod-mod_of_dvd (2 * m) (h * 2 % 2 ^ 64 + gear b) d
      ∙ sym (mod-add-mod (h * 2 % 2 ^ 64) (2 * m) (gear b))
      ∙ ap (λ x. (x + gear b) % (2 * m)) (mod-mod_of_dvd (2 * m) (h * 2) d ∙ twice h m)

  rolled-mod :
      (m h k : ℕ) (input : List ℕ)
      → doubled (length input) m ∣ 2 ^ 64
      → h % m ≡ k % m
      → rolled gear h input % doubled (length input) m
        ≡ rolled gear k input % doubled (length input) m
  rolled-mod m h k [] d e = e
  rolled-mod m h k (b ∷ input) d e =
      let e' = dvd_trans (2 * m) (dvd-doubled (length input) (2 * m)) d in
      rolled-mod (2 * m) (roll gear h b) (roll gear k b) input d (
        roll-mod m h b e'
        ∙ ap (λ x. ((x * 2) % (2 * m) + gear b) % (2 * m)) e
        ∙ sym (roll-mod m k b e'))

  rolled-append :
      (h : ℕ) (xs ys : List ℕ) → rolled gear h (xs ++ ys) ≡ rolled gear (rolled gear h xs) ys
  rolled-append h [] ys = refl
  rolled-append h (x ∷ xs) ys = rolled-append (roll gear h x) xs ys

  -- Whatever the hash was before, its nineteen tested bits depend on the last nineteen bytes alone, so that
  -- the places of the boundaries follow the content.
  pub rolled_local :
      (h k : ℕ) (before before' last : List ℕ)
      → length last ≡ 19
      → rolled gear h (before ++ last) % 2 ^ 19 ≡ rolled gear k (before' ++ last) % 2 ^ 19
  rolled_local h k before before' last e =
      let modulus : doubled (length last) 1 ≡ 2 ^ 19 = ap (λ n. doubled n 1) e in
      rw (rolled-append h before last, rolled-append k before' last)
        (subst
          (λ m.
            rolled gear (rolled gear h before) last % m
            ≡ rolled gear (rolled gear k before') last % m)
          modulus
          (rolled-mod 1 (rolled gear h before) (rolled gear k before') last
            (subst (λ m. m ∣ 2 ^ 64) (sym modulus) (dvd-mul_left (2 ^ 19) (2 ^ 45))) (omega arith)))
