-- ===== src/SyncModel/Identifier.antt =====
-- Identifiers of pairs, data sets and nodes, sync_identifier of core/sync_model.c.
use nova_desktop.Base.{
  ℕ, ◌+◌, ◌≤◌, ◌≡◌, ◌↔◌, refl, true, [], ◌∷◌, arith, leb, length, All, false, Bool-cases, inl, inr,
}
use nova_desktop.Text.{Text}
use nova_desktop.SyncModel.{is_identifier_char, identifier_from, sync_identifier}

abbrev pub IdentifierChars : Text → Type 0
IdentifierChars s = All (λ c. is_identifier_char c ≡ true) s

identifier_from_iff :
    (n : ℕ) (s : Text)
    → n ≤ 80
    → (identifier_from n s ≡ true) ↔ (IdentifierChars s × (n + length s ≤ 80))
unfolding identifier_from
identifier_from_iff n [] h = (λ e. (tt, omega arith), λ e. refl)
identifier_from_iff n (c ∷ s) h = elim (Bool-cases (leb 80 n)) [
  | inl full ↦ rw full (λ e. cc, λ e. absurd (ground arith))
  | inr room ↦ rw room (elim (Bool-cases (is_identifier_char c)) [
    | inl good ↦ rw good (ground (arith, identifier_from_iff (n + 1) s (ground arith)))
    | inr bad ↦ rw bad (λ e. cc, λ e. absurd (let f : false ≡ true = e.0.0 in cc))
  ])
]

-- An identifier is one to eighty letters, digits, underscores and dashes.
pub sync_identifier_iff :
    (s : Text) → (sync_identifier s ≡ true) ↔ (IdentifierChars s × (1 ≤ length s) × (length s ≤ 80))
unfolding sync_identifier
sync_identifier_iff [] = (λ h. cc, λ h. absurd (omega (arith, h.1)))
sync_identifier_iff (c ∷ s) = ground (arith, identifier_from_iff 0 (c ∷ s))
