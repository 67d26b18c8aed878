-- ===== src/SyncClient/Download/Rounds.antt =====
-- platform/sync_client.c: the loop over the pieces of a chunk ends by itself within the fuel that it is given.
use nova_desktop.Base.{
  ℕ, zero, suc, ◌+◌, ◌≤◌, Bool, true, false, ◌&&◌, Option, none, some, leb, ltb, if◌then◌else◌, ◌≡◌,
  refl, arith, Bool-cases, inl, inr, ◌∙◌, sym, negsuc,
}
use nova_desktop.Text.{Text, codes}
use nova_desktop.SyncWire.{SyncReply}
use nova_desktop.SyncClient.{World, Client, Act, follow, pure, poll, of_option, ◌>>=◌, ◌>>◌, rpc}
use nova_desktop.SyncClient.Download.{get_pieces, piece, request_at, is_offset}

follow-congr :
    {A B : Type 0} (f g : A → Act B) (x : Option A × World)
    → ((a : A) (w : World) → f a w ≡ g a w)
    → follow f x ≡ follow g x
follow-congr f g (none, w) same = refl
follow-congr f g (some a, w) same = same a w

bind-congr :
    {A B : Type 0} (m : Act A) (f g : A → Act B)
    → ((a : A) (w : World) → f a w ≡ g a w)
    → (w : World) → (m >>= f) w ≡ (m >>= g) w
unfolding ◌>>=◌
bind-congr m f g same w = follow-congr f g (m w) same

then-congr :
    {B : Type 0} (m : Act (Unit {0})) (k l : Act B)
    → ((w : World) → k w ≡ l w)
    → (w : World) → (m >> k) w ≡ (m >> l) w
unfolding ◌>>◌
then-congr m k l same = bind-congr m (λ _. k) (λ _. l) (λ a. same)

if-congr :
    {A : Type 0} (b : Bool) (m k l : Act A)
    → ((w : World) → k w ≡ l w)
    → (w : World) → (if b then m else k) w ≡ (if b then m else l) w
if-congr true m k l same w = refl
if-congr false m k l same w = same w

middle_false : (a b d : Bool) → b ≡ false → a && b && d ≡ false
middle_false a b d h = ground arith

not_below : (offset total : ℕ) → total ≤ 0 + offset → ltb offset total ≡ false
not_below offset total h = ground arith

fuel_left :
    (fuel offset total size : ℕ)
    → total ≤ suc fuel + offset
    → ltb 0 size ≡ true
    → total ≤ fuel + (offset + size)
fuel_left fuel offset total size h more = ground arith

module _ (c : Client) (base : Option Text) (part : Text) (total : ℕ) where
  -- An empty piece ends the loop.
  empty-piece :
      (offset : ℕ) (reply : SyncReply) (k : Act (Unit {0})) (w : World)
      → ltb 0 reply.size ≡ false
      → (piece c part offset total reply >> k) w ≡ (none, w)
  unfolding ◌>>=◌ ◌>>◌
  empty-piece offset reply k w empty =
      rw
        (middle_false
          (is_offset (c.outside.json_int reply.json (codes "$.offset") (negsuc 0)) offset)
          (ltb 0 reply.size) (leb (offset + reply.size) total) empty)
        refl

  piece-congr :
      (offset : ℕ) (reply : SyncReply) (k l : Act (Unit {0}))
      → (ltb 0 reply.size ≡ true → (w : World) → k w ≡ l w)
      → (w : World)
      → (piece c part offset total reply >> k) w ≡ (piece c part offset total reply >> l) w
  piece-congr offset reply k l same w = elim (Bool-cases (ltb 0 reply.size)) [
    | inl some_bytes ↦ then-congr (piece c part offset total reply) k l (same some_bytes) w
    | inr empty ↦ empty-piece offset reply k w empty ∙ sym (empty-piece offset reply l w empty)
  ]

  -- One fuel is as good as another where both cover the bytes that are missing.
  pub get_pieces_enough :
      (fuel other offset : ℕ)
      → total ≤ fuel + offset
      → total ≤ other + offset
      → (w : World)
      → get_pieces c base part total fuel offset w ≡ get_pieces c base part total other offset w
  unfolding get_pieces
  get_pieces_enough zero zero offset a b w = refl
  get_pieces_enough zero (suc other) offset a b w = rw (not_below offset total a) refl
  get_pieces_enough (suc fuel) zero offset a b w = rw (not_below offset total b) refl
  get_pieces_enough (suc fuel) (suc other) offset a b w = elim (Bool-cases (ltb offset total)) [
    | inl below ↦ rw below (
        bind-congr poll _ _
          (λ stops. if-congr stops (pure tt) _ _ (
            bind-congr (of_option (request_at c base offset) >>= rpc c) _ _ (λ reply.
              piece-congr offset reply _ _ (λ more.
                get_pieces_enough fuel other (offset + reply.size)
                  (fuel_left fuel offset total reply.size a more)
                  (fuel_left other offset total reply.size b more)))))
          w)
    | inr done ↦ rw done refl
  ]
