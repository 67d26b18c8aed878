-- ===== src/SshClient/Verified.antt =====
-- platform/ssh_client.c: what a connection reveals, and the code it ends with.
use nova_desktop.Base.{
  Bool, true, false, Option, none, some, ◌==◌, length, ◌≡◌, refl, ◌⊎◌, inl, inr, arith, ◌∙◌,
  Bool-cases,
}
use nova_desktop.Text.{c_str, text_eq, text_eq_iff}
use nova_desktop.Credentials.{SshLogin}
use nova_desktop.SyncFiles.{hex}
use nova_desktop.SshClient.{
  Bytes, host_key, file, Connection, Outcome, next, fails, stops, M, ◌>>=◌, ◌>>◌, follow, failed,
}
use nova_desktop.SshClient.Connect.{
  Answers, open_socket, shake_hands, verify_host, checked_fingerprint, encoded, authenticate,
  open_sftp, connect_parts, finished, connect_impl,
}

abbrev is_next : {A : Type 0} → Outcome A → Bool
is_next (next a) = true
is_next fails = false
is_next stops = false

-- A part that sends neither the user nor a secret.
abbrev Spares : {A : Type 0} → M A → Type 0
Spares m = (c : Connection) → (m c).1.sent ≡ c.sent

follow-sent :
    {A B : Type 0} (c : Connection) (f : A → M B) (x : Outcome A × Connection)
    → x.1.sent ≡ c.sent
    → ((a : A) → Spares (f a))
    → (follow f x).1.sent ≡ c.sent
follow-sent c f (next a, c') same rest = rest a c' ∙ same
follow-sent c f (fails, c') same rest = same
follow-sent c f (stops, c') same rest = same

bind-Spares :
    {A B : Type 0} (m : M A) (f : A → M B) → Spares m → ((a : A) → Spares (f a)) → Spares (m >>= f)
bind-Spares m f first rest c = follow-sent c f (m c) (first c) rest

then-Spares : {B : Type 0} (m : M (Unit {0})) (k : M B) → Spares m → Spares k → Spares (m >> k)
then-Spares m k first rest = bind-Spares m (λ u. k) first (λ u. rest)

module _ (o : Answers) where
  open_socket-Spares : Spares (open_socket o)
  unfolding open_socket
  open_socket-Spares c = ground arith

  shake_hands-Spares : Spares (shake_hands o)
  unfolding shake_hands
  shake_hands-Spares c = ground arith

  -- The server has the key that the user has accepted before.
  abbrev pub IsVerified : SshLogin → Type 0
  IsVerified login =
      (hash : Bytes) × (o.host_hash ≡ some hash) × (c_str login.fingerprint ≡ hex hash)

  abbrev Guards : {A : Type 0} → SshLogin → Connection → Outcome A × Connection → Type 0
  Guards login c x =
      ((x.1.sent ≡ c.sent) × (is_next x.0 ≡ true → IsVerified login)) ⊎ IsVerified login

  checked_fingerprint-Guards :
      (login : SshLogin) (hash : Option Bytes) (c : Connection)
      → o.host_hash ≡ hash
      → Guards login c (checked_fingerprint o (c_str login.fingerprint) hash c)
  checked_fingerprint-Guards login none c e = inl (refl, λ h. ground arith)
  checked_fingerprint-Guards login (some hash) c e =
      elim (Bool-cases (length (c_str login.fingerprint) == 0)) [
        | inl empty ↦ rw empty (inl (refl, λ h. ground arith))
        | inr pinned ↦ elim (Bool-cases (text_eq (c_str login.fingerprint) (hex hash))) [
          | inl same ↦ inr (hash, e, (text_eq_iff (c_str login.fingerprint) (hex hash)).0 same)
          | inr other ↦ rw (pinned, other) (inl (refl, λ h. ground arith))
        ]
      ]

  verify_host-Guards : (login : SshLogin) (c : Connection) → Guards login c (verify_host o login c)
  unfolding verify_host
  verify_host-Guards login c =
      checked_fingerprint-Guards login o.host_hash
        (record c { phase = host_key; result_phase = host_key }) refl

  -- What guards the rest of the connection guards it whatever comes then.
  follow-Guards :
      {A B : Type 0} (login : SshLogin) (c : Connection) (f : A → M B) (x : Outcome A × Connection)
      → Guards login c x
      → Guards login c (follow f x)
  follow-Guards login c f x (inr verified) = inr verified
  follow-Guards login c f (next a, c') (inl (same, verified)) = inr (verified refl)
  follow-Guards login c f (fails, c') (inl (same, verified)) = inl (same, λ h. ground arith)
  follow-Guards login c f (stops, c') (inl (same, verified)) = inl (same, λ h. ground arith)

  after-Guards :
      {A : Type 0} (login : SshLogin) (m : M A) (c c' : Connection)
      → c'.sent ≡ c.sent
      → Guards login c' (m c')
      → Guards login c (m c')
  after-Guards login m c c' same (inr verified) = inr verified
  after-Guards login m c c' same (inl (kept, verified)) = inl (kept ∙ same, verified)

  first_parts-Guards :
      (login : SshLogin) (c : Connection) (x : Outcome (Unit {0}) × Connection)
      → x.1.sent ≡ c.sent
      → Guards login c (follow (λ u. verify_host o login) x)
  first_parts-Guards login c (next u, c') same =
      after-Guards login (verify_host o login) c c' same (verify_host-Guards login c')
  first_parts-Guards login c (fails, c') same = inl (same, λ h. ground arith)
  first_parts-Guards login c (stops, c') same = inl (same, λ h. ground arith)

  connect_parts-Guards :
      (login : SshLogin) (c : Connection) → Guards login c (connect_parts o login c)
  unfolding connect_parts
  connect_parts-Guards login c =
      follow-Guards login c (λ u. open_sftp o) _
        (follow-Guards login c (λ u. encoded o login >>= authenticate o login) _
          (first_parts-Guards login c ((open_socket o >> shake_hands o) c)
            (then-Spares (open_socket o) (shake_hands o) open_socket-Spares shake_hands-Spares c)))

  finished-sent : (x : Outcome (Unit {0}) × Connection) → (finished o x).1.sent ≡ x.1.sent
  unfolding failed
  finished-sent (next u, c) = refl
  finished-sent (fails, c) = refl
  finished-sent (stops, c) = refl

  -- Whatever the network answers, the name of the user and the secrets leave this computer only towards a server whose key
  -- has the fingerprint that is pinned for the login; before that, and where none is pinned, nothing does.
  pub connect_impl_sent :
      (login : SshLogin) (c : Connection)
      → ((connect_impl o login c).1.sent ≡ c.sent) ⊎ IsVerified login
  unfolding connect_impl
  connect_impl_sent login c = elim (Bool-cases o.memory) [
    | inr none_left ↦ rw none_left (inl refl)
    | inl some_left ↦
        elim (connect_parts-Guards login (record c { phase = file; native_error = 0 })) [
          | inr verified ↦ inr verified
          | inl (same, verified) ↦ rw some_left (
              inl (
                finished-sent (connect_parts o login (record c { phase = file; native_error = 0 }))
                ∙ same))
        ]
  ]
