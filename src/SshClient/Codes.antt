-- ===== src/SshClient/Codes.antt =====
-- platform/ssh_client.c: the code that a connection ends with.
use nova_desktop.Base.{
  Bool, true, false, ◌||◌, not, [], ◌∷◌, Option, none, some, ◌==◌, if◌then◌else◌, length, ◌≡◌, refl,
  ◌⊎◌, inl, inr, arith, Bool-cases,
}
use nova_desktop.Text.{Text, c_str, text_eq}
use nova_desktop.Credentials.{SshLogin, is_empty}
use nova_desktop.SyncFiles.{hex}
use nova_desktop.SshClient.{
  Bytes, host_key, file, key_file, Connection, Outcome, next, fails, stops, M, ◌>>=◌, ◌>>◌, follow,
  go_on, set_phase, called, failed, failed_code, password,
}
use nova_desktop.SshClient.Connect.{
  Answers, KeyFile, closed, opened, open_socket, shake_hands, verify_host, checked_fingerprint,
  encoded, authenticate, open_sftp, connect_parts, finished, connect_impl, done_with, read_key,
  list_methods, prove_identity, sends,
}

abbrev is_stops : {A : Type 0} → Outcome A → Bool
is_stops (next a) = false
is_stops fails = false
is_stops stops = true

code_cases : (b : Bool) → (failed_code b ≡ 3) ⊎ (failed_code b ≡ 1)
code_cases true = inl refl
code_cases false = inr refl

module _ (o : Answers) where
  -- The end of an operation that was stopped: an error, or a host of which no key is known yet, with its
  -- fingerprint.
  abbrev pub IsTold : SshLogin → Connection → Type 0
  IsTold login c =
      (c.code ≡ 1)
      ⊎ ((hash : Bytes) × (c.code ≡ 2)
          × (c_str login.fingerprint ≡ [])
          × (o.host_hash ≡ some hash)
          × (c.fingerprint ≡ hex hash))

  abbrev Tells : {A : Type 0} → SshLogin → M A → Type 0
  Tells login m = (c : Connection) → is_stops (m c).0 ≡ true → IsTold login (m c).1

  follow-Tells :
      {A B : Type 0} (login : SshLogin) (f : A → M B) (x : Outcome A × Connection)
      → (is_stops x.0 ≡ true → IsTold login x.1)
      → ((a : A) → Tells login (f a))
      → is_stops (follow f x).0 ≡ true
      → IsTold login (follow f x).1
  follow-Tells login f (next a, c) first rest h = rest a c h
  follow-Tells login f (fails, c) first rest h = ground arith
  follow-Tells login f (stops, c) first rest h = first refl

  bind-Tells :
      {A B : Type 0} (login : SshLogin) (m : M A) (f : A → M B)
      → Tells login m
      → ((a : A) → Tells login (f a))
      → Tells login (m >>= f)
  bind-Tells login m f first rest c = follow-Tells login f (m c) (first c) rest

  then-Tells :
      {B : Type 0} (login : SshLogin) (m : M (Unit {0})) (k : M B)
      → Tells login m
      → Tells login k
      → Tells login (m >> k)
  then-Tells login m k first rest = bind-Tells login m (λ u. k) first (λ u. rest)

  open_socket-Tells : (login : SshLogin) → Tells login (open_socket o)
  unfolding open_socket
  open_socket-Tells login c h = ground arith

  shake_hands-Tells : (login : SshLogin) → Tells login (shake_hands o)
  unfolding shake_hands
  shake_hands-Tells login c h = ground arith

  encoded-Tells : (login : SshLogin) → Tells login (encoded o login)
  unfolding encoded
  encoded-Tells login c h = ground arith

  open_sftp-Tells : (login : SshLogin) → Tells login (open_sftp o)
  unfolding open_sftp
  open_sftp-Tells login c h = ground arith

  no_text : (t : Text) → (length t == 0) ≡ true → t ≡ []
  no_text [] h = refl
  no_text (x ∷ xs) h = ground arith

  checked_fingerprint-Tells :
      (login : SshLogin) (hash : Option Bytes)
      → o.host_hash ≡ hash
      → Tells login (checked_fingerprint o (c_str login.fingerprint) hash)
  checked_fingerprint-Tells login none e c = λ h. ground arith
  checked_fingerprint-Tells login (some hash) e c =
      elim (Bool-cases (length (c_str login.fingerprint) == 0)) [
        | inl empty ↦
            rw empty (λ h. inr (hash, refl, no_text (c_str login.fingerprint) empty, e, refl))
        | inr pinned ↦ elim (Bool-cases (text_eq (c_str login.fingerprint) (hex hash))) [
          | inl same ↦ rw (pinned, same) (λ h. ground arith)
          | inr other ↦ rw (pinned, other) (λ h. inl refl)
        ]
      ]

  read_key-Tells :
      (login : SshLogin) (user secret : Bytes) (key : KeyFile)
      → Tells login (read_key o user secret key)
  read_key-Tells login user secret (closed e) c h = ground arith
  read_key-Tells login user secret (opened size none e) c h = ground arith
  read_key-Tells login user secret (opened size (some key) e) c h = ground arith

  either-Tells :
      {A : Type 0} (login : SshLogin) (b : Bool) (m k : M A)
      → Tells login m
      → Tells login k
      → Tells login (if b then m else k)
  either-Tells login true m k first second = first
  either-Tells login false m k first second = second

  prove_identity-Tells :
      (login : SshLogin) (user secret : Bytes) → Tells login (prove_identity o login user secret)
  prove_identity-Tells login user secret =
      either-Tells login o.authenticated go_on
        (if is_empty login.key_file
          then sends (password secret) >> (called o.password_calls >>= done_with)
          else set_phase key_file >> read_key o user secret o.key)
        (λ c h. ground arith)
        (either-Tells login (is_empty login.key_file)
          (sends (password secret) >> (called o.password_calls >>= done_with))
          (set_phase key_file >> read_key o user secret o.key) (λ c h. ground arith)
          (then-Tells login (set_phase key_file) (read_key o user secret o.key)
            (λ c h. ground arith) (read_key-Tells login user secret o.key)))

  authenticate-Tells :
      (login : SshLogin) (names : Bytes × Bytes) → Tells login (authenticate o login names)
  unfolding authenticate
  authenticate-Tells login (user, secret) =
      then-Tells login (list_methods o user) (prove_identity o login user secret)
        (λ c h. ground arith) (λ c. prove_identity-Tells login user secret c)

  verify_host-Tells : (login : SshLogin) → Tells login (verify_host o login)
  unfolding verify_host
  verify_host-Tells login c =
      checked_fingerprint-Tells login o.host_hash refl
        (record c { phase = host_key; result_phase = host_key })

  connect_parts-Tells : (login : SshLogin) → Tells login (connect_parts o login)
  unfolding connect_parts
  connect_parts-Tells login =
      then-Tells login
        (open_socket o
          >> shake_hands o
          >> verify_host o login
          >> (encoded o login >>= authenticate o login))
        (open_sftp o)
        (then-Tells login (open_socket o >> shake_hands o >> verify_host o login)
          (encoded o login >>= authenticate o login)
          (then-Tells login (open_socket o >> shake_hands o) (verify_host o login)
            (then-Tells login (open_socket o) (shake_hands o) (open_socket-Tells login)
              (shake_hands-Tells login))
            (verify_host-Tells login))
          (bind-Tells login (encoded o login) (authenticate o login) (encoded-Tells login)
            (authenticate-Tells login)))
        (open_sftp-Tells login)

  finished-Tells :
      (login : SshLogin) (x : Outcome (Unit {0}) × Connection)
      → (is_stops x.0 ≡ true → IsTold login x.1)
      → (finished o x).0 ≡ false
      → ((finished o x).1.code ≡ 3) ⊎ IsTold login (finished o x).1
  unfolding failed
  finished-Tells login (next u, c) told h = ground arith
  finished-Tells login (fails, c) told h = elim (code_cases (o.cancel_set || o.late)) [
    | inl e ↦ inl e
    | inr e ↦ inr (inl e)
  ]
  finished-Tells login (stops, c) told h = inr (told refl)

  -- The end of an operation that is FALSE.
  abbrev pub IsExplained : SshLogin → Bool × Connection → Type 0
  IsExplained login x = (x.1.code ≡ 3) ⊎ IsTold login x.1

  chosen-IsExplained :
      (login : SshLogin) (b : Bool) (c : Connection) (x : Bool × Connection)
      → (x.0 ≡ false → IsExplained login x)
      → (if not b then (false, record c { code = 1 }) else x).0 ≡ false
      → IsExplained login (if not b then (false, record c { code = 1 }) else x)
  chosen-IsExplained login true c x told h = told h
  chosen-IsExplained login false c x told h = inr (inl refl)

  -- A connection that does not come about tells why: the code is 3 or 1, or it is 2, and then no fingerprint is pinned for the
  -- login and the result has the one of the host, for the user to compare.
  pub connect_impl_code :
      (login : SshLogin) (c : Connection)
      → (connect_impl o login c).0 ≡ false
      → IsExplained login (connect_impl o login c)
  unfolding connect_impl
  connect_impl_code login c =
      let c' : Connection = record c { phase = file; native_error = 0 } in
      chosen-IsExplained login o.memory c (finished o (connect_parts o login c'))
        (finished-Tells login (connect_parts o login c') (connect_parts-Tells login c'))
