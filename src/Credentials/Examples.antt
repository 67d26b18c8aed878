-- ===== src/Credentials/Examples.antt =====
-- The theorems on platform/ssh_credentials.c at a store that is a function.
use nova_desktop.Base.{[], ◌∷◌, ◌++◌, pos, if◌then◌else◌, ◌≡◌, refl}
use nova_desktop.Text.{Text, codes, text_eq, text_eq_iff, c_str, bounded}
use nova_desktop.Credentials.{
  SshCredentialStore, SshLogin, Comparisons, Credential, Answer, done, refused, not_found,
  target_name, ssh_credentials_load, ssh_credentials_save,
}
use nova_desktop.Credentials.Restored.{ReadsWritten, ForgetsRemoved}
use nova_desktop.Credentials.Saved.{kept, ssh_credentials_load-ssh_credentials_save}

abbrev exact : Comparisons
exact = record { eqi = text_eq; eq = text_eq }

abbrev Shelf : Type 0
Shelf = Text → Answer Credential

abbrev shelf : SshCredentialStore Shelf
shelf = record {
  read = λ s target. s target;
  write = λ s target c. (done tt, λ t. if text_eq t target then done c else s t);
  remove = λ s target. (done tt, λ t. if text_eq t target then refused not_found else s t);
}

shelf-ReadsWritten : ReadsWritten shelf
shelf-ReadsWritten s target c h = rw ((text_eq_iff target target).1 refl) refl

shelf-ForgetsRemoved : ForgetsRemoved shelf
shelf-ForgetsRemoved s target h = rw ((text_eq_iff target target).1 refl) refl

abbrev nothing : Shelf
nothing target = refused not_found

abbrev login : SshLogin
login = record {
  fingerprint = [];
  server = record {
    id = pos 7;
    name = codes "n" ++ (0 ∷ []);
    host = codes "h" ++ (0 ∷ []);
    user = codes "u" ++ (0 ∷ []);
    directory = codes "/" ++ (0 ∷ []);
    port = pos 22;
  };
  secret = codes "s" ++ (0 ∷ []);
  key_file = 0 ∷ [];
}

saved : (ssh_credentials_save shelf login nothing).0 ≡ done tt
unfolding ssh_credentials_save target_name bounded c_str
saved = refl

ssh_credentials_load-ssh_credentials_save_example :
    ssh_credentials_load shelf exact login (ssh_credentials_save shelf login nothing).1 ≡ kept login
ssh_credentials_load-ssh_credentials_save_example =
    ssh_credentials_load-ssh_credentials_save shelf exact
      (λ t. ((text_eq_iff t t).1 refl, (text_eq_iff t t).1 refl)) shelf-ReadsWritten
      shelf-ForgetsRemoved login nothing saved
