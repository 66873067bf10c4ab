-- ===== src/Security.antt =====
-- The TLS configuration of src/remote/TransportSecurity.cpp.
-- What the class keeps is the library's TLSConfiguration, of which only the calls made on it are seen:
-- they are recorded in order, the last one first. Whether a file exists and whether the library can load
-- a key with a passphrase are arguments. An exception is an `invalid_argument` with its text.
pub mod Soundness
pub mod Outcome
use iec104_python.Base.{
  ℕ, Bool, true, false, not, if◌then◌else◌, List, [], ◌∷◌, ◌++◌, Option, none, some, Result, ok,
  err, throw_if, ◌>>◌, ◌>>=◌,
}
use iec104_python.Text.{Text, codes}

pub data Setting : Type 0 where
  event_handler : Setting
  chain_validation allow_only_known session_resumption : Bool → Setting
  resumption_interval : (seconds : ℕ) → Setting
  own_key : (path : Text) → (passphrase : Option Text) → (loaded : Bool) → Setting
  own_certificate ca_certificate allowed_certificate : (path : Text) → Setting
  min_version max_version : (version : ℕ) → Setting

pub record Security : Type 0 where
  pub config : List Setting

pub data SecurityError : Type 0 where
  invalid_argument : (message : Text) → SecurityError

-- The files and keys of the computer at the time of a call.
pub record Computer : Type 0 where
  pub file_exists : Text → Bool
  pub loads_key : (path : Text) → (passphrase : Option Text) → Bool

abbrev pub configure : Setting → Security → Security
configure s security = record { config = s ∷ security.config }

abbrev pub empty : Text → Bool
empty [] = true
empty (c ∷ cs) = false

-- The constructor; 21600 seconds are six hours.
unfoldable pub new_security : (validate only_known : Bool) → Security
new_security validate only_known = record {
  config =
      resumption_interval 21600
      ∷ session_resumption true
      ∷ allow_only_known only_known
      ∷ chain_validation validate
      ∷ event_handler
      ∷ [];
}

abbrev pub missing_cert : SecurityError
missing_cert = invalid_argument (codes "Missing value for cert argument")

abbrev pub missing_key : SecurityError
missing_key = invalid_argument (codes "Missing value for key argument")

abbrev pub no_certificate_at : Text → SecurityError
no_certificate_at path =
    invalid_argument (codes "Provided certificate filepath does not exist: " ++ path)

abbrev pub no_key_at : Text → SecurityError
no_key_at path = invalid_argument (codes "Provided key filepath does not exist: " ++ path)

-- The pointer that is passed for a passphrase: null for the empty text.
unfoldable pub passphrase_of : Text → Option Text
passphrase_of passphrase = if empty passphrase then none else some passphrase

unfoldable pub key_refused : (passphrase : Text) → SecurityError
key_refused passphrase = invalid_argument (
    if empty passphrase
    then codes "Passphrase required to decrypt the key"
    else codes "Invalid passphrase to decrypt the key")

unfoldable pub check_certificate : Computer → (cert : Text) → Result SecurityError (Unit {0})
check_certificate computer cert =
    throw_if (empty cert) missing_cert
    >> throw_if (not (computer.file_exists cert)) (no_certificate_at cert)

-- The second exception names the path of the certificate.
unfoldable pub check_key : Computer → (cert key : Text) → Result SecurityError (Unit {0})
check_key computer cert key =
    throw_if (empty key) missing_key >> throw_if (not (computer.file_exists key)) (no_key_at cert)

-- A body that is left by the exceptions of its checks.
abbrev pub guarded :
    Result SecurityError (Unit {0})
    → Security
    → Security × Option SecurityError
    → Security × Option SecurityError
guarded (err e) security body = (security, some e)
guarded (ok checked) security body = body

-- From the call that loads the key on. What the library answers for the certificate is not looked at.
unfoldable pub load_own :
    Computer → (cert key passphrase : Text) → Security → Security × Option SecurityError
unfolding passphrase_of key_refused
load_own computer cert key passphrase security =
    let loaded = computer.loads_key key (passphrase_of passphrase) in
    let with_key = configure (own_key key (passphrase_of passphrase) loaded) security in
    if loaded
    then (configure (own_certificate cert) with_key, none)
    else (with_key, some (key_refused passphrase))

unfoldable pub set_certificate :
    Computer → (cert key passphrase : Text) → Security → Security × Option SecurityError
unfolding load_own check_certificate check_key
set_certificate computer cert key passphrase security =
    guarded (check_certificate computer cert >> check_key computer cert key) security
      (load_own computer cert key passphrase security)

unfoldable pub set_ca_certificate :
    Computer → (cert : Text) → Security → Security × Option SecurityError
unfolding check_certificate
set_ca_certificate computer cert security =
    guarded (check_certificate computer cert) security
      (configure (ca_certificate cert) security, none)

unfoldable pub add_allowed_certificate :
    Computer → (cert : Text) → Security → Security × Option SecurityError
unfolding check_certificate
add_allowed_certificate computer cert security =
    guarded (check_certificate computer cert) security
      (configure (allowed_certificate cert) security, none)

unfoldable pub set_version : (min max : ℕ) → Security → Security
set_version min max security = configure (max_version max) (configure (min_version min) security)
