-- ===== src/Security/Soundness.antt =====
-- What any calls of the methods of src/remote/TransportSecurity.cpp leave in a configuration.
use iec104_python.Base.{
  arith, ℕ, ◌≡◌, ◌≢◌, inl, inr, refl, Bool, Bool-cases, true, false, List, [], ◌∷◌, ◌++◌, ap, ◌∙◌,
  Option, none, some, Result, ok, err, ◌>>◌,
}
use iec104_python.Text.{Text}
use iec104_python.Security.{
  Setting, Security, Computer, SecurityError, own_key, own_certificate, ca_certificate,
  allowed_certificate, configure, empty, new_security, passphrase_of, load_own, set_certificate,
  set_ca_certificate, check_certificate, check_key, guarded, add_allowed_certificate, set_version,
  min_version, max_version, event_handler, chain_validation, allow_only_known, session_resumption,
  resumption_interval,
}

pub data Call : Type 0 where
  certificate : Computer → (cert key passphrase : Text) → Call
  ca allowed : Computer → (cert : Text) → Call
  version : (min max : ℕ) → Call

unfoldable pub call : Call → Security → Security × Option SecurityError
unfolding set_certificate set_ca_certificate add_allowed_certificate set_version
call (certificate computer cert key passphrase) s = set_certificate computer cert key passphrase s
call (ca computer cert) s = set_ca_certificate computer cert s
call (allowed computer cert) s = add_allowed_certificate computer cert s
call (version min max) s = (set_version min max s, none)

-- The calls go on after an exception.
unfoldable pub calls : List Call → Security → Security
unfolding call
calls [] s = s
calls (c ∷ cs) s = calls cs (call c s).0

-- The last call has loaded a key.
abbrev pub IsLoaded : List Setting → Type 0
IsLoaded (own_key key passphrase loaded ∷ before) = loaded ≡ true
IsLoaded _ = ⊥

-- A setting is made after those before it: no path is empty, no empty passphrase is tried, and an own
-- certificate is set directly after its key has been loaded.
abbrev pub IsAllowed : Setting → List Setting → Type 0
IsAllowed (own_key key passphrase loaded) before = (empty key ≡ false) × (passphrase ≢ some [])
IsAllowed (own_certificate cert) before = (empty cert ≡ false) × IsLoaded before
IsAllowed (ca_certificate cert) before = empty cert ≡ false
IsAllowed (allowed_certificate cert) before = empty cert ≡ false
IsAllowed _ before = Unit {0}

abbrev pub IsOrdered : List Setting → Type 0
IsOrdered [] = Unit
IsOrdered (s ∷ before) = IsAllowed s before × IsOrdered before

-- What the library has last been told of the two choices.
abbrev pub last_validation : List Setting → Option Bool
last_validation [] = none
last_validation (chain_validation validate ∷ before) = some validate
last_validation (_ ∷ before) = last_validation before

abbrev pub last_only_known : List Setting → Option Bool
last_only_known [] = none
last_only_known (allow_only_known only_known ∷ before) = some only_known
last_only_known (_ ∷ before) = last_only_known before

-- The configuration was made with these two choices, which still hold, and the calls since are in order.
abbrev pub IsSecure : (validate only_known : Bool) → Security → Type 0
IsSecure validate only_known s =
    IsOrdered s.config
    × (last_validation s.config ≡ some validate)
    × (last_only_known s.config ≡ some only_known)
    × ((since : List Setting) × (s.config ≡ since ++ (new_security validate only_known).config))

abbrev is_choice : Setting → Bool
is_choice (chain_validation validate) = true
is_choice (allow_only_known only_known) = true
is_choice _ = false

last-kept :
    (x : Setting) (before : List Setting)
    → is_choice x ≡ false
    → (last_validation (x ∷ before) ≡ last_validation before)
      × (last_only_known (x ∷ before) ≡ last_only_known before)
last-kept (chain_validation validate) before h = absurd (cc h)
last-kept (allow_only_known only_known) before h = absurd (cc h)
last-kept event_handler before h = (refl, refl)
last-kept (session_resumption resumes) before h = (refl, refl)
last-kept (resumption_interval seconds) before h = (refl, refl)
last-kept (own_key key passphrase loaded) before h = (refl, refl)
last-kept (own_certificate cert) before h = (refl, refl)
last-kept (ca_certificate cert) before h = (refl, refl)
last-kept (allowed_certificate cert) before h = (refl, refl)
last-kept (min_version v) before h = (refl, refl)
last-kept (max_version v) before h = (refl, refl)

configure-IsSecure :
    (validate only_known : Bool) (x : Setting) (s : Security)
    → is_choice x ≡ false
    → IsAllowed x s.config
    → IsSecure validate only_known s
    → IsSecure validate only_known (configure x s)
configure-IsSecure validate only_known x s plain fits (ordered, v, k, (since, e)) =
    let (same_v, same_k) = last-kept x s.config plain in
    ((fits, ordered), same_v ∙ v, same_k ∙ k, (x ∷ since, ap (λ xs. x ∷ xs) e))

passphrase_of-filled : (passphrase : Text) → passphrase_of passphrase ≢ some []
unfolding passphrase_of
passphrase_of-filled [] = λ e. cc e
passphrase_of-filled (c ∷ cs) = λ e. cc e

filled_of_check :
    (computer : Computer) (cert : Text)
    → check_certificate computer cert ≡ ok tt
    → empty cert ≡ false
unfolding check_certificate
filled_of_check computer cert h = ground (arith, h)

filled_of_checks :
    (computer : Computer) (cert key : Text)
    → (check_certificate computer cert >> check_key computer cert key) ≡ ok tt
    → (empty cert ≡ false) × (empty key ≡ false)
unfolding check_certificate check_key
filled_of_checks computer cert key h = ground (arith, h)

module _ (validate only_known : Bool) where
  load_own-IsSecure :
      (computer : Computer) (cert key passphrase : Text) (s : Security)
      → empty cert ≡ false
      → empty key ≡ false
      → IsSecure validate only_known s
      → IsSecure validate only_known (load_own computer cert key passphrase s).0
  unfolding load_own
  load_own-IsSecure computer cert key passphrase s c k secure =
      let tried = own_key key (passphrase_of passphrase) in
      let keyed = λ (loaded : Bool).
        configure-IsSecure validate only_known (tried loaded) s refl
          (k, passphrase_of-filled passphrase) secure in
      elim (Bool-cases (computer.loads_key key (passphrase_of passphrase))) [
        | inl h ↦ rw h (
            configure-IsSecure validate only_known (own_certificate cert) (configure (tried true) s)
              refl (c, refl) (keyed true))
        | inr h ↦ rw h (keyed false)
      ]

  -- A body that is in order after its checks is in order as it stands.
  guarded-IsSecure :
      (checks : Result SecurityError (Unit {0})) (s : Security)
      (body : Security × Option SecurityError)
      → IsSecure validate only_known s
      → (checks ≡ ok tt → IsSecure validate only_known body.0)
      → IsSecure validate only_known (guarded checks s body).0
  guarded-IsSecure (err e) s body secure after = secure
  guarded-IsSecure (ok tt) s body secure after = after refl

  set_certificate-IsSecure :
      (computer : Computer) (cert key passphrase : Text) (s : Security)
      → IsSecure validate only_known s
      → IsSecure validate only_known (set_certificate computer cert key passphrase s).0
  unfolding set_certificate
  set_certificate-IsSecure computer cert key passphrase s secure =
      guarded-IsSecure (check_certificate computer cert >> check_key computer cert key) s
        (load_own computer cert key passphrase s) secure
        (λ checked.
          let (c, k) = filled_of_checks computer cert key checked in
          load_own-IsSecure computer cert key passphrase s c k secure)

  add_certificate-IsSecure :
      (x : Setting) (computer : Computer) (cert : Text) (s : Security)
      → is_choice x ≡ false
      → (empty cert ≡ false → IsAllowed x s.config)
      → IsSecure validate only_known s
      → IsSecure validate only_known
          (guarded (check_certificate computer cert) s (configure x s, none)).0
  add_certificate-IsSecure x computer cert s plain fits secure =
      guarded-IsSecure (check_certificate computer cert) s (configure x s, none) secure
        (λ checked.
          configure-IsSecure validate only_known x s plain
            (fits (filled_of_check computer cert checked)) secure)

  call-IsSecure :
      (c : Call) (s : Security)
      → IsSecure validate only_known s
      → IsSecure validate only_known (call c s).0
  unfolding call set_version set_ca_certificate add_allowed_certificate
  call-IsSecure (certificate computer cert key passphrase) s secure =
      set_certificate-IsSecure computer cert key passphrase s secure
  call-IsSecure (ca computer cert) s secure =
      add_certificate-IsSecure (ca_certificate cert) computer cert s refl (λ h. h) secure
  call-IsSecure (allowed computer cert) s secure =
      add_certificate-IsSecure (allowed_certificate cert) computer cert s refl (λ h. h) secure
  call-IsSecure (version min max) s secure =
      configure-IsSecure validate only_known (max_version max) (configure (min_version min) s) refl
        tt (configure-IsSecure validate only_known (min_version min) s refl tt secure)

  calls-from-IsSecure :
      (cs : List Call) (s : Security)
      → IsSecure validate only_known s
      → IsSecure validate only_known (calls cs s)
  unfolding calls
  calls-from-IsSecure [] s secure = secure
  calls-from-IsSecure (c ∷ cs) s secure =
      calls-from-IsSecure cs (call c s).0 (call-IsSecure c s secure)

-- Whatever methods are called on a new configuration, in whatever order, with whatever files there are
-- at the time and whatever exceptions are thrown: it keeps the choices that it was made with, no empty
-- path or passphrase reaches the library, and an own certificate is set only directly after its key has
-- been loaded.
pub calls-IsSecure :
    (validate only_known : Bool) (cs : List Call)
    → IsSecure validate only_known (calls cs (new_security validate only_known))
unfolding new_security
calls-IsSecure validate only_known cs =
    calls-from-IsSecure validate only_known cs (new_security validate only_known)
      ((tt, (tt, (tt, (tt, (tt, tt))))), refl, refl, ([], refl))
