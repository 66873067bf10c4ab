-- ===== src/Scenarios/Securities.antt =====
-- A configuration with an own certificate, and calls that fail.
use iec104_python.Base.{◌≡◌, refl, Bool, not, true, false, List, [], ◌∷◌, Option, none, some}
use iec104_python.Text.{Text, codes, same_text}
use iec104_python.Security.{
  SecurityError, Computer, own_key, own_certificate, max_version, min_version, new_security,
  no_key_at, set_certificate, check_certificate, check_key, load_own, passphrase_of, set_version,
  set_ca_certificate, Security,
}
use iec104_python.Security.Soundness.{
  Call, certificate, ca, version, call, calls, IsSecure, calls-IsSecure,
}
use iec104_python.Security.Outcome.{IsOutcome, set_certificate-IsOutcome}

abbrev opens : Option Text → Bool
opens none = true
opens (some passphrase) = same_text passphrase (codes "secret")

-- There is everything but one key, and keys have the passphrase "secret" or none.
abbrev computer : Computer
computer = record {
  file_exists = λ path. not (same_text path (codes "no.key"));
  loads_key = λ path passphrase. opens passphrase;
}

abbrev some_calls : List Call
some_calls =
    certificate computer (codes "a.crt") (codes "no.key") []
    ∷ certificate computer (codes "a.crt") (codes "a.key") (codes "secret")
    ∷ ca computer []
    ∷ version 5 6
    ∷ []

calls_config :
    (calls some_calls (new_security true false)).config
    ≡ max_version 6
      ∷ min_version 5
      ∷ own_certificate (codes "a.crt")
      ∷ own_key (codes "a.key") (some (codes "secret")) true
      ∷ (new_security true false).config
unfolding calls call set_certificate check_certificate check_key load_own passphrase_of set_version
    set_ca_certificate same_text
calls_config = refl

calls-IsSecure_example : IsSecure true false (calls some_calls (new_security true false))
calls-IsSecure_example = calls-IsSecure true false some_calls

-- The exception for a missing key names the certificate.
missing_key_message :
    set_certificate computer (codes "a.crt") (codes "no.key") [] (new_security true true)
    ≡ (new_security true true, some (no_key_at (codes "a.crt")))
unfolding set_certificate check_certificate check_key same_text
missing_key_message = refl

abbrev refused : Security × Option SecurityError
refused =
    set_certificate computer (codes "a.crt") (codes "a.key") (codes "wrong")
      (new_security true true)

set_certificate-IsOutcome_example :
    IsOutcome computer
      (codes "a.crt")
      (codes "a.key")
      (codes "wrong")
      (new_security true true)
      refused.0
      refused.1
set_certificate-IsOutcome_example =
    set_certificate-IsOutcome computer (codes "a.crt") (codes "a.key") (codes "wrong")
      (new_security true true)
