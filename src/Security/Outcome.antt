-- ===== src/Security/Outcome.antt =====
-- How `setCertificate` of src/remote/TransportSecurity.cpp ends.
use iec104_python.Base.{
  arith, ◌↔◌, ◌≡◌, ◌⊎◌, inl, inr, refl, Bool, true, false, ◌∷◌, Option, none, some, Result, ok, err,
  ◌>>◌,
}
use iec104_python.Text.{Text}
use iec104_python.Security.{
  Security, Computer, SecurityError, own_key, own_certificate, empty, key_refused, passphrase_of,
  load_own, set_certificate, check_certificate, check_key, guarded,
}

-- What a certificate with its key needs.
abbrev pub IsUsable : Computer → (cert key passphrase : Text) → Type 0
IsUsable computer cert key passphrase =
    (empty cert ≡ false)
    × (computer.file_exists cert ≡ true)
    × (empty key ≡ false)
    × (computer.file_exists key ≡ true)
    × (computer.loads_key key (passphrase_of passphrase) ≡ true)

-- How `set_certificate` can end.
abbrev pub IsOutcome :
    Computer → (cert key passphrase : Text) → Security → Security → Option SecurityError → Type 0
IsOutcome computer cert key passphrase before after none =
    IsUsable computer cert key passphrase
    × (after.config
        ≡ own_certificate cert ∷ own_key key (passphrase_of passphrase) true ∷ before.config)
IsOutcome computer cert key passphrase before after (some e) =
    ¬ IsUsable computer cert key passphrase
    × ((after ≡ before)
        ⊎ ((after.config ≡ own_key key (passphrase_of passphrase) false ∷ before.config)
            × (e ≡ key_refused passphrase)))

guarded-IsOutcome :
    (computer : Computer) (cert key passphrase : Text) (s : Security)
    (checks : Result SecurityError (Unit {0})) (loaded : Bool)
    → ((checks ≡ ok tt) ↔ (
        (empty cert ≡ false)
        × (computer.file_exists cert ≡ true)
        × (empty key ≡ false)
        × (computer.file_exists key ≡ true)))
    → (computer.loads_key key (passphrase_of passphrase) ≡ loaded)
    → let (s', e) = guarded checks s (load_own computer cert key passphrase s) in
      IsOutcome computer cert key passphrase s s' e
unfolding load_own
guarded-IsOutcome computer cert key passphrase s (err x) loaded (f, g) h =
    ((λ (c, d, k, l, m). absurd (cc (g (c, d, k, l)))), inl refl)
guarded-IsOutcome computer cert key passphrase s (ok tt) true (f, g) h =
    let (c, d, k, l) = f refl in rw h ((c, d, k, l, h), refl)
guarded-IsOutcome computer cert key passphrase s (ok tt) false (f, g) h =
    rw h ((λ (c, d, k, l, m). absurd (cc (h, m))), inr (refl, refl))

-- Setting the own certificate succeeds exactly if the paths of the certificate and of the key are not
-- empty and name files, and the library can load the key with the passphrase, where an empty one means
-- none. It then makes two calls of the library, one for the key and after it one for the certificate.
-- Otherwise it throws; where a check of the paths fails, the configuration is as before, and else the
-- call for the key is the only one.
pub set_certificate-IsOutcome :
    (computer : Computer) (cert key passphrase : Text) (security : Security)
    → let (after, result) = set_certificate computer cert key passphrase security in
      IsOutcome computer cert key passphrase security after result
unfolding set_certificate check_certificate check_key
set_certificate-IsOutcome computer cert key passphrase security =
    guarded-IsOutcome computer cert key passphrase security
      (check_certificate computer cert >> check_key computer cert key)
      (computer.loads_key key (passphrase_of passphrase)) (ground arith) refl
