-- ===== src/Address/Colons.antt =====
-- The addresses that `Assert_IPv4` of src/types.cpp accepts have no colon, so that the text of src/remote/Helper.cpp
-- that names a connection can be taken apart.
use iec104_python.Base.{
  ℕ, ◌≡◌, ◌≢◌, inl, inr, refl, sym, subst, arith, true, false, [], ◌∷◌, ◌++◌, elem, All,
}
use iec104_python.Text.{NoColon, Text, codes}
use iec104_python.Address.Ip.{is_valid_ip}
use iec104_python.Address.Dotted.{IsDigit, IsOctet, IsDotted, dot, is_valid_ip_iff}

All-append : (P : ℕ → Type 0) (xs ys : Text) → All P xs → All P ys → All P (xs ++ ys)
All-append P [] ys h k = k
All-append P (x ∷ xs) ys h k = (h.0, All-append P xs ys h.1 k)

digits-NoColon : (w : Text) → All IsDigit w → NoColon w
digits-NoColon [] h = tt
digits-NoColon (c ∷ cs) (d, ds) = (λ e. absurd (omega (arith, e, d.1)), digits-NoColon cs ds)

free-NoColon : (w : Text) → elem 58 w ≡ false → NoColon w
free-NoColon [] h = tt
free-NoColon (c ∷ cs) h = (λ e. ground (arith, h, e), free-NoColon cs (ground (arith, h)))

dot-NoColon : (s : Text) → NoColon s → NoColon (dot ++ s)
dot-NoColon s h = (λ e. absurd (omega (arith, e)), h)

dotted-NoColon : (s : Text) → IsDotted s → NoColon s
dotted-NoColon s (a, b, c, d, e, oa, ob, oc, od) =
    let octets = λ (w rest : Text) (o : IsOctet w) (h : NoColon rest).
      All-append (λ x. x ≢ 58) w rest (digits-NoColon w o.2) h in
    subst NoColon (sym e) (
      octets a _ oa (
        dot-NoColon _
          (octets b _ ob (dot-NoColon _ (octets c _ oc (dot-NoColon d (digits-NoColon d od.2)))))))

-- No accepted address has a colon.
pub is_valid_ip-NoColon : (s : Text) → is_valid_ip s ≡ true → NoColon s
is_valid_ip-NoColon s h = elim ((is_valid_ip_iff s).0 h) [
  | inl named ↦ subst NoColon (sym named) (free-NoColon (codes "localhost") refl)
  | inr (inl named) ↦ subst NoColon (sym named) (free-NoColon (codes "lo") refl)
  | inr (inr d) ↦ dotted-NoColon s d
]
