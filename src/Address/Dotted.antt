-- ===== src/Address/Dotted.antt =====
-- What `Assert_IPv4` of src/types.cpp accepts: "localhost", "lo", and four decimal octets with dots.
use mathlib.Core.List.{append_assoc}
use iec104_python.Base.{
  ℕ, ◌-◌, ◌+◌, ◌*◌, ◌≤◌, ◌≡◌, ◌↔◌, ◌⊎◌, inl, inr, refl, sym, subst, arith, Bool, Bool-cases, true,
  ◌||◌, leb, [], ◌∷◌, ◌++◌, ◌∙◌, length, All,
}
use iec104_python.Text.{Text, codes, read_digits, same_text, same_text-eq}
use iec104_python.Address.Pattern.{one_of, sequence, optional, Describes, matches, matches_iff}
use iec104_python.Address.Ip.{octet, digit, ipv4_regex, is_valid_ip}

abbrev pub IsDigit : ℕ → Type 0
IsDigit c = (48 ≤ c) × (c ≤ 57)

-- One to three digits, of a number up to 255; zeros may lead.
abbrev pub IsOctet : Text → Type 0
IsOctet w = (1 ≤ length w) × (length w ≤ 3) × All IsDigit w × (read_digits 0 w ≤ 255)

-- 46 is the dot.
abbrev pub dot : Text
dot = 46 ∷ []

abbrev pub dotted : (a b c d : Text) → Text
dotted a b c d = a ++ (dot ++ (b ++ (dot ++ (c ++ (dot ++ d)))))

abbrev pub IsDotted : Text → Type 0
IsDotted s =
    (a : Text) × (b : Text) × (c : Text) × (d : Text) × (s ≡ dotted a b c d)
    × IsOctet a
    × IsOctet b
    × IsOctet c
    × IsOctet d

three_digits-IsOctet :
    (a b c : ℕ)
    → IsDigit a
    → IsDigit b
    → IsDigit c
    → (a - 48) * 100 + (b - 48) * 10 + (c - 48) ≤ 255
    → IsOctet (a ∷ b ∷ c ∷ [])
three_digits-IsOctet a b c h k l small =
    (omega arith, omega arith, (h, (k, (l, tt))), omega (arith, h.0, k.0, l.0, small))

two_digits-IsOctet : (a b : ℕ) → IsDigit a → IsDigit b → IsOctet (a ∷ b ∷ [])
two_digits-IsOctet a b h k =
    (omega arith, omega arith, (h, (k, tt)), omega (arith, h.0, k.0, h.1, k.1))

one_digit-IsOctet : (a : ℕ) → IsDigit a → IsOctet (a ∷ [])
one_digit-IsOctet a h = (omega arith, omega arith, (h, tt), omega (arith, h.0, h.1))

renamed : (w w' : Text) → w ≡ w' → IsOctet w' → IsOctet w
renamed w w' e o = subst IsOctet (sym e) o

octet-IsOctet : (w : Text) → Describes octet w → IsOctet w
octet-IsOctet w (inl (u, v, e, (a, ea, la, ha), (u', v', e', (b, eb, lb, hb), (c, ec, lc, hc)))) =
    renamed w (a ∷ b ∷ c ∷ []) (cc (e, ea, e', eb, ec)) (
      three_digits-IsOctet a b c (omega arith, omega arith) (omega arith, omega arith)
        (omega arith, omega arith) (omega arith))
octet-IsOctet w
      (inr (inl (u, v, e, (a, ea, la, ha), (u', v', e', (b, eb, lb, hb), (c, ec, lc, hc))))) =
    renamed w (a ∷ b ∷ c ∷ []) (cc (e, ea, e', eb, ec)) (
      three_digits-IsOctet a b c (omega arith, omega arith) (omega arith, omega arith) (lc, hc)
        (omega arith))
octet-IsOctet w
      (inr
        (inr (u, v, e, inl (a, ea, la, ha), (u', v', e', (b, eb, lb, hb), inl (c, ec, lc, hc))))) =
    renamed w (a ∷ b ∷ c ∷ []) (cc (e, ea, e', eb, ec))
      (three_digits-IsOctet a b c (omega arith, omega arith) (lb, hb) (lc, hc) (omega arith))
octet-IsOctet w (inr (inr (u, v, e, inl (a, ea, la, ha), (u', v', e', (b, eb, lb, hb), inr ec)))) =
    renamed w (a ∷ b ∷ []) (cc (e, ea, e', eb, ec))
      (two_digits-IsOctet a b (omega arith, omega arith) (lb, hb))
octet-IsOctet w (inr (inr (u, v, e, inr ea, (u', v', e', (b, eb, lb, hb), inl (c, ec, lc, hc))))) =
    renamed w (b ∷ c ∷ []) (cc (e, ea, e', eb, ec)) (two_digits-IsOctet b c (lb, hb) (lc, hc))
octet-IsOctet w (inr (inr (u, v, e, inr ea, (u', v', e', (b, eb, lb, hb), inr ec)))) =
    renamed w (b ∷ []) (cc (e, ea, e', eb, ec)) (one_digit-IsOctet b (lb, hb))

-- A digit, as a text of its own.
one_of-Describes : (low high c : ℕ) → low ≤ c → c ≤ high → Describes (one_of low high) (c ∷ [])
one_of-Describes low high c l h = (c, refl, l, h)

digit-Describes :
    (b c : ℕ) → IsDigit b → IsDigit c → Describes (sequence digit (optional digit)) (b ∷ c ∷ [])
digit-Describes b c (l, h) (l', h') =
    (b ∷ [], c ∷ [], refl, one_of-Describes 48 57 b l h, inl (one_of-Describes 48 57 c l' h'))

-- Two or three digits in the order of the source: 250 to 255, 200 to 249, and those below 200.
octet-Describes : (w : Text) → IsOctet w → Describes octet w
octet-Describes [] (l, h, d, s) = absurd (omega (arith, l))
octet-Describes (a ∷ []) (l, h, ((low, high), u), s) = inr (
    inr
      ([], a ∷ [], refl, inr refl, (a ∷ [], [], refl, one_of-Describes 48 57 a low high, inr refl)))
octet-Describes (a ∷ b ∷ []) (l, h, (da, (db, u)), s) =
    inr (inr ([], a ∷ b ∷ [], refl, inr refl, digit-Describes a b da db))
octet-Describes (a ∷ b ∷ c ∷ []) (l, h, (da, (db, (dc, u))), s) = elim (Bool-cases (leb a 49)) [
  | inl low ↦ inr (
      inr (
        a ∷ [],
        b ∷ c ∷ [],
        refl,
        inl (one_of-Describes 48 49 a da.0 (ground (arith, low))),
        digit-Describes b c db dc,
      ))
  | inr high ↦
      let two : a ≡ 50 = ground (arith, high, s, da.1) in
      elim (Bool-cases (leb b 52)) [
        | inl below ↦ inr (
            inl (
              a ∷ [],
              b ∷ c ∷ [],
              refl,
              one_of-Describes 50 50 a (omega (arith, two)) (omega (arith, two)),
              (
                b ∷ [],
                c ∷ [],
                refl,
                one_of-Describes 48 52 b db.0 (ground (arith, below)),
                one_of-Describes 48 57 c dc.0 dc.1,
              ),
            ))
        | inr above ↦ inl (
          a ∷ [],
          b ∷ c ∷ [],
          refl,
          one_of-Describes 50 50 a (omega (arith, two)) (omega (arith, two)),
          (
            b ∷ [],
            c ∷ [],
            refl,
            one_of-Describes 53 53 b (ground (arith, above)) (omega (arith, s, two, dc.0)),
            one_of-Describes 48 53 c dc.0 (ground (arith, above, s, two)),
          ),
        )
      ]
]
octet-Describes (a ∷ b ∷ c ∷ d ∷ w) (l, h, ds, s) = absurd (omega (arith, h))

regroup : (a b c d : Text) → ((a ++ dot) ++ ((b ++ dot) ++ (c ++ dot))) ++ d ≡ dotted a b c d
regroup a b c d = simp append_assoc

ipv4_regex-IsDotted : (s : Text) → Describes ipv4_regex s → IsDotted s
ipv4_regex-IsDotted s
      (
        uvw,
        d,
        e,
        (
          au,
          bc,
          e1,
          (a, u, ea, oa, (x, ex, lx, hx)),
          (bv, cw, e2, (b, v, eb, ob, (y, ey, ly, hy)), (c, w, ec, oc, (z, ez, lz, hz))),
        ),
        od,
      ) =
    let x46 : x ≡ 46 = omega (arith, lx, hx) in
    let y46 : y ≡ 46 = omega (arith, ly, hy) in
    let z46 : z ≡ 46 = omega (arith, lz, hz) in
    (
      a,
      b,
      c,
      d,
      cc (e, e1, e2, ea, eb, ec, ex, ey, ez, x46, y46, z46, regroup a b c d),
      octet-IsOctet a oa,
      octet-IsOctet b ob,
      octet-IsOctet c oc,
      octet-IsOctet d od,
    )

ipv4_regex-Describes : (s : Text) → IsDotted s → Describes ipv4_regex s
ipv4_regex-Describes s (a, b, c, d, e, oa, ob, oc, od) = (
  (a ++ dot) ++ ((b ++ dot) ++ (c ++ dot)),
  d,
  e ∙ sym (regroup a b c d),
  (
    a ++ dot,
    (b ++ dot) ++ (c ++ dot),
    refl,
    (a, dot, refl, octet-Describes a oa, one_of-Describes 46 46 46 (omega arith) (omega arith)),
    (
      b ++ dot,
      c ++ dot,
      refl,
      (b, dot, refl, octet-Describes b ob, one_of-Describes 46 46 46 (omega arith) (omega arith)),
      (c, dot, refl, octet-Describes c oc, one_of-Describes 46 46 46 (omega arith) (omega arith)),
    ),
  ),
  octet-Describes d od,
)

or_last : (a b c : Bool) → c ≡ true → (a || b || c) ≡ true
or_last a b c h = ground (arith, h)

-- An address is accepted exactly if it is "localhost", "lo", or four octets with dots between them,
-- each of one to three digits and a number up to 255.
pub is_valid_ip_iff :
    (s : Text)
    → (is_valid_ip s ≡ true) ↔ ((s ≡ codes "localhost") ⊎ ((s ≡ codes "lo") ⊎ IsDotted s))
unfolding is_valid_ip
is_valid_ip_iff s =
    let (found, described) = matches_iff ipv4_regex s in
    (
      λ h. elim (Bool-cases (same_text s (codes "localhost"))) [
        | inl named ↦ inl (same_text-eq s (codes "localhost") named)
        | inr other ↦ elim (Bool-cases (same_text s (codes "lo"))) [
          | inl named ↦ inr (inl (same_text-eq s (codes "lo") named))
          | inr unnamed ↦
              inr (inr (ipv4_regex-IsDotted s (found (ground (arith, h, other, unnamed)))))
        ]
      ],
      elim [
        | inl named ↦ subst (λ t. is_valid_ip t ≡ true) (sym named) refl
        | inr (inl named) ↦ subst (λ t. is_valid_ip t ≡ true) (sym named) refl
        | inr (inr d) ↦
            or_last (same_text s (codes "localhost")) (same_text s (codes "lo"))
              (matches ipv4_regex s) (described (ipv4_regex-Describes s d))
      ],
    )
