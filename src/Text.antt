-- ===== src/Text.antt =====
-- Texts as lists of character codes, and those that src/remote/Helper.cpp and src/types.cpp make or
-- check: the decimal form of a number, the text that names a connection, and the range of a port.
use Prim.Native.Char.{code}
use Prim.Native.String.{String}
use iec104_python.Base.{
  ℕ, zero, suc, ◌+◌, ◌-◌, ◌*◌, ◌/◌, ◌%◌, ◌^◌, ◌<◌, ◌≡◌, ◌≢◌, refl, ap, sym, subst, ◌∙◌, Bool, true,
  false, not, Bool-cases, inl, inr, ◌==◌, ==_iff, ◌&&◌, ◌||◌, ltb, if◌then◌else◌, List, [], ◌∷◌,
  ◌++◌, All, arith,
}
use iec104_python.Protocol.{default_port}

abbrev pub Text : Type 0
Text = List ℕ

-- The codes of a literal text of the source.
abbrev pub codes : String → Text
codes String.[] = []
codes (String.◌∷◌ c s) = code c ∷ codes s

unfoldable pub same_text : Text → Text → Bool
same_text [] [] = true
same_text [] (d ∷ ds) = false
same_text (c ∷ cs) [] = false
same_text (c ∷ cs) (d ∷ ds) = let rest = same_text cs ds in if c == d then rest else false

pub same_text-eq : (xs ys : Text) → same_text xs ys ≡ true → xs ≡ ys
unfolding same_text
same_text-eq [] [] h = refl
same_text-eq [] (y ∷ ys) h = cc
same_text-eq (x ∷ xs) [] h = cc
same_text-eq (x ∷ xs) (y ∷ ys) h = ground (arith, same_text-eq xs ys)

pub same_text_refl : (xs : Text) → same_text xs xs ≡ true
unfolding same_text
same_text_refl [] = refl
same_text_refl (x ∷ xs) = ground (arith, same_text_refl xs)

-- The fuel bounds the digits after the first.
unfoldable digits : (fuel : ℕ) → ℕ → Text
digits zero n = (48 + n) ∷ []
digits (suc fuel) n =
    let front = digits fuel (n / 10) in
    if ltb n 10 then (48 + n) ∷ [] else front ++ (48 + n % 10) ∷ []

-- `std::to_string`: a number of 64 bits has at most 20 digits.
unfoldable pub to_string : ℕ → Text
unfolding digits
to_string n = digits 19 n

-- The text that names a connection; 58 is the colon.
unfoldable pub connection_string : (ip : Text) → (port : ℕ) → Text
unfolding to_string
connection_string ip port =
    let with_default = ip ++ 58 ∷ to_string default_port in
    let with_port = ip ++ 58 ∷ to_string port in if port == 0 then with_default else with_port

unfoldable pub is_valid_port : ℕ → Bool
is_valid_port port = not (ltb port 1 || ltb 65534 port)

abbrev pub read_digits : (acc : ℕ) → Text → ℕ
read_digits acc [] = acc
read_digits acc (c ∷ cs) = read_digits (acc * 10 + (c - 48)) cs

read_digits-append :
    (acc c : ℕ) (cs : Text) → read_digits acc (cs ++ c ∷ []) ≡ read_digits acc cs * 10 + (c - 48)
read_digits-append acc c [] = refl
read_digits-append acc c (d ∷ cs) = read_digits-append (acc * 10 + (d - 48)) c cs

-- The numbers of at most so many digits after the first.
bound : ℕ → ℕ
bound zero = 10
bound (suc fuel) = 10 * bound fuel

read_digits-digits : (fuel n : ℕ) → n < bound fuel → read_digits 0 (digits fuel n) ≡ n
unfolding digits bound
read_digits-digits zero n h = omega arith
read_digits-digits (suc fuel) n h = elim (Bool-cases (ltb n 10)) [
  | inl small ↦ rw small (omega arith)
  | inr large ↦
      let rest = n / 10 in
      let ih = read_digits-digits fuel (n / 10) (omega (arith, h)) in
      rw (large, read_digits-append 0 (48 + n % 10) (digits fuel (n / 10)), ih) (omega arith)
]

to_string-injective : (n m : ℕ) → n < 2 ^ 64 → m < 2 ^ 64 → to_string n ≡ to_string m → n ≡ m
unfolding to_string bound
to_string-injective n m h k e =
    sym (read_digits-digits 19 n (omega (arith, h)))
    ∙ ap (read_digits 0) e
    ∙ read_digits-digits 19 m (omega (arith, k))

-- A text without a colon.
abbrev pub NoColon : Text → Type 0
NoColon = All λ c. c ≢ 58

colon-injective :
    (xs ys us vs : Text)
    → NoColon xs
    → NoColon ys
    → xs ++ 58 ∷ us ≡ ys ++ 58 ∷ vs
    → (xs ≡ ys) × (us ≡ vs)
colon-injective [] [] us vs h k e = (refl, cc e)
colon-injective [] (y ∷ ys) us vs h k e = absurd (k.0 (cc e))
colon-injective (x ∷ xs) [] us vs h k e = absurd (h.0 (cc e))
colon-injective (x ∷ xs) (y ∷ ys) us vs h k e =
    let (same, rest) = colon-injective xs ys us vs h.1 k.1 (cc e) in (cc (e, same), rest)

-- The port that a connection has.
abbrev pub port_or_default : ℕ → ℕ
port_or_default port = if port == 0 then default_port else port

connection_string-default :
    (ip : Text) (port : ℕ) → connection_string ip port ≡ ip ++ 58 ∷ to_string (port_or_default port)
unfolding connection_string
connection_string-default ip port = ground arith

iff_eq : (a b : Bool) → (a ≡ true → b ≡ true) → (b ≡ true → a ≡ true) → a ≡ b
iff_eq true b f g = sym (f refl)
iff_eq false true f g = g refl
iff_eq false false f g = refl

connection_string-injective :
    (ip other : Text) (port q : ℕ)
    → NoColon ip
    → NoColon other
    → port < 2 ^ 64
    → q < 2 ^ 64
    → connection_string ip port ≡ connection_string other q
    → (ip ≡ other) × (port_or_default port ≡ port_or_default q)
connection_string-injective ip other port q h k n m e =
    let e' = sym (connection_string-default ip port) ∙ e ∙ connection_string-default other q in
    let (same, digits) =
      colon-injective ip other (to_string (port_or_default port)) (to_string (port_or_default q)) h
        k e' in
    (
      same,
      to_string-injective (port_or_default port) (port_or_default q) (ground (arith, n))
          (ground (arith, m)) digits,
    )

-- Two connections have the same name exactly if they have the same address and the same port, where 0
-- stands for the default port.
pub same_text-connection_string :
    (ip other : Text) (port q : ℕ)
    → NoColon ip
    → NoColon other
    → port < 2 ^ 64
    → q < 2 ^ 64
    → same_text (connection_string ip port) (connection_string other q)
      ≡ (same_text ip other && (port_or_default port == port_or_default q))
same_text-connection_string ip other port q h k n m =
    iff_eq (same_text (connection_string ip port) (connection_string other q))
      (same_text ip other && (port_or_default port == port_or_default q))
      (λ named.
        let e = same_text-eq (connection_string ip port) (connection_string other q) named in
        let (same, ports) = connection_string-injective ip other port q h k n m e in
        ground (arith, subst (λ t. same_text ip t ≡ true) same (same_text_refl ip), ports))
      (λ both.
        let same = same_text-eq ip other (ground (arith, both)) in
        let ports : port_or_default port ≡ port_or_default q =
          (==_iff (port_or_default port) (port_or_default q)).0 (ground (arith, both)) in
        let named : connection_string ip port ≡ connection_string other q =
          connection_string-default ip port
          ∙ ap (λ t. t ++ 58 ∷ to_string (port_or_default port)) same
          ∙ ap (λ n. other ++ 58 ∷ to_string n) ports
          ∙ sym (connection_string-default other q) in
        subst (λ t. same_text (connection_string ip port) t ≡ true) named
          (same_text_refl (connection_string ip port)))
