-- ===== src/Flags/Reading.antt =====
-- The texts of src/enums.cpp say which flags are set.
use Prim.Native.Nat.{bit_and}
use iec104_python.Base.{
  ℕ, ◌+◌, ◌<◌, ◌≡◌, refl, arith, Bool, true, false, ◌==◌, ==_iff, ◌&&◌, if◌then◌else◌, List, [],
  ◌∷◌, Option, none, some, table, table-entry,
}
use iec104_python.Text.{Text, same_text}
use iec104_python.Message.Outgoing.{test_flag}
use iec104_python.Flags.{
  Flags, debug_flags, quality_flags, set_names, accumulate, joined, debug_to_string,
  debug_to_flag_string, quality_to_string,
}

-- The words between spaces.
abbrev add_character : ℕ → List Text → List Text
add_character c [] = (c ∷ []) ∷ []
add_character c (w ∷ ws) = (c ∷ w) ∷ ws

abbrev words : Text → List Text
words [] = [] ∷ []
words (c ∷ cs) = let rest = words cs in if c == 32 then [] ∷ rest else add_character c rest

abbrev flag_of : Flags → Text → ℕ
flag_of [] word = 0
flag_of ((flag, name) ∷ flags) word = if same_text name word then flag else flag_of flags word

abbrev sum_of : Flags → List Text → ℕ
sum_of flags [] = 0
sum_of flags (word ∷ ws) = flag_of flags word + sum_of flags ws

-- The sum of the flags whose names stand in the text.
abbrev pub read_flags : Flags → Option Text → Option ℕ
read_flags flags none = none
read_flags flags (some t) = some (sum_of flags (words t))

abbrev same : Option ℕ → Option ℕ → Bool
same none none = true
same (some a) (some b) = a == b
same _ _ = false

-- Quality has no name for the bit 0x02.
abbrev pub named_quality : ℕ → Option ℕ
named_quality quality = if quality == 2 then none else some (bit_and quality 0xFD)

abbrev is_read : ℕ → Bool
is_read mode =
    same (read_flags debug_flags (debug_to_flag_string mode)) (some mode)
    && same (read_flags debug_flags (debug_to_string mode)) (some mode)
    && same (read_flags quality_flags (quality_to_string mode)) (named_quality mode)

all_read : table is_read 256 ≡ true
unfolding table debug_to_flag_string debug_to_string quality_to_string set_names joined accumulate
    test_flag same_text
all_read = refl

same-eq : (a b : Option ℕ) → same a b ≡ true → a ≡ b
same-eq none none h = refl
same-eq none (some b) h = absurd (cc h)
same-eq (some a) none h = absurd (cc h)
same-eq (some a) (some b) h = cc ((==_iff a b).0 h)

all_three : (a b c : Bool) → (a && b && c) ≡ true → (a ≡ true) × (b ≡ true) × (c ≡ true)
all_three a b c h = ground arith

-- The flags that are named in the text of a debug mode, in either form, are those of the mode. Those
-- named in the text of a quality are its bits but for 0x02, which has no name; of a quality with that
-- bit alone there is no text, as the code takes the first of no names. Modes and qualities have eight
-- bits.
pub read_flags-to_string :
    (n : ℕ)
    → n < 256
    → (read_flags debug_flags (debug_to_flag_string n) ≡ some n)
      × (read_flags debug_flags (debug_to_string n) ≡ some n)
      × (read_flags quality_flags (quality_to_string n) ≡ named_quality n)
read_flags-to_string n lt =
    let (a, b, c) =
      all_three (same (read_flags debug_flags (debug_to_flag_string n)) (some n))
        (same (read_flags debug_flags (debug_to_string n)) (some n))
        (same (read_flags quality_flags (quality_to_string n)) (named_quality n))
        (table-entry is_read 256 lt all_read) in
    (same-eq _ _ a, same-eq _ _ b, same-eq _ _ c)
