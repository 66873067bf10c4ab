-- ===== src/Flags/Switches.antt =====
-- The debug mode of src/types.cpp after calls of `enableDebug` and `disableDebug`, and what
-- `printDebugMessage` prints then.
use iec104_python.Base.{
  ℕ, ◌<◌, ◌^◌, ◌≡◌, ◌∙◌, refl, arith, Bool, true, false, not, ◌==◌, ltb, ltb→lt, ◌&&◌, ◌||◌, List,
  [], ◌∷◌, All, none, some, Option, Option-cases, Bool-cases, inl, inr, ap, table, table-entry,
}
use iec104_python.Text.{Text}
use iec104_python.Message.Outgoing.{test_flag}
use iec104_python.Flags.{
  enable_debug, disable_debug, Printed, line, print_debug_message, debug_to_flag_string, set_names,
  joined,
}

-- A call with one of the eight modes, by the number of its bit.
pub data Switch : Type 0 where
  on off : ℕ → Switch

abbrev pub bit_of : Switch → ℕ
bit_of (on i) = i
bit_of (off i) = i

unfoldable pub switched : Switch → ℕ → ℕ
unfolding enable_debug disable_debug
switched (on i) debug = enable_debug (2 ^ i) debug
switched (off i) debug = disable_debug (2 ^ i) debug

unfoldable pub all_switched : List Switch → ℕ → ℕ
unfolding switched
all_switched [] debug = debug
all_switched (s ∷ ss) debug = all_switched ss (switched s debug)

-- What the last call that names a mode says of it.
abbrev pub says : ℕ → Switch → Bool → Bool
says j (on i) before = (i == j) || before
says j (off i) before = not (i == j) && before

abbrev pub last_said : ℕ → List Switch → Bool → Bool
last_said j [] before = before
last_said j (s ∷ ss) before = last_said j ss (says j s before)

abbrev agree : Bool → Bool → Bool
agree true b = b
agree false b = not b

agree-eq : (a b : Bool) → agree a b ≡ true → a ≡ b
agree-eq true true h = refl
agree-eq true false h = absurd (cc h)
agree-eq false true h = absurd (cc h)
agree-eq false false h = refl

abbrev is_switched : (i j debug : ℕ) → Bool
is_switched i j debug =
    agree (test_flag (enable_debug (2 ^ i) debug) (2 ^ j)) ((i == j) || test_flag debug (2 ^ j))
    && agree (test_flag (disable_debug (2 ^ i) debug) (2 ^ j))
        (not (i == j) && test_flag debug (2 ^ j))
    && ltb (enable_debug (2 ^ i) debug) 256
    && ltb (disable_debug (2 ^ i) debug) 256

facts_hold : table (λ n. table (λ i. table (λ j. is_switched i j n) 8) 8) 256 ≡ true
unfolding table enable_debug disable_debug test_flag
facts_hold = refl

all_four :
    (a b c d : Bool) → (a && b && c && d) ≡ true → (a ≡ true) × (b ≡ true) × (c ≡ true) × (d ≡ true)
all_four a b c d h = ground arith

switch_facts :
    (i j debug : ℕ)
    → i < 8
    → j < 8
    → debug < 256
    → (test_flag (enable_debug (2 ^ i) debug) (2 ^ j) ≡ ((i == j) || test_flag debug (2 ^ j)))
      × (test_flag (disable_debug (2 ^ i) debug) (2 ^ j)
          ≡ (not (i == j) && test_flag debug (2 ^ j)))
      × (enable_debug (2 ^ i) debug < 256)
      × (disable_debug (2 ^ i) debug < 256)
switch_facts i j debug li lj ld =
    let row =
      table-entry (λ n. table (λ i. table (λ j. is_switched i j n) 8) 8) 256 ld facts_hold in
    let cell = table-entry (λ i. table (λ j. is_switched i j debug) 8) 8 li row in
    let (a, b, c, d) =
      all_four
        (agree (test_flag (enable_debug (2 ^ i) debug) (2 ^ j))
          ((i == j) || test_flag debug (2 ^ j)))
        (agree (test_flag (disable_debug (2 ^ i) debug) (2 ^ j))
          (not (i == j) && test_flag debug (2 ^ j)))
        (ltb (enable_debug (2 ^ i) debug) 256) (ltb (disable_debug (2 ^ i) debug) 256)
        (table-entry (λ j. is_switched i j debug) 8 lj cell) in
    (agree-eq _ _ a, agree-eq _ _ b, ltb→lt _ _ c, ltb→lt _ _ d)

switched-says :
    (s : Switch) (j debug : ℕ)
    → bit_of s < 8
    → j < 8
    → debug < 256
    → (test_flag (switched s debug) (2 ^ j) ≡ says j s (test_flag debug (2 ^ j)))
      × (switched s debug < 256)
unfolding switched
switched-says (on i) j debug li lj ld = let (a, b, c, d) = switch_facts i j debug li lj ld in (a, c)
switched-says (off i) j debug li lj ld =
    let (a, b, c, d) = switch_facts i j debug li lj ld in (b, d)

all_switched-last_said :
    (ss : List Switch) (j debug : ℕ)
    → All (λ s. bit_of s < 8) ss
    → j < 8
    → debug < 256
    → test_flag (all_switched ss debug) (2 ^ j) ≡ last_said j ss (test_flag debug (2 ^ j))
unfolding all_switched
all_switched-last_said [] j debug b lj ld = refl
all_switched-last_said (s ∷ ss) j debug (b, bs) lj ld =
    let (told, small) = switched-says s j debug b lj ld in
    all_switched-last_said ss j (switched s debug) bs lj small ∙ ap (last_said j ss) told

abbrev pub is_line : Printed → Bool
is_line (line t) = true
is_line _ = false

abbrev is_named : Option Text → Bool
is_named none = false
is_named (some t) = true

names_hold : table (λ j. is_named (debug_to_flag_string (2 ^ j))) 8 ≡ true
unfolding table debug_to_flag_string set_names joined test_flag
names_hold = refl

printed_if_named :
    (debug mode : ℕ) (message : Text)
    → is_named (debug_to_flag_string mode) ≡ true
    → is_line (print_debug_message debug mode message) ≡ test_flag debug mode
unfolding print_debug_message
printed_if_named debug mode message h = elim (Option-cases (debug_to_flag_string mode)) [
  | inl e ↦ absurd (cc (h, ap is_named e))
  | inr (t, e) ↦ elim (Bool-cases (test_flag debug mode)) [
    | inl y ↦ rw (y, e) refl
    | inr n ↦ rw n refl
  ]
]

-- After calls of `enableDebug` and `disableDebug`, each with one of the eight modes, a message of a mode
-- is printed exactly if the last call with that mode enables it, and where none is with that mode, if it
-- was printed before. The debug mode has eight bits.
print_debug_message-last_said :
    (ss : List Switch) (j debug : ℕ) (message : Text)
    → All (λ s. bit_of s < 8) ss
    → j < 8
    → debug < 256
    → is_line (print_debug_message (all_switched ss debug) (2 ^ j) message)
      ≡ last_said j ss (is_line (print_debug_message debug (2 ^ j) message))
print_debug_message-last_said ss j debug message bs lj ld =
    let named = table-entry (λ j. is_named (debug_to_flag_string (2 ^ j))) 8 lj names_hold in
    rw
      (
        printed_if_named (all_switched ss debug) (2 ^ j) message named,
        printed_if_named debug (2 ^ j) message named,
      )
      (all_switched-last_said ss j debug bs lj ld)
