-- ===== src/Flags.antt =====
-- The sets of flags of src/enums.h, their texts in src/enums.cpp, and the debug mode of src/types.cpp.
-- A set of flags is a number of eight bits. A text is `none` where the source takes the first element of
-- an empty vector, which is undefined.
pub mod Reading
pub mod Switches
use Prim.Native.Nat.{bit_and, bit_or, bit_xor}
use iec104_python.Base.{
  ℕ, Bool, true, false, ◌==◌, if◌then◌else◌, List, [], ◌∷◌, ◌++◌, Option, none, some,
}
use iec104_python.Text.{Text, codes}
use iec104_python.Protocol.{
  quality_overflow, quality_reserved, quality_elapsed_time_invalid, quality_blocked,
  quality_substituted, quality_non_topical, quality_invalid,
}
use iec104_python.Message.Outgoing.{test_flag}

abbrev pub Flags : Type 0
Flags = List (ℕ × Text)

abbrev pub debug_flags : Flags
debug_flags =
    (0x01, codes "Server")
    ∷ (0x02, codes "Client")
    ∷ (0x04, codes "Connection")
    ∷ (0x08, codes "Station")
    ∷ (0x10, codes "Point")
    ∷ (0x20, codes "Message")
    ∷ (0x40, codes "Callback")
    ∷ (0x80, codes "Gil")
    ∷ []

abbrev pub quality_flags : Flags
quality_flags =
    (quality_overflow, codes "Overflow")
    ∷ (quality_reserved, codes "Reserved")
    ∷ (quality_elapsed_time_invalid, codes "ElapsedTimeInvalid")
    ∷ (quality_blocked, codes "Blocked")
    ∷ (quality_substituted, codes "Substituted")
    ∷ (quality_non_topical, codes "NonTopical")
    ∷ (quality_invalid, codes "Invalid")
    ∷ []

-- The names of the flags that are set, one `if` after the other.
unfoldable pub set_names : Flags → ℕ → List Text
unfolding test_flag
set_names [] mode = []
set_names ((flag, name) ∷ flags) mode =
    let rest = set_names flags mode in if test_flag mode flag then name ∷ rest else rest

-- `std::accumulate` from the second name on.
unfoldable pub accumulate : Text → List Text → Text
accumulate a [] = a
accumulate a (b ∷ names) = accumulate (a ++ (codes " | " ++ b)) names

unfoldable pub joined : List Text → Option Text
unfolding accumulate
joined [] = none
joined (name ∷ names) = some (accumulate name names)

abbrev pub enclosed : (before after : Text) → Option Text → Option Text
enclosed before after none = none
enclosed before after (some t) = some (before ++ (t ++ after))

unfoldable pub debug_to_string : ℕ → Option Text
unfolding set_names joined
debug_to_string mode =
    if mode == 0
    then some (codes "Debug set: {}, is_none: True")
    else enclosed (codes "Debug set: { ") (codes " }, is_none: False")
        (joined (set_names debug_flags mode))

unfoldable pub debug_to_flag_string : ℕ → Option Text
unfolding set_names joined
debug_to_flag_string mode =
    if mode == 0 then some (codes "None") else joined (set_names debug_flags mode)

unfoldable pub quality_to_string : ℕ → Option Text
unfolding set_names joined
quality_to_string quality =
    if quality == 0
    then some (codes "Quality set: {}, is_good: True")
    else enclosed (codes "Quality set: { ") (codes " }, is_good: False")
        (joined (set_names quality_flags quality))

-- The operators `|`, `&` and `~` on a `uint8_t`.
abbrev pub or_flags : (lhs rhs : ℕ) → ℕ
or_flags lhs rhs = bit_or lhs rhs

abbrev pub and_flags : (lhs rhs : ℕ) → ℕ
and_flags lhs rhs = bit_and lhs rhs

abbrev pub not_flags : ℕ → ℕ
not_flags lhs = bit_xor lhs 0xFF

unfoldable pub enable_debug : (mode debug : ℕ) → ℕ
enable_debug mode debug = or_flags debug mode

unfoldable pub disable_debug : (mode debug : ℕ) → ℕ
disable_debug mode debug = and_flags debug (not_flags mode)

-- What a message of a mode prints: nothing, or a line.
pub data Printed : Type 0 where
  silent undefined : Printed
  line : Text → Printed

abbrev as_line : Option Text → (message : Text) → Printed
as_line none message = undefined
as_line (some mode) message =
    line (codes "[c104." ++ (mode ++ (codes "] " ++ (message ++ codes "\n"))))

unfoldable pub print_debug_message : (debug mode : ℕ) → (message : Text) → Printed
unfolding test_flag debug_to_flag_string
print_debug_message debug mode message =
    if test_flag debug mode then as_line (debug_to_flag_string mode) message else silent
