-- ===== src/Scenarios/Flagged.antt =====
-- The texts of flags, and a debug mode that is switched.
use iec104_python.Base.{◌≡◌, refl, List, [], ◌∷◌, none, some, arith}
use iec104_python.Text.{codes}
use iec104_python.Message.Outgoing.{test_flag}
use iec104_python.Flags.{
  debug_flags, quality_flags, set_names, accumulate, joined, debug_to_string, debug_to_flag_string,
  quality_to_string,
}
use iec104_python.Flags.Reading.{read_flags, read_flags-to_string}
use iec104_python.Flags.Switches.{Switch, on, off}

flag_string : debug_to_flag_string 0x90 ≡ some (codes "Point | Gil")
unfolding debug_to_flag_string set_names joined accumulate test_flag
flag_string = refl

read_flags-to_string_example :
    (read_flags debug_flags (debug_to_flag_string 2) ≡ some 2)
    × (read_flags debug_flags (debug_to_string 2) ≡ some 2)
    × (read_flags quality_flags (quality_to_string 2) ≡ none)
read_flags-to_string_example = read_flags-to_string 2 (omega arith)

abbrev some_switches : List Switch
some_switches = on 5 ∷ on 7 ∷ off 5 ∷ []
