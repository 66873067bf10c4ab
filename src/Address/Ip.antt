-- ===== src/Address/Ip.antt =====
-- The regular expression of `Assert_IPv4` in src/types.cpp, part by part, and the two names that it
-- accepts besides.
use iec104_python.Base.{Bool, ◌||◌}
use iec104_python.Text.{Text, codes, same_text}
use iec104_python.Address.Pattern.{Pattern, one_of, sequence, either, optional, thrice, matches}

-- `[0-9]`, and a range of digits.
abbrev pub digit : Pattern
digit = one_of b'0' b'9'

-- `25[0-5]|2[0-4][0-9]|[01]?[0-9][0-9]?`
abbrev pub octet : Pattern
octet = either (sequence (one_of b'2' b'2') (sequence (one_of b'5' b'5') (one_of b'0' b'5'))) (
    either (sequence (one_of b'2' b'2') (sequence (one_of b'0' b'4') digit))
      (sequence (optional (one_of b'0' b'1')) (sequence digit (optional digit))))

-- `(?:octet\.){3}octet`
abbrev pub ipv4_regex : Pattern
ipv4_regex = sequence (thrice (sequence octet (one_of b'.' b'.'))) octet

unfoldable pub is_valid_ip : Text → Bool
unfolding same_text matches
is_valid_ip s = same_text s (codes "localhost") || same_text s (codes "lo") || matches ipv4_regex s
