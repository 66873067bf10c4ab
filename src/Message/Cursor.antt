-- ===== src/Message/Cursor.antt =====
-- The walk over the information objects of a message: `first` and `next`.
use iec104_python.Base.{
  ℕ, zero, suc, ◌+◌, ◌%◌, ◌<◌, ◌≡◌, Bool, true, false, ltb, if◌then◌else◌, List, [], ◌∷◌, arith,
}
use iec104_python.Message.Incoming.{IncomingMessage}

unfoldable pub first : IncomingMessage → IncomingMessage
first m = record m {
  position = 0;
  position_reset = true;
  position_valid = ltb 0 m.number_of_object;
}

-- The message with its new position; its field `position_valid` is the result of `next`.
unfoldable pub next : IncomingMessage → IncomingMessage
next m =
    if m.position_reset
    then record m {
      position = 0;
      position_reset = false;
      position_valid = ltb 0 m.number_of_object;
    }
    else record m {
      position = (m.position + 1) % 256;
      position_valid = ltb ((m.position + 1) % 256) m.number_of_object;
    }

-- The positions at which the body of `while (message->next())` runs, and how the loop ends: with
-- the fuel used up, or by its test.
unfoldable pub visit : ℕ → IncomingMessage → List ℕ × Bool
visit zero m = ([], false)
visit (suc fuel) m = elim (next m).position_valid [
  | true ↦ let (rest, ended) = visit fuel (next m) in ((next m).position ∷ rest, ended)
  | false ↦ ([], true)
]

-- The numbers from `i`, `n` of them.
abbrev pub count_up : ℕ → ℕ → List ℕ
count_up i zero = []
count_up i (suc n) = i ∷ count_up (suc i) n

visit_from :
    (k fuel i : ℕ) (m : IncomingMessage)
    → m.position_reset ≡ false
    → m.position ≡ i
    → m.number_of_object ≡ suc (i + k)
    → m.number_of_object < 256
    → k < fuel
    → visit fuel m ≡ (count_up (suc i) k, true)
unfolding visit next
visit_from k zero i m r p n w f = absurd (omega arith)
visit_from zero (suc fuel) i m r p n w f = ground arith
visit_from (suc k) (suc fuel) i m r p n w f = ground (arith, visit_from k fuel (suc i) (next m))

-- After `first`, `while (message->next())` visits each object once and in order, positions 0 to
-- n - 1 for n objects, and ends; n is at most 255, so that the 8-bit position does not wrap, and
-- n + 1 rounds are enough. It does not matter where the message stood before.
pub visit-first :
    (fuel n : ℕ) (m : IncomingMessage)
    → m.number_of_object ≡ n
    → n < 256
    → n < fuel
    → visit fuel (first m) ≡ (count_up 0 n, true)
unfolding visit next first
visit-first zero n m e w f = absurd (omega arith)
visit-first (suc fuel) zero m e w f = ground arith
visit-first (suc fuel) (suc n) m e w f = ground (arith, visit_from n fuel 0 (next (first m)))
