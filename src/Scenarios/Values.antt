-- ===== src/Scenarios/Values.antt =====
-- The values of step position points on their way into a message.
use iec104_python.Base.{
  ◌⊎◌, ◌≡◌, refl, false, true, inl, none, some, pos, negsuc, arith, ◌^◌, [], ◌∷◌,
}
use iec104_python.Value.{Double, int}
use iec104_python.Point.Data.{DataPoint}
use iec104_python.Point.Update.{set_value, set_value_ex, kind_of, is_rejected}
use iec104_python.Message.Outgoing.{
  InformationObject, to_int32, to_float, message_shape, build, point_message,
}
use iec104_python.Message.Conversions.{integer, convert, truncate, within, has_float, passed_value}
use iec104_python.Text.{codes}
use iec104_python.Point.Valid.{is_ok}
use iec104_python.Message.Structures.{
  message_created, message_destroyed, command_created, command_destroyed,
}
use iec104_python.Message.Outgoing.{point_command}
use iec104_python.Message.Lifetime.{is_made, IsFreed, structures-IsFreed}
use iec104_python.Message.Values.{IsPassed, message-IsPassed}

abbrev step_point : Double → DataPoint
step_point x = record {
  address = 11;
  type = 5;
  is_server = true;
  related_address = 0;
  related_auto_return = false;
  value = x;
  quality = 0;
  updated_at = 9;
  reported_at = 0;
  report_interval = 0;
  received_at = 0;
  sent_at = 0;
}

abbrev step_object : Double → InformationObject
step_object x = record {
  type = 5;
  address = some 11;
  value = x;
  conversion = to_int32;
  quality = some 0;
  time = none;
  counter_flags = none;
}

message-IsPassed_example : IsPassed (int (negsuc 62)) (passed_value (step_object (int (negsuc 62))))
unfolding point_message message_shape build kind_of
message-IsPassed_example =
    message-IsPassed (step_point (int (negsuc 62))) (step_object (int (negsuc 62))) (omega arith)
      (inl refl) (negsuc 62, refl, omega arith, omega arith) (inl (λ e. cc e)) (λ e. cc e)

passes_the_value : passed_value (step_object (int (negsuc 62))) ≡ some (integer (negsuc 62))
unfolding passed_value convert truncate within
passes_the_value = refl

-- A value that the setter rejects is stored, and its conversion has no defined result.
abbrev large : Double
large = int (pos (2 ^ 31))

rejected_value_is_stored :
    ((set_value 5 large (step_point (int (pos 0)))).value ≡ large)
    × ((set_value 5 large (step_point (int (pos 0)))).quality ≡ 128)
unfolding set_value set_value_ex kind_of is_rejected
rejected_value_is_stored = (refl, refl)

rejected_value_is_undefined : passed_value (step_object large) ≡ none
unfolding passed_value convert truncate within
rejected_value_is_undefined = refl

structures-IsFreed_example :
    let p = step_point (int (pos 0)) in
    (is_ok (point_message p) ≡ is_made (message_created p.type))
    × (is_ok (point_command p) ≡ is_made (command_created p.type))
    × ((p.type ≡ 15) ⊎ (p.type ≡ 37) ⊎ IsFreed (message_created p.type) (message_destroyed p.type))
    × IsFreed (command_created p.type) (command_destroyed p.type)
structures-IsFreed_example = structures-IsFreed (step_point (int (pos 0))) (omega arith)

-- The totals without time are created as the reading and destroyed as the object; of those with time
-- the reading is not destroyed.
plain_totals :
    (message_created 15 ≡ codes "BinaryCounterReading" ∷ [])
    × (message_destroyed 15 ≡ codes "IntegratedTotals" ∷ [])
    × (message_created 37
        ≡ codes "BinaryCounterReading" ∷ codes "IntegratedTotalsWithCP56Time2a" ∷ [])
    × (message_destroyed 37 ≡ codes "IntegratedTotalsWithCP56Time2a" ∷ [])
unfolding message_created message_destroyed
plain_totals = (refl, refl, refl, refl)

-- A short float accepts any value; one beyond the largest float has no defined conversion.
undefined_float : convert to_float (int (pos (2 ^ 128))) ≡ none
unfolding convert has_float
undefined_float = refl
