-- ===== src/Connection/Sending.antt =====
-- The answers that commands find, and the plain test command, which finds none
-- (src/remote/Connection.cpp).
use iec104_python.Base.{
  ℕ, ◌≡◌, ◌≢◌, not, refl, Bool, true, false, ◌==◌, List, [], ◌∷◌, Option, none, some, arith, All,
  if◌then◌else◌,
}
use iec104_python.Protocol.{c_ts_ta_1}
use iec104_python.Connection.State.{CmdId, Connection, is_open}
use iec104_python.Connection.Pending.{Pending, find, find-insert}
use iec104_python.Connection.Link.{Response, response_id, set_command_success}
use iec104_python.Connection.Command.{
  Move, prepared, responded, ended, timed_out, notified, Awaited, returned, awaits, cmd_id, test,
  await_command_success,
}
use iec104_python.Connection.Answers.{
  Outcome, Schedule, entry, entries, verdict, ends_none, await-Outcome,
}

pub response_found :
    (c : Connection) (r : Response) (v : ℕ)
    → find (response_id r) c.expected ≡ some v
    → find (response_id r) (set_command_success r c).expected ≡ some (if r.negative then 0 else 1)
unfolding set_command_success
response_found c r v h = ground (
  arith,
  find-insert (response_id r) (response_id r) 0 c.expected,
  find-insert (response_id r) (response_id r) 1 c.expected,
)

-- The answers that other threads enter, and none that would be taken for C_TS_TA_1.
abbrev pub no_ts_ta : Move → Bool
no_ts_ta (responded id negative) = not (id.type == c_ts_ta_1)
no_ts_ta _ = true

entry_not_positive :
    (ca v : ℕ) (x : Move) → no_ts_ta x ≡ true → v ≡ 3 → entry (cmd_id ca c_ts_ta_1 0) v x ≡ 3
entry_not_positive ca v (prepared j) q h = ground arith
entry_not_positive ca v (responded j negative) q h = ground arith
entry_not_positive ca v (ended j) q h = h

entries_not_positive :
    (ca v : ℕ) (xs : List Move)
    → All (λ x. no_ts_ta x ≡ true) xs
    → v ≡ 3
    → entries (cmd_id ca c_ts_ta_1 0) v xs ≡ 3
entries_not_positive ca v [] q h = h
entries_not_positive ca v (x ∷ xs) q h =
    entries_not_positive ca (entry (cmd_id ca c_ts_ta_1 0) v x) xs q.1
      (entry_not_positive ca v x q.0 h)

verdict_not_positive :
    (ca v : ℕ) (schedule : Schedule)
    → All (λ round. All (λ x. no_ts_ta x ≡ true) round.0) schedule
    → v ≡ 3
    → verdict (cmd_id ca c_ts_ta_1 0) v schedule ≢ some true
verdict_not_positive ca v [] q h = λ e. cc
verdict_not_positive ca v ((xs, timed_out) ∷ rest) q h = λ e. cc
verdict_not_positive ca v ((xs, notified) ∷ rest) q h =
    let same = entries_not_positive ca v xs q.0 h in
    let later = verdict_not_positive ca (entries (cmd_id ca c_ts_ta_1 0) v xs) rest q.1 same in
    λ e. later (ground arith)

Outcome-not_positive :
    (id : CmdId) (o : Option Bool) (r : Awaited) (rest : Pending)
    → Outcome id o r
    → o ≢ some true
    → r ≢ returned true rest
Outcome-not_positive id none r rest h k e = cc
Outcome-not_positive id (some b) r rest (m, h, f) k e = k (cc)

plain_test_prepared :
    (ca : ℕ) (c : Connection)
    → is_open c ≡ true
    → let sent = test ca false true true c in
      (sent.1 ≡ awaits (cmd_id ca c_ts_ta_1 0))
      × (find (cmd_id ca c_ts_ta_1 0) sent.0.expected ≡ some 3)
unfolding test
plain_test_prepared ca c o =
    let id = cmd_id ca c_ts_ta_1 0 in ground (arith, find-insert id id 3 c.expected)

-- A test command without time stamp is answered by messages of type C_TS_NA_1, but waits for one of
-- type C_TS_TA_1: whatever else the other side answers, the wait does not end with true.
plain_test_unanswered :
    (ca : ℕ) (schedule : Schedule) (c : Connection) (rest : Pending)
    → is_open c ≡ true
    → All (λ round. All (λ x. no_ts_ta x ≡ true) round.0) schedule
    → ends_none (cmd_id ca c_ts_ta_1 0) schedule ≡ true
    → let sent = test ca false true true c in
      (sent.1 ≡ awaits (cmd_id ca c_ts_ta_1 0))
      × (await_command_success (cmd_id ca c_ts_ta_1 0) schedule sent.0.expected
          ≢ returned true rest)
plain_test_unanswered ca schedule c rest o q e =
    let (sent, ready) = plain_test_prepared ca c o in
    let id = cmd_id ca c_ts_ta_1 0 in
    let pending = (test ca false true true c).0.expected in
    (
      sent,
      Outcome-not_positive id (verdict id 3 schedule) (await_command_success id schedule pending)
          rest (await-Outcome id 3 schedule pending ready e)
          (verdict_not_positive ca 3 schedule q refl),
    )
