-- ===== src/Server/Interrogation.antt =====
-- The confirmations and terminations that a peer gets for an interrogation.
use iec104_python.Base.{
  ℕ, suc, ◌+◌, ◌≡◌, ◌≢◌, refl, sym, subst, Bool, true, false, ◌==◌, if◌then◌else◌, List, [], ◌∷◌,
  ◌++◌, map, ok, arith, All, length,
}
use iec104_python.Protocol.{Cot, cot_activation_con, cot_activation_termination, qoi_station}
use iec104_python.Station.Points.{Station}
use iec104_python.Message.Incoming.{Asdu, IncomingMessage, extract_meta_data}
use iec104_python.Station.Stations.{server_has_station, is_global_common_address}
use iec104_python.Server.Answers.{valid_message, extract-fields}
use iec104_python.Message.Outgoing.{InformationObject}
use iec104_python.Server.Report.{Group, group_points}
use iec104_python.Server.Packing.{pack}
use iec104_python.Server.Replies.{
  Output, sent, unexpected, objects, to_each_station, send_addressed, send_activation_confirmation,
  send_activation_termination, on_unexpected_message, unimplemented_group,
}
use iec104_python.Server.Handlers.{
  Server, Environment, group_outputs, report_stations, send_interrogation_response,
  interrogate_station, interrogate_counters, refuse_group, interrogation_handler,
  counter_interrogation_handler,
}

-- The ASDUs with a cause of transmission that are sent back as they came in.
abbrev pub count_sent : Cot → List Output → ℕ
count_sent cot [] = 0
count_sent cot (sent a ∷ os) = (if a.cot == cot then 1 else 0) + count_sent cot os
count_sent cot (unexpected cause ∷ os) = count_sent cot os
count_sent cot (objects c ca ios ∷ os) = count_sent cot os

pub count_sent-append :
    (cot : Cot) (xs ys : List Output)
    → count_sent cot (xs ++ ys) ≡ count_sent cot xs + count_sent cot ys
count_sent-append cot [] ys = omega arith
count_sent-append cot (sent a ∷ xs) ys = ground (arith, count_sent-append cot xs ys)
count_sent-append cot (unexpected cause ∷ xs) ys = count_sent-append cot xs ys
count_sent-append cot (objects c ca ios ∷ xs) ys = count_sent-append cot xs ys

count_sent-packets :
    (cot c : Cot) (ca : ℕ) (ps : List (List InformationObject))
    → count_sent cot (map (objects c ca) ps) ≡ 0
count_sent-packets cot c ca [] = refl
count_sent-packets cot c ca (p ∷ ps) = count_sent-packets cot c ca ps

count_sent-group_outputs :
    (fits : List InformationObject → InformationObject → Bool) (cot c : Cot) (ca : ℕ)
    (groups : List (ℕ × Group))
    → count_sent cot (group_outputs fits c ca groups) ≡ 0
unfolding group_outputs
count_sent-group_outputs fits cot c ca [] = refl
count_sent-group_outputs fits cot c ca ((type, group) ∷ groups) =
    let ps = pack fits (map (λ entry. entry.1) group) in
    omega (
      arith,
      count_sent-append cot (map (objects c ca) ps) (group_outputs fits c ca groups),
      count_sent-packets cot c ca ps,
      count_sent-group_outputs fits cot c ca groups,
    )

count_sent-report_stations :
    (env : Environment) (cot c : Cot) (ca : ℕ) (ss : List Station)
    → count_sent cot (report_stations env c ca ss).1 ≡ 0
unfolding report_stations
count_sent-report_stations env cot c ca [] = refl
count_sent-report_stations env cot c ca (s ∷ ss) =
    let groups = group_points env.poll c env.now s.points [] in
    ground (
      arith,
      count_sent-append cot (group_outputs env.fits c s.common_address groups)
          (report_stations env c ca ss).1,
      count_sent-group_outputs env.fits cot c s.common_address groups,
      count_sent-report_stations env cot c ca ss,
    )

count_sent-report :
    (env : Environment) (cot c : Cot) (ca : ℕ) (server : Server)
    → count_sent cot (send_interrogation_response env c ca server).1 ≡ 0
unfolding send_interrogation_response
count_sent-report env cot c ca server =
    ground (arith, count_sent-report_stations env cot c ca server.stations)

-- Sent to every station, the ASDU is left under the address of the last one.
abbrev last_address : ℕ → List Station → ℕ
last_address ca [] = ca
last_address ca (s ∷ ss) = last_address s.common_address ss

to_each_station_facts :
    (ss : List Station) (a : Asdu) (cot : Cot)
    → let (left, outputs) = to_each_station ss a in
      (left.ca ≡ last_address a.ca ss)
      × (left.cot ≡ a.cot)
      × (count_sent cot outputs ≡ (if a.cot == cot then length ss else 0))
unfolding to_each_station
to_each_station_facts [] a cot = ground arith
to_each_station_facts (s ∷ ss) a cot =
    ground (arith, to_each_station_facts ss (record a { ca = s.common_address }) cot)

last_address_single :
    (ca : ℕ) (ss : List Station)
    → ca ≢ 65535
    → All (λ s. s.common_address ≢ 65535) ss
    → last_address ca ss ≢ 65535
last_address_single ca [] h k = h
last_address_single ca (s ∷ ss) h k = last_address_single s.common_address ss k.0 k.1

-- The confirmation, and the termination of what the confirmation left.
confirm_then_terminate :
    (s : Station) (ss : List Station) (a : Asdu)
    → a.ca ≡ 65535
    → All (λ s. s.common_address ≢ 65535) (s ∷ ss)
    → let (left, confirmed) = send_activation_confirmation (s ∷ ss) false a in
      let terminated = (send_activation_termination (s ∷ ss) left).1 in
      (count_sent 7 confirmed ≡ suc (length ss))
      × (count_sent 10 confirmed ≡ 0)
      × (count_sent 7 terminated ≡ 0)
      × (count_sent 10 terminated ≡ 1)
unfolding send_activation_confirmation send_activation_termination
confirm_then_terminate s ss a g k =
    let confirming = record a { cot = 7; negative = false } in
    ground (
      arith,
      to_each_station_facts (s ∷ ss) confirming 7,
      to_each_station_facts (s ∷ ss) confirming 10,
      last_address_single s.common_address ss k.0 k.1,
    )

abbrev outputs_of : List Station → Asdu → List Output → List Output
outputs_of stations a report =
    let (left, confirmed) = send_activation_confirmation stations false a in
    confirmed ++ report ++ (send_activation_termination stations left).1

outputs_counts :
    (s : Station) (ss : List Station) (a : Asdu) (report : List Output)
    → a.ca ≡ 65535
    → All (λ s. s.common_address ≢ 65535) (s ∷ ss)
    → count_sent 7 report ≡ 0
    → count_sent 10 report ≡ 0
    → (count_sent 7 (outputs_of (s ∷ ss) a report) ≡ suc (length ss))
      × (count_sent 10 (outputs_of (s ∷ ss) a report) ≡ 1)
outputs_counts s ss a report g k r7 r10 =
    let (left, confirmed) = send_activation_confirmation (s ∷ ss) false a in
    let terminated = (send_activation_termination (s ∷ ss) left).1 in
    let facts = confirm_then_terminate s ss a g k in
    (
      omega (
        arith,
        facts,
        count_sent-append 7 (confirmed ++ report) terminated,
        count_sent-append 7 confirmed report,
      ),
      omega (
        arith,
        facts,
        count_sent-append 10 (confirmed ++ report) terminated,
        count_sent-append 10 confirmed report,
      ),
    )

-- A station interrogation for the global address 65535 is confirmed once for each station, but
-- terminated only once: after the confirmations the ASDU has the address of the last station, and
-- the termination goes out for that one alone. The server has a station, and none under 65535.
global_interrogation_counts :
    (env : Environment) (ca : ℕ) (a : Asdu) (server : Server) (s : Station) (ss : List Station)
    → server.stations ≡ s ∷ ss
    → a.ca ≡ 65535
    → All (λ s. s.common_address ≢ 65535) (s ∷ ss)
    → let outputs = (interrogate_station env ca a server).1 in
      (count_sent cot_activation_con outputs ≡ suc (length ss))
      × (count_sent cot_activation_termination outputs ≡ 1)
unfolding interrogate_station
global_interrogation_counts env ca a server s ss e g k =
    let report = (send_interrogation_response env qoi_station ca server).1 in
    subst
      (λ stations.
        (count_sent 7 (outputs_of stations a report) ≡ suc (length ss))
        × (count_sent 10 (outputs_of stations a report) ≡ 1))
      (sym e)
      (outputs_counts s ss a report g k (count_sent-report env 7 qoi_station ca server)
        (count_sent-report env 10 qoi_station ca server))

single_interrogation :
    (env : Environment) (ca : ℕ) (a : Asdu) (server : Server)
    → a.ca ≢ 65535
    → let (server', report) = send_interrogation_response env qoi_station ca server in
      interrogate_station env ca a server ≡ (
        server',
        sent (record a { cot = 7; negative = false }) ∷ report
            ++ sent (record a { cot = 10; negative = false }) ∷ [],
      )
unfolding interrogate_station
single_interrogation env ca a server h = ground arith

single_counters :
    (a : Asdu) (server : Server)
    → a.ca ≢ 65535
    → interrogate_counters a server ≡ (
      server,
      sent (record a { cot = 7; negative = false })
          ∷ sent (record a { cot = 10; negative = false })
          ∷ [],
    )
unfolding interrogate_counters send_activation_confirmation send_activation_termination
    send_addressed is_global_common_address
single_counters a server h = ground arith

single_refusal :
    (env : Environment) (a : Asdu) (server : Server)
    → a.ca ≢ 65535
    → refuse_group env a server ≡ (
      server,
      sent (record a { cot = 7; negative = true })
          ∷ (if env.notified then unexpected unimplemented_group ∷ [] else []),
    )
unfolding refuse_group on_unexpected_message send_activation_confirmation send_addressed
    is_global_common_address
single_refusal env a server h = ground arith

-- An interrogation of a station that the server has, for its own address: with the qualifier 20 it
-- is confirmed, then reported, then terminated, and with any other it is confirmed negatively and
-- reported to the callback, with nothing changed. A counter interrogation with the qualifier 5 is
-- confirmed and terminated with no report in between, and refused alike with any other.
pub interrogation_answers :
    (env : Environment) (qualifier : ℕ) (a : Asdu) (m : IncomingMessage) (server : Server)
    → extract_meta_data a ≡ ok m
    → server_has_station a.ca server.stations ≡ true
    → a.ca ≢ 65535
    → let (server', report) = send_interrogation_response env 20 a.ca server in
      let start = sent (record a { cot = 7; negative = false }) in
      let stop = sent (record a { cot = 10; negative = false }) in
      let refusal = sent (record a { cot = 7; negative = true }) in
      let callback = if env.notified then unexpected unimplemented_group ∷ [] else [] in
      (interrogation_handler env qualifier a server ≡ (
        if qualifier == 20
        then (server', start ∷ report ++ stop ∷ [])
        else (server, refusal ∷ callback)))
      × (counter_interrogation_handler env qualifier a server
          ≡ (if qualifier == 5 then (server, start ∷ stop ∷ []) else (server, refusal ∷ callback)))
unfolding interrogation_handler counter_interrogation_handler
interrogation_answers env qualifier a m server h k g =
    let valid = valid_message env.notified server.stations a m h k in
    let same = (extract-fields a m h).0 in
    (
      ground
          (arith, valid, same, single_interrogation env m.ca a server, single_refusal env a server),
      ground (arith, valid, single_counters a server, single_refusal env a server),
    )
