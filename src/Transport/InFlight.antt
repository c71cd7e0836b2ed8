-- ===== src/Transport/InFlight.antt =====
-- toolbox/transport_manager.py: the counters of calls in flight.
use toolbox_mcp.Prelude.{
  ℕ, ◌+◌, ◌-◌, String, ◌≡◌, refl, ap, arith, if◌then◌else◌, ◌==◌, string_eq, eq_iff, eq_refl,
  Bool-cases, inl, inr,
}
use toolbox_mcp.Registry.Lookup.{find_by-upsert_by}
use toolbox_mcp.Models.{ok}
use toolbox_mcp.Host.{Host}
use toolbox_mcp.Effects.{World, modify}
use toolbox_mcp.Transport.{
  entry_name, in_flight_count, with_count, note_call_started, note_call_finished,
}

pub note_call_started_lem :
    (host : Host) (w : World) (ns : String)
    → note_call_started ns host w ≡ (ok tt, with_count ns (in_flight_count w ns + 1) w)
unfolding note_call_started modify
note_call_started_lem host w ns = refl

pub note_call_finished_lem :
    (host : Host) (w : World) (ns : String)
    → note_call_finished ns host w ≡ (ok tt, with_count ns (in_flight_count w ns - 1) w)
unfolding note_call_finished modify
note_call_finished_lem host w ns = refl

-- A counter after it is written.
pub count-with_count :
    (w : World) (k j : String) (n : ℕ)
    → in_flight_count (with_count k n w) j ≡ (if k == j then n else in_flight_count w j)
unfolding in_flight_count with_count
count-with_count w k j n = ground (arith, find_by-upsert_by entry_name j (k, n) w.in_flight)

-- A call that starts and finishes leaves every counter as it was; a finish alone lowers its own counter by
-- one, not below zero, and touches no other.
pub in_flight_balance :
    (host : Host) (w : World) (k j : String)
    → let after_start = (note_call_started k host w).1 in
      (in_flight_count after_start j
        ≡ (if k == j then in_flight_count w j + 1 else in_flight_count w j))
      × (in_flight_count (note_call_finished k host after_start).1 j ≡ in_flight_count w j)
      × (in_flight_count (note_call_finished k host w).1 j
          ≡ (if k == j then in_flight_count w j - 1 else in_flight_count w j))
unfolding note_call_started note_call_finished modify
in_flight_balance host w k j =
    let started = with_count k (in_flight_count w k + 1) w in
    let a = count-with_count w k j (in_flight_count w k + 1) in
    let b = count-with_count started k j (in_flight_count started k - 1) in
    let c = count-with_count w k k (in_flight_count w k + 1) in
    let d = count-with_count w k j (in_flight_count w k - 1) in
    elim (Bool-cases (k == j)) [
      | inl same ↦
          let e : k ≡ j = (eq_iff k j).0 same in
          ground (arith, a, b, c, d, eq_refl k, ap (in_flight_count w) e)
      | inr other ↦ ground (arith, a, b, c, d)
    ]
