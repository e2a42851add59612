-- ===== src/Governance/Audit/Reading.antt =====
-- What the queries of src/cranus/governance/audit.py return.
use cranus.Base.{
  ◌≡◌, true, Str, ◌↔◌, arith, str_eq, keep_if, Has, Has-keep_if, keep_if-Has, sort_down-Has,
  sort_down-Down, IsOrder, Down,
}
use cranus.Storage.Models.{AuditEvent}
use cranus.Governance.Audit.{AuditLog, later, get_session_events}

later-IsOrder : IsOrder later
later-IsOrder = record {
  asym = λ x y h. ground (arith, h);
  trans = λ x y z h k. ground (arith, h, k);
}

-- The events read for a session are exactly its events in the log.
get_session_events-Has :
    (log : AuditLog) (id : Str) (e : AuditEvent)
    → Has e (get_session_events log id) ↔ (Has e log × (str_eq e.session_id id ≡ true))
unfolding get_session_events
get_session_events-Has log id e =
    let rows = keep_if (λ (x : AuditEvent). str_eq x.session_id id) log in
    (
      (λ m.
          Has-keep_if (λ (x : AuditEvent). str_eq x.session_id id) e log
            ((sort_down-Has later e rows).0 m)),
      (λ m.
          (sort_down-Has later e rows).1
            (keep_if-Has (λ (x : AuditEvent). str_eq x.session_id id) e log m.0 m.1)),
    )

-- They come in the order of time.
get_session_events-Down : (log : AuditLog) (id : Str) → Down later (get_session_events log id)
unfolding get_session_events
get_session_events-Down log id =
    sort_down-Down later later-IsOrder (keep_if (λ (x : AuditEvent). str_eq x.session_id id) log)
