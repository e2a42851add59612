-- ===== src/Governance/Audit.antt =====
-- src/cranus/governance/audit.py: the events of a session, appended to the log and read from it.
pub mod Reading
use cranus.Base.{
  ℕ, Bool, true, false, not, ◌&&◌, Option, none, some, List, [], ◌∷◌, ◌++◌, Str, codes, str_eq, ltb,
  take, is_empty, keep_if, sort_down, if◌then◌else◌,
}
use cranus.Storage.Models.{AuditEvent, Payload, opened, closed}

abbrev pub AuditLog : Type 0
AuditLog = List AuditEvent

abbrev pub event : Str → Str → Option Str → Payload → ℕ → AuditEvent
event session_id event_type user_id payload now = record {
  session_id = session_id;
  event_type = event_type;
  user_id = user_id;
  payload = payload;
  created_at = now;
}

-- `session_id` is the new id.
unfoldable pub open_session : AuditLog → Str → Option Str → (question mode : Str) → ℕ → AuditLog
open_session log session_id user_id question mode now =
    log ++ event session_id (codes "query_opened") user_id (opened question mode) now ∷ []

unfoldable pub log_event : AuditLog → Str → Str → Option Str → Payload → ℕ → AuditLog
log_event log session_id event_type user_id payload now =
    log ++ event session_id event_type user_id payload now ∷ []

unfoldable pub close_session :
    AuditLog
    → Str
    → Option Str
    → (retrieved : List Str) → (latency_ms : ℕ) → (answer_hash : Str) → (token_cost : Option ℕ) → ℕ
    → AuditLog
unfolding log_event
close_session log session_id user_id retrieved latency_ms answer_hash token_cost now =
    log_event log session_id (codes "query_closed") user_id
      (closed retrieved latency_ms answer_hash token_cost) now

abbrev pub later : AuditEvent → AuditEvent → Bool
later a b = ltb b.created_at a.created_at

abbrev pub earlier : AuditEvent → AuditEvent → Bool
earlier a b = ltb a.created_at b.created_at

-- The events of a session from the first on; those of one time keep their order.
unfoldable pub get_session_events : AuditLog → Str → List AuditEvent
get_session_events log session_id =
    sort_down later (keep_if (λ (e : AuditEvent). str_eq e.session_id session_id) log)

abbrev pub is_user : Option Str → Str → Bool
is_user none id = false
is_user (some user) id = str_eq user id

-- An absent or empty user is no condition.
abbrev pub by_user : Option Str → AuditEvent → Bool
by_user none e = true
by_user (some id) e = if is_empty id then true else is_user e.user_id id

abbrev pub not_before : Option ℕ → AuditEvent → Bool
not_before none e = true
not_before (some since) e = not (ltb e.created_at since)

-- The latest events that pass the filters, from the last on.
unfoldable pub get_events : AuditLog → Option Str → Option ℕ → ℕ → List AuditEvent
get_events log user_id since limit =
    take limit (sort_down earlier (keep_if (λ e. by_user user_id e && not_before since e) log))
