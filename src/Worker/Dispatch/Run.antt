-- ===== src/Worker/Dispatch/Run.antt =====
-- A message of src/cranus/worker/kafka_queue.py that is consumed after the session of `run_connector` (in
-- src/cranus/api/routers/admin_connectors.py) is committed.
