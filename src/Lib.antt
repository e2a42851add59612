-- ===== src/Lib.antt =====
-- A model of the core of Cranus, a research assistant that answers questions from collected
-- documents: how documents are cut into chunks, how ranked lists of chunks are fused, how a
-- question is answered in the two query modes, how citations are checked, who may see what, how
-- documents are crawled and ingested, how entities are merged, and how ingestion jobs are handed
-- to workers.
--
-- The parts and their files, with the paths of the code from the repository's root:
--
-- - Base: Python's str as a list of code points, lists measured by native numbers, lists without
--   repetition and the stable sort that sorted(..., reverse=True) is.
--
-- - Storage: rows of src/cranus/storage/models, JSON values, and a table as the list of its
--   rows, with db.get, the first row of a query, and the writing back of a changed row.
--
-- - Governance: src/cranus/governance. Access has rbac.py, abac.py and the filter of sources in
--   pep.py; KillSwitch has kill_switch.py and its check; Engagements has engagements.py,
--   enforce_engagement_scope of pep.py and create_engagement of
--   api/routers/admin_engagements.py; Audit has audit.py. An exception is a value of Result.
--
-- - Ingestion.Chunking: src/cranus/ingestion/chunking.py. The tokenizer is an argument, whose
--   encoding may raise. An exception is none. Of the pieces of an oversized unit nothing is
--   shown, since the decoding of tokens need not give back the text.
--
-- - Retrieval.Fusion: src/cranus/retrieval/fusion.py and _dedupe of
--   src/cranus/query/pipeline.py. Scores are of an arbitrary type with their arithmetic as
--   arguments; a missing key is none.
--
-- - Query: Verify has src/cranus/query/verify.py, Render has render.py, Pipeline has answer of
--   pipeline.py with retrieval/rerank.py. Services is the interface to the searches, the graph
--   lookup, the models and the catalog of documents.
--
-- - Agent: Guardrails has src/cranus/agent/guardrails.py, Loop has loop.py, Tools has tools.py
--   on the searches as arguments. For Loop the model, the three tools, json.dumps, the hash and
--   the clock are arguments. A run composes fresh_state, run_loop and finish_run; an error that
--   it raises behind its loop, for an answer that is no text, is none.
--
-- - Api: src/cranus/api. Http has the answers of a route, Auth has deps.py and oidc_auth.py,
--   Users has the changes of routers/admin_users.py, Connectors has run_connector and
--   get_job_status of routers/admin_connectors.py, Upload has routers/upload.py, Security has
--   src/cranus/common/security.py. A refused request leaves the database as it was, since its
--   session is rolled back.
--
-- - Ingestion.Gates and Ingestion.Items: src/cranus/ingestion/quality_gates.py and pipeline.py,
--   with the sources of storage/catalog.py. A connector is a record of its methods; the
--   documents, blobs, indexed texts, documents with an extracted graph and sources are one
--   state. The two sessions that index a document and extract its graph are committed one behind
--   the other, and the task of both is tried three times.
--
-- - Connectors: Crawler has discover of src/cranus/connectors/web_crawler.py, as the list of the
--   urls that it yields, an error that is not caught ending the list; Edgar has sec_edgar.py, on
--   the answers of the web service as arguments; Upload has upload.py.
--
-- - Graph: Relations has src/cranus/graph/relation_extraction.py, on the parse of a text as an
--   argument; Documents has process_document_for_graph of src/cranus/graph/pipeline.py and
--   ner.py; Batch has entity_resolution/splink_batch.py, on the predicted pairs as an argument;
--   Lookup has graph_lookup_for_question of src/cranus/graph/query_support.py, Resolve has
--   _resolve_mention of src/cranus/graph/pipeline.py with entity_resolution/blocking.py and
--   scoring.py, Edges has _promote_edge_candidates, Review has entity_resolution/review.py.
--
-- - Worker.Jobs: src/cranus/worker/jobs.py. Each function is one transaction on the table of
--   jobs; the rows that other transactions hold locks on are an argument, which is what SKIP
--   LOCKED sees. Worker.Jobs.Trace has the transactions in any order, Worker.Jobs.Queue the
--   abstract queue that they refine.
--
-- - Worker.Dispatch: publish_job and consume_forever of src/cranus/worker/kafka_queue.py with
--   the handler of main.py, on the committed rows, the rows of open sessions and the topic.
--
-- The query modes call Verify on the sources that Governance lets through and write to the log of
-- Governance.Audit. The crawler recurs on the number of pages it may still yield and, within it,
-- on its queue. The agent's loop runs on fuel max_steps + 1, one more than the rounds it can make,
-- since every round counts a step. The packing of chunks runs on one more than the number of
-- units, since every window ends later than the one before it; the division of an oversized unit
-- runs on the number of its tokens; the reading of an upload runs on one more than the number of
-- its bytes, since every read but the last takes one at least.
--
-- Not modelled: the searches and the traversal of the graph database; the HTTP routes beyond
-- users, engagements, connectors and uploads; the language model of the extraction of mentions and
-- relations; the connectors beyond the crawler's discovery, SEC EDGAR and uploads; the endless
-- loops of the worker; the clients of models and stores, which are input and output. Errors of the
-- database are not modelled. Times are natural numbers, a confidence is the pair of the numbers of
-- sentences kept and found, with (0, 0) for 0.0.
pub mod Agent
pub mod Api
pub mod Base
pub mod Connectors
pub mod Governance
pub mod Graph
pub mod Ingestion
pub mod Query
pub mod Retrieval
pub mod Storage
pub mod Worker
