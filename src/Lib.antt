-- ===== src/Lib.antt =====
-- n-quark: event intelligence. Sources of tickets are captured on a schedule by crawl-service, each
-- capture is sent to graph-service, whose Shadow Ledger keeps the history of the public state of an
-- event, and media-service keeps the history of its creative assets.
-- entity-service maps the names that sources use to canonical entities.
--
-- Parts and files:
--   Prelude: shared names, Boolean tests, lists over the native numbers, texts, instants.
--   Crawl: services/crawl-service/crawl_service. Crawl/Lifecycle is lifecycle.py (temporal_state,
--   provider_lifecycle), Crawl/Classification is classification.py (decide_retry, backoff_seconds),
--   Crawl/Cadence is cadence.py (compute_cadence), Crawl/Priority is priority.py (compute_priority).
--   Crawl/Scheduler is service.py over the two tables of models.py: Store (the rows), Enrollment
--   (enroll, sync_from_refs), Jobs (generate_due_jobs, recover_expired_locks, claim_jobs,
--   _claim_specific), Process (process_job), Runs (capture_now, run_once) and Enrichment
--   (_apply_enrichment). The scheduler calls the four policies; a pass is recover, generate, claim,
--   process.
--   Crawl/Governance is governance.py over its four tables: Governance.antt has the rows and their
--   updates, Accept, Withdraw (reject, mark_unresolved, reverse_accept), Creation (create_entity),
--   Artists, Series and Supersede the commands, Commands all of them over one state. A command
--   commits its tables and then writes a batch to the graph, which is that of Graph.
--   Graph: services/graph-service/graph_service/store.py with the batch route of routes/graph.py.
--   Graph.antt is InMemoryGraphStore, Tokens normalize_rel, Postgres PostgresGraphStore over
--   models.py.
--   ShadowLedger: services/graph-service/graph_service. Fields and Detect are shadow_ledger.py (the
--   registry, resolve_field_statuses, evaluate_present_capture, absence_step); Rows and Observe are
--   shadow_store.py (_latest, observe).
--   Media: services/media-service/media_service/transitions.py (detect) and identity.py
--   (identity_key). Media/Service is service.py over models.py: Service.antt has the rows and _apply,
--   Service/Observe has observe with its fetch phase; it calls the detector once for each observation.
--   Entities: services/entity-service/entity_service. repository.py over the tables of models.py
--   (create_entity, add_aliases, resolve_entity, _link_aliases), with canonical_id of config.py. The
--   session does not flush by itself, so the rows a call adds are unseen until its end.
--   ArtistCadence: services/artist-intelligence-service/artist_intelligence_service/cadence.py with
--   the settings of config.py that it reads.
--   ArtistQuota: quota.py of the same service. ArtistQuota.antt is the meter, Tables the rows of both
--   tables and record_meter, Budget the budgets, can_spend and can_spend_search, Snapshot the
--   diagnostics.
--   ArtistScheduler: scheduler.py of the same service. ArtistScheduler.antt has the rows, Enqueue the
--   four ways to add jobs, Claim the leases, Execute the outcomes and run_once. It asks ArtistCadence
--   for intervals and priorities; a pass is enqueue, claim, execute.
-- In each part, Laws and the modules named for a subject hold the theorems, Examples the concrete
-- runs.
--
-- How code and model correspond: a table is a list of records, a transaction is a function from a
-- store to a store, an exception is `none` (in Entities, a value of EntityError, in
-- Crawl/Governance one of GovernanceError) and leaves what was committed before it. Instants are
-- microseconds since an epoch as natural numbers, so that no event is before the epoch. Fresh ids
-- come from a counter or an argument in place of uuid4. The outcome of a capture is given by a
-- function of the job's id, since it comes from the network; what a fetch of media would answer is
-- given with each call of observe (Call), what a service replies with each attempt at a job, and
-- whether the graph answers to a command is an argument (Network). Parsing of dates and time zones
-- (Calendar), slugs and the suffixes of ids (Naming, Normalizers), and floats, text stripping, ISO
-- formatting and SHA-256 (Env) are parameters, and so are JSON values with the case and the order
-- of texts (GraphClient, the arguments of Graph), the product of a number with a fraction of the
-- settings (scale) and the replies of the services and tables that the scheduler of artists reads
-- (Surroundings). Every loop is a structural recursion over the rows, ids or offsets that the code
-- loops over, or over the ten attempts at an id that the code makes, so there is no fuel.
--
-- Not modelled: log traces and rendered dictionaries; the steps that follow a capture's commit
-- (what the enricher fetches, entity resolution, media notification); the store on Neo4j; the other
-- services; HTTP, disk and database drivers. Claims by several workers are sequences of atomic
-- updates, as the database serializes them.
pub mod Prelude
pub mod ArtistCadence
pub mod ArtistQuota
pub mod ArtistScheduler
pub mod Crawl
pub mod Entities
pub mod Graph
pub mod Media
pub mod ShadowLedger
