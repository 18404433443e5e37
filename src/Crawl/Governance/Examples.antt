-- ===== src/Crawl/Governance/Examples.antt =====
-- A candidate for an artist that an operator accepts, reverses and accepts again.
use n_quark.Prelude.{ℕ, ◌≡◌, refl, String, true, false, Option, none, some, List, [], ◌∷◌}
use n_quark.Graph.{get_node, upsert_batch}
use n_quark.Crawl.Governance.{
  EntityResolutionCandidate, GovernanceTables, done, refused, CandidateReply, Network, GraphClient,
  Governed, artist, find_candidate, find_handle, handle_owner, handle_already_linked,
}
use n_quark.Crawl.Governance.Accept.{
  AcceptInput, accept, accept_tables, accepted, accepted_row, reply_of,
}
use n_quark.Crawl.Governance.Withdraw.{reverse_tables}
use n_quark.Crawl.Governance.Creation.{Normalizers}
use n_quark.Crawl.Governance.Commands.{
  Command, do_accept, do_reject, do_create_artist, do_supersede, run, step,
}
use n_quark.Crawl.Governance.Artists.{create_artist}
use n_quark.Crawl.Governance.Audit.{IsAudited, Agrees, run-IsAudited, last_row}
use n_quark.Crawl.Governance.Owners.{run-owner}
use n_quark.Crawl.Governance.Reversal.{IsRestored, accept-reverse, undo_of}
use n_quark.Crawl.Governance.Retry.{accept_again}
use n_quark.Crawl.Governance.Published.{accept-HasLinks, IsLinked}
use n_quark.Crawl.Governance.Superseded.{IsResolved, run-IsResolved}
use n_quark.Crawl.Governance.Supersede.{SupersedeInput, supersede_legacy, superseded_map}

abbrev names : Normalizers
names = record { slug = λ t. t; base = λ t. t; spaced = λ t. t }

abbrev client : GraphClient String
client = record {
  text = λ t. t;
  truth = λ b. "true";
  full_confidence = "1.0";
  null = "null";
  shown = λ v. some v;
  iso = λ t. "2026-01-01";
  canon = λ r. r;
}

abbrev online : Network
online = record { reads = true; writes = true }

abbrev cut_off : Network
cut_off = record { reads = true; writes = false }

abbrev mention : EntityResolutionCandidate
mention = record {
  id = "c1";
  entity_type = artist;
  source = "boshow";
  source_record_id = "r1";
  canonical_event_id = some "event:gig";
  source_entity_handle = "boshow:a";
  raw_name = "Asha";
  normalized_name = "asha";
  candidate_canonical_entity_id = none;
  resolution_status = "UNRESOLVED";
  reason_code = none;
  source_url = none;
  resolver_version = "resolver-1";
  updated_at = 1;
}

abbrev table : GovernanceTables
table = record { candidates = mention ∷ []; handles = []; history = []; supersessions = [] }

abbrev start : Governed String
start = record { tables = table; graph = record { nodes = []; edges = [] } }

abbrev to_asha : AcceptInput
to_asha = record {
  candidate_id = "c1";
  canonical_entity_id = "artist:asha";
  expected_status = some "UNRESOLVED";
  reason_code = "MANUAL_ACCEPT";
  require_exists = false;
}

abbrev to_other : AcceptInput
to_other = record to_asha { canonical_entity_id = "artist:other"; expected_status = none }

abbrev linked : GovernanceTables
linked = accepted to_asha 5 mention table

abbrev first_reply : CandidateReply
first_reply = reply_of mention false (accepted_row to_asha 5 mention)

accept_passes : accept_tables to_asha 5 (true, none) table ≡ done (first_reply, linked)
unfolding accept_tables accepted handle_owner
accept_passes = refl

-- The handle belongs to another entity by now.
accept_other :
    (accept client online to_other 6 (record start { tables = linked })).0
    ≡ refused handle_already_linked
unfolding accept accepted handle_owner
accept_other = refl

no_rows : (o : Option EntityResolutionCandidate) → Agrees o none
no_rows none = tt
no_rows (some c) = tt

table-IsAudited : IsAudited table
unfolding last_row
table-IsAudited = record {
  stands = λ id. no_rows (find_candidate id table.candidates);
  chained = tt;
}

abbrev session : List (Network × ℕ × Command String)
session =
    (online, 5, do_accept to_asha)
    ∷ (cut_off, 6, do_reject "c1" "DUPLICATE" none)
    ∷ (online, 7, do_create_artist "c2" "Ravi" none none)
    ∷ []

run-IsAudited_example : IsAudited (run names client session start).tables
run-IsAudited_example = run-IsAudited names client session start table-IsAudited

owned : handle_owner "boshow" "boshow:a" linked.handles ≡ some "artist:asha"
unfolding handle_owner accepted
owned = refl

run-owner_example :
    handle_owner "boshow" "boshow:a"
      (run names client session (record start { tables = linked })).tables.handles
    ≡ some "artist:asha"
run-owner_example =
    run-owner names client session (record start { tables = linked }) "boshow" "boshow:a"
      "artist:asha" (refl, (refl, (refl, tt))) refl owned

mention_found : find_candidate "c1" table.candidates ≡ some mention
unfolding find_candidate
mention_found = refl

no_handle : find_handle "boshow" "boshow:a" table.handles ≡ none
unfolding find_handle
no_handle = refl

accept-reverse_example :
    (r : CandidateReply) × (v : GovernanceTables) × (reverse_tables
        (undo_of to_asha "UNRESOLVED")
        9
        linked
      ≡ done (r, v))
    × IsRestored table v
accept-reverse_example =
    accept-reverse to_asha 5 9 (true, none) table linked mention first_reply mention_found no_handle
      refl refl accept_passes

-- The first call transacted and did not reach the graph: nothing puts that right.
accept_again_example :
    (accept client online to_asha 8 (record start { tables = linked })).1
    ≡ record start { tables = linked }
accept_again_example =
    accept_again client online to_asha to_asha 5 8 (true, none) first_reply table
      (record start { tables = linked }) accept_passes refl refl

abbrev published : Governed String
published = (accept client online to_asha 5 start).1

accept_replies : accept client online to_asha 5 start ≡ (done first_reply, published)
unfolding accept handle_owner
accept_replies = refl

accept-HasLinks_example : IsLinked client first_reply.candidate "artist:asha" published.graph
accept-HasLinks_example =
    accept-HasLinks client online to_asha 5 start published first_reply accept_replies refl

abbrev to_ravi : SupersedeInput
to_ravi = record {
  entity_type = "ARTIST";
  legacy_entity_id = "artist:old";
  canonical_entity_id = "artist:Ravi";
  decision_ref = none;
}

abbrev moves : List (Network × ℕ × Command String)
moves = (online, 5, do_create_artist "c2" "Ravi" none none) ∷ (online, 6, do_supersede to_ravi) ∷ []

moved :
    superseded_map (run names client moves start).tables.supersessions
    ≡ ("artist:old", "artist:Ravi") ∷ []
unfolding run step create_artist supersede_legacy superseded_map get_node upsert_batch
moved = refl

run-IsResolved_example : IsResolved (run names client moves start).tables.supersessions
run-IsResolved_example =
    run-IsResolved names client moves start (record { unique = tt; no_loop = tt })
