-- ===== src/Crawl/Governance/Series.antt =====
-- services/crawl-service/crawl_service/governance.py: correct_series, which writes the graph alone.
use n_quark.Prelude.{
  String, Bool, true, not, ◌&&◌, Option, none, some, List, [], ◌∷◌, ◌++◌, if◌then◌else◌, str_eq,
  truthy, or_empty, member,
}
use n_quark.Prelude.Time.{Time}
use n_quark.Graph.{Node, EdgeWrite}
use n_quark.Crawl.Governance.{
  GovernanceResult, done, refused, Network, GraphClient, Governed, node_exists, write_graph,
  no_series_to_unlink, series_name_required, generic_series_requires_organizer,
  series_target_required, target_entity_not_found, bad_mode,
}
use n_quark.Crawl.Governance.Creation.{Normalizers, entity_cid, generic_series_titles}

pub record SeriesInput : Type 0 where
  pub event_id : String
  pub mode : String
  pub series_id : Option String
  pub series_name : Option String
  pub organizer_name : Option String
  pub prev_series_id : Option String

-- What a call writes and replies: the series that it leaves, creates and links.
pub record SeriesPlan (V : Type 0) : Type 0 where
  pub nodes : List (Node V)
  pub edges : List (EdgeWrite V)
  pub superseded : Option String
  pub created_id : Option String
  pub linked : Option String

module _ {V : Type 0} (n : Normalizers) (k : GraphClient V) where
  abbrev series_edge : String → String → String → EdgeWrite V
  series_edge event status target = record {
    source = event;
    relationship = "PART_OF_SERIES";
    target = target;
    properties = ("resolution_status", k.text status) ∷ ("manual", k.truth true) ∷ [];
  }

  abbrev pub leaves : SeriesInput → List (EdgeWrite V)
  leaves i =
      if truthy i.prev_series_id
      then series_edge i.event_id "SUPERSEDED" (or_empty i.prev_series_id) ∷ []
      else []

  unfoldable plan_unlink : SeriesInput → GovernanceResult (SeriesPlan V)
  plan_unlink i =
      if truthy i.prev_series_id
      then done (record {
        nodes = [];
        edges = leaves i;
        superseded = i.prev_series_id;
        created_id = none;
        linked = none;
      })
      else refused no_series_to_unlink

  unfoldable plan_link :
      SeriesInput → GovernanceResult (Bool × Option String) → GovernanceResult (SeriesPlan V)
  plan_link i (refused e) = refused e
  plan_link i (done (found, type)) =
      if found
      then done (record {
        nodes = [];
        edges = leaves i ++ series_edge i.event_id "RESOLVED" (or_empty i.series_id) ∷ [];
        superseded = none;
        created_id = none;
        linked = i.series_id;
      })
      else refused target_entity_not_found

  unfoldable plan_create : SeriesInput → GovernanceResult (SeriesPlan V)
  unfolding entity_cid
  plan_create i =
      let base = n.base (or_empty i.series_name) in
      let target = entity_cid n "series" base i.organizer_name in
      let node : Node V = record {
        id = target;
        type = "event_series";
        properties = ("display_name", k.text (or_empty i.series_name)) ∷ [];
      } in
      if not (truthy i.series_name)
      then refused series_name_required
      else if member base generic_series_titles && not (truthy i.organizer_name)
      then refused generic_series_requires_organizer
      else done (record {
        nodes = node ∷ [];
        edges = leaves i ++ series_edge i.event_id "RESOLVED" target ∷ [];
        superseded = none;
        created_id = some target;
        linked = some target;
      })

  -- The plan of a call; only LINK reads the graph.
  unfoldable pub plan_series : Network → SeriesInput → Governed V → GovernanceResult (SeriesPlan V)
  unfolding plan_unlink plan_link plan_create node_exists
  plan_series net i w =
      if str_eq i.mode "UNLINK"
      then plan_unlink i
      else if str_eq i.mode "LINK"
      then if truthy i.series_id
        then plan_link i (node_exists net (or_empty i.series_id) w.graph)
        else refused series_target_required
      else if str_eq i.mode "CREATE"
      then plan_create i
      else refused bad_mode

  unfoldable pub carry_out :
      Network
      → Time
      → GovernanceResult (SeriesPlan V)
      → Governed V
      → GovernanceResult (SeriesPlan V) × Governed V
  unfolding write_graph
  carry_out net now (refused e) w = (refused e, w)
  carry_out net now (done p) w = write_graph k net now p.nodes p.edges p w

  unfoldable pub correct_series :
      Network → SeriesInput → Time → Governed V → GovernanceResult (SeriesPlan V) × Governed V
  unfolding carry_out plan_series
  correct_series net i now w = carry_out net now (plan_series net i w) w
