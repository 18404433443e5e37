-- ===== src/Crawl/Governance/Creation.antt =====
-- services/crawl-service/crawl_service/governance.py: create_entity, with the lists of generic names
-- of normalizers.py and `_cid` of resolvers.py.
use n_quark.Prelude.{
  String, Bool, true, false, not, ◌&&◌, ◌||◌, Option, none, some, List, [], ◌∷◌, ◌++◌,
  if◌then◌else◌, str_eq, truthy, or_empty, append, member,
}
use n_quark.Prelude.Time.{Time}
use n_quark.Graph.{Node, Properties}
use n_quark.Crawl.Governance.{
  EntityType, GovernanceResult, done, refused, Network, GraphClient, Governed, CandidateReply,
  artist, venue, organizer, event_series, node_type, write_graph, bad_entity_type, empty_name,
  generic_name, venue_requires_city,
}
use n_quark.Crawl.Governance.Accept.{AcceptInput, accept}

-- Text processing by regular expressions: `slug`, `_base`, and dashes replaced by spaces.
pub record Normalizers : Type 0 where
  pub slug : String → String
  pub base : String → String
  pub spaced : String → String

abbrev generic_venue_names : List String
generic_venue_names =
    "town hall" ∷ "community hall" ∷ "the club" ∷ "club" ∷ "auditorium" ∷ "open air theatre"
    ∷ "open air theater" ∷ "amphitheatre" ∷ "amphitheater" ∷ "convention centre"
    ∷ "convention center" ∷ "banquet hall" ∷ "community centre" ∷ "community center" ∷ "city hall"
    ∷ "multipurpose hall" ∷ []

abbrev pub generic_series_titles : List String
generic_series_titles =
    "saturday night" ∷ "open mic" ∷ "live music" ∷ "comedy night" ∷ "karaoke night" ∷ "ladies night"
    ∷ "friday night" ∷ "sunday brunch" ∷ "quiz night" ∷ "jam night" ∷ "trivia night" ∷ "happy hours"
    ∷ []

abbrev pub is_generic : String → Bool
is_generic base =
    member base generic_venue_names
    || member base generic_series_titles
    || member base ("events" ∷ "productions" ∷ "entertainment" ∷ [])

-- The keys of `_ENTITY_PREFIX`.
unfoldable pub entity_type_of : String → Option EntityType
entity_type_of name =
    if str_eq name "ARTIST"
    then some artist
    else if str_eq name "VENUE"
    then some venue
    else if str_eq name "ORGANIZER"
    then some organizer
    else if str_eq name "EVENT_SERIES"
    then some event_series
    else none

abbrev entity_prefix : EntityType → String
entity_prefix artist = "artist"
entity_prefix venue = "venue"
entity_prefix organizer = "organizer"
entity_prefix event_series = "series"

-- `_cid` with one part or two, of which those that are true count.
unfoldable pub entity_cid : Normalizers → String → String → Option String → String
entity_cid n prefix part second =
    let last = n.slug (or_empty second) in
    let tail =
      if truthy second
      then if str_eq part "" then last else append (n.slug part) (append "--" last)
      else if str_eq part ""
      then ""
      else n.slug part in
    append prefix (append ":" tail)

pub record CreateInput : Type 0 where
  pub entity_type : String
  pub canonical_name : String
  pub candidate_id : String
  pub city : Option String
  pub region_id : Option String
  pub organizer_name : Option String
  pub reason_code : String

unfoldable created_cid : Normalizers → CreateInput → EntityType → String
unfolding entity_cid
created_cid n i venue = entity_cid n "venue" (n.spaced (n.slug i.canonical_name)) i.city
created_cid n i event_series =
    entity_cid n "series" (n.spaced (n.slug i.canonical_name)) i.organizer_name
created_cid n i artist = entity_cid n "artist" (n.spaced (n.slug i.canonical_name)) none
created_cid n i organizer = entity_cid n "organizer" (n.spaced (n.slug i.canonical_name)) none

abbrev must_be_specific : EntityType → Bool
must_be_specific artist = false
must_be_specific _ = true

abbrev needs_city : EntityType → Bool
needs_city venue = true
needs_city _ = false

-- The checks of `create_entity`, in their order, and the id that it creates.
unfoldable pub checked_cid :
    Normalizers → CreateInput → Option EntityType → GovernanceResult (EntityType × String)
unfolding created_cid
checked_cid n i none = refused bad_entity_type
checked_cid n i (some etype) =
    if str_eq (n.slug i.canonical_name) ""
    then refused empty_name
    else if is_generic (n.base i.canonical_name) && must_be_specific etype
    then refused generic_name
    else if needs_city etype && not (truthy i.city)
    then refused venue_requires_city
    else done (etype, created_cid n i etype)

abbrev pub create_accept : CreateInput → String → AcceptInput
create_accept i cid = record {
  candidate_id = i.candidate_id;
  canonical_entity_id = cid;
  expected_status = none;
  reason_code = i.reason_code;
  require_exists = false;
}

abbrev opt_property : {V : Type 0} → String → (String → V) → Option String → Properties V
opt_property key text value = if truthy value then (key, text (or_empty value)) ∷ [] else []

module _ {V : Type 0} (n : Normalizers) (k : GraphClient V) where
  -- The second write of `create_entity`.
  unfoldable pub describe :
      Network
      → CreateInput
      → EntityType
      → String
      → Time
      → GovernanceResult CandidateReply × Governed V
      → GovernanceResult (CandidateReply × String) × Governed V
  unfolding write_graph node_type
  describe net i etype cid now (refused e, w) = (refused e, w)
  describe net i etype cid now (done r, w) =
      let node : Node V = record {
        id = cid;
        type = node_type etype;
        properties =
            ("display_name", k.text i.canonical_name)
            ∷ (opt_property "city" k.text i.city ++ opt_property "region_id" k.text i.region_id);
      } in
      write_graph k net now (node ∷ []) [] (r, cid) w

  unfoldable pub create_checked :
      Network
      → CreateInput
      → Time
      → GovernanceResult (EntityType × String)
      → Governed V
      → GovernanceResult (CandidateReply × String) × Governed V
  unfolding describe accept
  create_checked net i now (refused e) w = (refused e, w)
  create_checked net i now (done (etype, cid)) w =
      describe net i etype cid now (accept k net (create_accept i cid) now w)

  unfoldable pub create_entity :
      Network
      → CreateInput
      → Time
      → Governed V
      → GovernanceResult (CandidateReply × String) × Governed V
  unfolding create_checked checked_cid entity_type_of
  create_entity net i now w =
      create_checked net i now (checked_cid n i (entity_type_of i.entity_type)) w
