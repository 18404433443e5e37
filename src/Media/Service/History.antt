-- ===== src/Media/Service/History.antt =====
-- service.py: what any sequence of observations leaves in the tables, seen key by key.
use n_quark.Prelude.{
  ℕ, ◌≡◌, refl, ap, sym, ◌∙◌, inl, inr, String, Bool, ◌&&◌, Option, none, some, List, [], ◌∷◌, ◌++◌,
  arith, if◌then◌else◌, if_ind, truthy, or_empty, Bool-cases, subst,
}
use mathlib.Core.List.{append-nil}
use n_quark.Prelude.Time.{Time}
use n_quark.Media.{MediaTransition, StateView, ObsFacts, detect}
use n_quark.Media.History.{stored, replay, Accounts, history-Accounts}
use n_quark.Media.Service.{
  ObserveInput, Payload, FetchResult, MediaKey, MediaObservation, EventMediaState, MediaTables,
  same_key, find_state, find_observation, view_of, view_found, apply_facts,
}
use n_quark.Media.Service.Observe.{
  Fetched, key_of, facts_of, fetched_with, fetch_phase, upsert_asset, observed, url_of, with_facts,
  record_observation, observe,
}
use n_quark.Media.Service.Refines.{
  view, log_of, log_of-append, log_of-rows, write_state-view, detect_first_seen, KeepsFirst,
  find_state_same,
}

abbrev pub log : MediaKey → MediaTables → List MediaTransition
log key t = log_of key t.transitions

-- A step of the tables is, for a key, what the detector makes of these facts.
abbrev Refines : MediaKey → MediaTables → MediaTables → List ObsFacts → Type 0
Refines key t t' facts = (view key t', log key t') ≡ replay (view key t) (log key t) facts

detect-KeepsFirst :
    (found : Option EventMediaState) (facts : ObsFacts)
    → KeepsFirst found (detect (view_found found) facts).new_state
detect-KeepsFirst none facts = tt
detect-KeepsFirst (some row) facts = go (detect (view_found (some row)) facts).new_state refl
  where
    go :
        (ns : Option StateView)
        → (detect (view_found (some row)) facts).new_state ≡ ns
        → KeepsFirst (some row) ns
    go none e = tt
    go (some s) e = detect_first_seen (view_of row) facts s e

module _ (key key' : MediaKey) (facts : ObsFacts) (id : String) (t : MediaTables) where
  apply_view :
      view key' (apply_facts key facts id t)
      ≡ (if same_key key key' then stored (view key t) (detect (view key t) facts) else view key' t)
  unfolding apply_facts
  apply_view =
      write_state-view key key' id (find_state key t.states) (detect (view key t) facts).new_state
        t.states refl (detect-KeepsFirst (find_state key t.states) facts)

  apply_log :
      log key' (apply_facts key facts id t)
      ≡ log key' t ++ (if same_key key key' then (detect (view key t) facts).transitions else [])
  unfolding apply_facts
  apply_log =
      log_of-append key' t.transitions _
      ∙ ap (λ l. log key' t ++ l)
          (log_of-rows key key' (view key t) facts id (detect (view key t) facts).out_of_order
            (detect (view key t) facts).transitions)

  apply-Refines :
      Refines key' t (apply_facts key facts id t) (if same_key key key' then facts ∷ [] else [])
  unfolding replay
  apply-Refines = elim (Bool-cases (same_key key key')) [
    | inl own ↦
        ground
          (arith, own, apply_view, apply_log, ap view_found (find_state_same key key' t.states own))
    | inr other ↦ ground (arith, other, apply_view, apply_log, append-nil (log key' t))
  ]

replay-append :
    (prev : Option StateView) (before : List MediaTransition) (xs ys : List ObsFacts)
    → replay prev before (xs ++ ys) ≡ replay (replay prev before xs).0 (replay prev before xs).1 ys
unfolding replay
replay-append prev before [] ys = refl
replay-append prev before (x ∷ xs) ys =
    replay-append (stored prev (detect prev x)) (before ++ (detect prev x).transitions) xs ys

module _ (new_id : ℕ → String) (normalize : String → String) (fetch : String → FetchResult)
    (fetch_enabled : Bool) (now : Time) where
  -- The fetch phase writes assets only.
  fetched_with-kept :
      (res : FetchResult) (payload : Option Payload) (at : Time) (t : MediaTables)
      → let t' = (fetched_with new_id normalize fetch fetch_enabled now res payload at t).1 in
        (t'.states ≡ t.states) × (t'.transitions ≡ t.transitions)
  unfolding fetched_with upsert_asset
  fetched_with-kept res none at t = (refl, refl)
  fetched_with-kept res (some p) at t = ground arith

  fetch_phase-kept :
      (inp : ObserveInput) (at : Time) (t : MediaTables)
      → let t' = (fetch_phase new_id normalize fetch fetch_enabled now inp at t).1 in
        (t'.states ≡ t.states) × (t'.transitions ≡ t.transitions)
  unfolding fetch_phase
  fetch_phase-kept inp at t =
      let res = fetch (or_empty inp.asset_url) in
      if_ind
        (λ (r : Fetched × MediaTables). (r.1.states ≡ t.states) × (r.1.transitions ≡ t.transitions))
        (truthy inp.asset_url && fetch_enabled)
        (λ _. fetched_with-kept res (if res.ok then res.payload else none) at t) (λ _. (refl, refl))

  abbrev listed : Option ObsFacts → List ObsFacts
  listed none = []
  listed (some facts) = facts ∷ []

  abbrev made : MediaKey → ObserveInput → Fetched → Option MediaObservation → List ObsFacts
  made key inp f (some o) = []
  made key inp f none =
      if same_key (key_of inp) key
      then listed (
          facts_of inp (url_of new_id normalize fetch fetch_enabled now inp)
            (observed new_id normalize fetch fetch_enabled now inp) f)
      else []

  -- The facts that one observation adds to the history of a key: none if it is a repeated one, if its
  -- fetch failed, if it says nothing, or if it is of another key.
  unfoldable pub facts_for : MediaKey → ObserveInput → MediaTables → List ObsFacts
  facts_for key inp t =
      let at = observed new_id normalize fetch fetch_enabled now inp in
      let (f, t') = fetch_phase new_id normalize fetch fetch_enabled now inp at t in
      made key inp f (
        find_observation (key_of inp) (url_of new_id normalize fetch fetch_enabled now inp) at
          t'.observations)

  with_facts-Refines :
      (key key' : MediaKey) (id : String) (facts : Option ObsFacts) (t : MediaTables)
      → Refines key' t
          (with_facts new_id normalize fetch fetch_enabled now key id facts t)
          (if same_key key key' then listed facts else [])
  unfolding with_facts replay
  with_facts-Refines key key' id none t = ground arith
  with_facts-Refines key key' id (some facts) t = apply-Refines key key' facts id t

  record-Refines :
      (key : MediaKey) (inp : ObserveInput) (f : Fetched) (o : Option MediaObservation)
      (t : MediaTables)
      → Refines key t
          (record_observation new_id normalize fetch fetch_enabled now inp f o t).1
          (made key inp f o)
  unfolding record_observation replay
  record-Refines key inp f (some o) t = refl
  record-Refines key inp f none t = with_facts-Refines (key_of inp) key _ _ _

  observe-Refines :
      (key : MediaKey) (inp : ObserveInput) (t : MediaTables)
      → Refines key t
          (observe new_id normalize fetch fetch_enabled now inp t).1
          (facts_for key inp t)
  unfolding observe facts_for
  observe-Refines key inp t =
      let at = observed new_id normalize fetch fetch_enabled now inp in
      let (f, t') = fetch_phase new_id normalize fetch fetch_enabled now inp at t in
      let found =
        find_observation (key_of inp) (url_of new_id normalize fetch fetch_enabled now inp) at
          t'.observations in
      let (states, rows) = fetch_phase-kept inp at t in
      record-Refines key inp f found t'
      ∙ ap (λ l. replay (view_found (find_state key l)) (log key t') (made key inp f found)) states
      ∙ ap (λ l. replay (view key t) (log_of key l) (made key inp f found)) rows

-- A call of `observe` as it comes: its input, what its fetch would answer, whether fetching is on,
-- and its instant.
pub record Call : Type 0 where
  pub input : ObserveInput
  pub fetch : String → FetchResult
  pub fetch_enabled : Bool
  pub now : Time

module _ (new_id : ℕ → String) (normalize : String → String) where
  abbrev after_call : Call → MediaTables → MediaTables
  after_call c t = (observe new_id normalize c.fetch c.fetch_enabled c.now c.input t).1

  -- A sequence of observations.
  unfoldable pub observe_all : List Call → MediaTables → MediaTables
  observe_all [] t = t
  observe_all (c ∷ rest) t = observe_all rest (after_call c t)

  unfoldable pub history_for : MediaKey → List Call → MediaTables → List ObsFacts
  history_for key [] t = []
  history_for key (c ∷ rest) t =
      facts_for new_id normalize c.fetch c.fetch_enabled c.now key c.input t
      ++ history_for key rest (after_call c t)

  pub observe_all-Refines :
      (key : MediaKey) (calls : List Call) (t : MediaTables)
      → (view key (observe_all calls t), log key (observe_all calls t))
        ≡ replay (view key t) (log key t) (history_for key calls t)
  unfolding observe_all history_for replay
  observe_all-Refines key [] t = refl
  observe_all-Refines key (c ∷ rest) t =
      let t' = after_call c t in
      let facts = facts_for new_id normalize c.fetch c.fetch_enabled c.now key c.input t in
      let more = history_for key rest t' in
      observe_all-Refines key rest t'
      ∙ ap (λ (r : Option StateView × List MediaTransition). replay r.0 r.1 more)
          (observe-Refines new_id normalize c.fetch c.fetch_enabled c.now key c.input t)
      ∙ sym (replay-append (view key t) (log key t) facts more)

  -- From tables without states and transitions, after any sequence of observations, each with a
  -- response, a fetch setting and an instant of its own, the state row of each key accounts for the
  -- transitions that are stored for it: one first sighting, a version that counts the changes of
  -- content, and a presence that balances the disappearances.
  pub observe_all-Accounts :
      (key : MediaKey) (calls : List Call) (t : MediaTables)
      → t.states ≡ []
      → t.transitions ≡ []
      → Accounts (view key (observe_all calls t)) (log key (observe_all calls t))
  unfolding log_of replay find_state
  observe_all-Accounts key calls t no_states no_rows =
      let facts = history_for key calls t in
      let e =
        observe_all-Refines key calls t
        ∙ ap (λ l. replay (view_found (find_state key l)) (log key t) facts) no_states
        ∙ ap (λ l. replay none (log_of key l) facts) no_rows in
      subst (λ (r : Option StateView × List MediaTransition). Accounts r.0 r.1) (sym e)
        (history-Accounts facts)
