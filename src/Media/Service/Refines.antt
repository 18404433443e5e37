-- ===== src/Media/Service/Refines.antt =====
-- service.py over transitions.py: the tables behave, key by key, as the detector over one state.
use n_quark.Prelude.{
  ◌≡◌, refl, ◌↔◌, ap, ◌∙◌, inl, inr, String, Bool, true, false, Option, none, some, List, [], ◌∷◌,
  ◌++◌, arith, if◌then◌else◌, is_some, eq_iff, Bool-cases,
}
use n_quark.Media.{MediaTransition, StateView, ObsFacts, detect}
use n_quark.Media.Service.{
  MediaKey, EventMediaState, TransitionRow, MediaTables, same_key, find_state, put_state, view_of,
  view_found, new_state, changed_state, transition_rows, write_state,
}

-- The abstract view of a key: its state, and its transitions in the order of the table.
abbrev pub view : MediaKey → MediaTables → Option StateView
view key t = view_found (find_state key t.states)

unfoldable pub log_of : MediaKey → List TransitionRow → List MediaTransition
log_of key [] = []
log_of key (row ∷ rest) =
    let later = log_of key rest in
    if same_key row.key key then row.transition_type ∷ later else later

same_key_iff :
    (a b : MediaKey)
    → (same_key a b ≡ true) ↔ (
        (a.canonical_event_id ≡ b.canonical_event_id)
        × (a.source ≡ b.source)
        × (a.asset_role ≡ b.asset_role))
same_key_iff a b = ground (
  arith,
  eq_iff a.canonical_event_id b.canonical_event_id,
  eq_iff a.source b.source,
  eq_iff a.asset_role b.asset_role,
)

find_state-append :
    (key : MediaKey) (states : List EventMediaState) (row : EventMediaState)
    → find_state key states ≡ none
    → find_state key (states ++ row ∷ []) ≡ (if same_key row.key key then some row else none)
unfolding find_state
find_state-append key [] row h = refl
find_state-append key (x ∷ rest) row h = ground (arith, find_state-append key rest row)

find_state-append_other :
    (key : MediaKey) (states : List EventMediaState) (row : EventMediaState)
    → same_key row.key key ≡ false
    → find_state key (states ++ row ∷ []) ≡ find_state key states
unfolding find_state
find_state-append_other key [] row h = ground (arith, h)
find_state-append_other key (x ∷ rest) row h =
    ground (arith, find_state-append_other key rest row h)

find_state-put :
    (key : MediaKey) (row : EventMediaState) (states : List EventMediaState)
    → is_some (find_state row.key states) ≡ true
    → find_state key (put_state row states)
      ≡ (if same_key row.key key then some row else find_state key states)
unfolding find_state put_state
find_state-put key row [] h = ground arith
find_state-put key row (x ∷ rest) h = ground (
  arith,
  find_state-put key row rest,
  same_key_iff x.key row.key,
  same_key_iff x.key key,
  same_key_iff row.key key,
)

find_state_key :
    (key : MediaKey) (states : List EventMediaState) (row : EventMediaState)
    → find_state key states ≡ some row
    → same_key row.key key ≡ true
unfolding find_state
find_state_key key [] row h = ground arith
find_state_key key (x ∷ rest) row h = ground (arith, find_state_key key rest row)

-- The detector never moves the first sighting.
pub detect_first_seen :
    (prev : StateView) (facts : ObsFacts) (s : StateView)
    → (detect (some prev) facts).new_state ≡ some s
    → s.first_seen_at ≡ prev.first_seen_at
unfolding detect
detect_first_seen prev facts s h = ground (arith, h)

pub log_of-append :
    (key : MediaKey) (xs ys : List TransitionRow)
    → log_of key (xs ++ ys) ≡ log_of key xs ++ log_of key ys
unfolding log_of
log_of-append key [] ys = refl
log_of-append key (x ∷ xs) ys = ground (arith, log_of-append key xs ys)

pub log_of-rows :
    (key key' : MediaKey) (prev : Option StateView) (facts : ObsFacts) (id : String) (late : Bool)
    (ts : List MediaTransition)
    → log_of key' (transition_rows key prev facts id late ts)
      ≡ (if same_key key key' then ts else [])
unfolding log_of transition_rows
log_of-rows key key' prev facts id late [] = ground arith
log_of-rows key key' prev facts id late (t ∷ ts) =
    ground (arith, log_of-rows key key' prev facts id late ts)

pub find_state_same :
    (key key' : MediaKey) (states : List EventMediaState)
    → same_key key key' ≡ true
    → find_state key' states ≡ find_state key states
unfolding find_state
find_state_same key key' [] h = refl
find_state_same key key' (x ∷ rest) h = ground (
  arith,
  find_state_same key key' rest h,
  same_key_iff key key',
  same_key_iff x.key key,
  same_key_iff x.key key',
)

-- The first sighting of a written state is that of its row.
abbrev pub KeepsFirst : Option EventMediaState → Option StateView → Type 0
KeepsFirst none ns = Unit
KeepsFirst (some row) none = Unit
KeepsFirst (some row) (some s) = s.first_seen_at ≡ row.first_seen_at

pub write_state-view :
    (key key' : MediaKey) (id : String) (found : Option EventMediaState) (ns : Option StateView)
    (states : List EventMediaState)
    → find_state key states ≡ found
    → KeepsFirst found ns
    → view_found (find_state key' (write_state key id found ns states)) ≡ (
        if same_key key key'
        then (elim ns [ none ↦ view_found found | some s ↦ some s ])
        else view_found (find_state key' states))
unfolding write_state
write_state-view key key' id found none states e k =
    ground (arith, find_state_same key key' states, ap view_found e)
write_state-view key key' id none (some s) states e k = elim (Bool-cases (same_key key key')) [
  | inl own ↦
      let e' =
        find_state-append key' states (new_state key id s)
          (find_state_same key key' states own ∙ e) in
      ground (arith, own, ap view_found e')
  | inr other ↦
      ground (
        arith,
        other,
        ap view_found (find_state-append_other key' states (new_state key id s) other),
      )
]
write_state-view key key' id (some row) (some s) states e k =
    let own = find_state_key key states row e in
    let same = same_key_iff row.key key in
    let e' = find_state-put key' (changed_state id s row) states (
      ground (arith, e, own, find_state_same key row.key states, same_key_iff key row.key, same)) in
    let seen : view_of (changed_state id s row) ≡ s = ground (arith, k) in
    ground
      (arith, seen, ap view_found e', same, own, same_key_iff row.key key', same_key_iff key key')
