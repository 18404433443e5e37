-- ===== src/Crawl/Governance/Commands.antt =====
-- services/crawl-service/crawl_service/governance.py: the commands of an operator, in any order, over
-- one state.
use n_quark.Prelude.{String, Option, List, [], ◌∷◌, ℕ}
use n_quark.Prelude.Time.{Time}
use n_quark.Crawl.Governance.{Network, GraphClient, Governed, transacted}
use n_quark.Crawl.Governance.Accept.{AcceptInput, accept}
use n_quark.Crawl.Governance.Withdraw.{ReverseInput, reject, mark_unresolved, reverse_accept}
use n_quark.Crawl.Governance.Creation.{Normalizers, CreateInput, create_entity}
use n_quark.Crawl.Governance.Artists.{create_artist, reconcile_graph_artists}
use n_quark.Crawl.Governance.Supersede.{SupersedeInput, supersede_legacy, unsupersede}
use n_quark.Crawl.Governance.Series.{SeriesInput, correct_series}

pub data Command (V : Type 0) : Type 0 where
  do_accept : AcceptInput → Command V
  do_reject : String → String → Option String → Command V
  do_unresolve : String → String → Command V
  do_reverse : ReverseInput → Command V
  do_create : CreateInput → Command V
  do_create_artist : String → String → Option String → Option V → Command V
  do_reconcile : (ℕ → String) → ℕ → Command V
  do_supersede : SupersedeInput → Command V
  do_unsupersede : String → Command V
  do_series : SeriesInput → Command V

module _ {V : Type 0} (n : Normalizers) (k : GraphClient V) where
  unfoldable pub step : Network → Time → Command V → Governed V → Governed V
  step net now (do_accept i) w = (accept k net i now w).1
  step net now (do_reject id reason expected) w =
      (transacted w (reject id reason expected now w.tables)).1
  step net now (do_unresolve id reason) w =
      (transacted w (mark_unresolved id reason now w.tables)).1
  step net now (do_reverse i) w = (reverse_accept k net i now w).1
  step net now (do_create i) w = (create_entity n k net i now w).1
  step net now (do_create_artist id name source p) w =
      (create_artist n k net id name source p now w).1
  step net now (do_reconcile uuid limit) w = (reconcile_graph_artists n k net uuid limit now w).1
  step net now (do_supersede i) w = (supersede_legacy k net i now w).1
  step net now (do_unsupersede legacy) w = (unsupersede k net legacy now w).1
  step net now (do_series i) w = (correct_series n k net i now w).1

  -- Each command at its instant, with what the network does to it.
  unfoldable pub run : List (Network × Time × Command V) → Governed V → Governed V
  run [] w = w
  run ((net, now, c) ∷ rest) w = run rest (step net now c w)
