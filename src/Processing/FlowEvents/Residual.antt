-- ===== src/Processing/FlowEvents/Residual.antt =====
-- Unusual activity as what sweeps and blocks leave over,
-- archive/python-legacy/backend/app/processing/flow_events.py.
use ffllowwgreeks.Prelude.{
  ◌≡◌, refl, inl, inr, Bool, true, false, not, ◌&&◌, List, [], ◌∷◌, ◌++◌, All, ltb, if◌then◌else◌,
  arith, Bool-cases,
}
use ffllowwgreeks.Processing.FlowEvents.{
  Contract, Print, FlowEventConfig, Event, uoa, same_contract, contracts_of, rows_of,
}
use ffllowwgreeks.Processing.FlowEvents.Detect.{
  Reference, Pandas, shown, size_total, is_uoa, has_event, detect_uoa, detect_blocks, detect_sweeps,
  detect_on,
}

-- An event for the volume of a contract that none of the other events shows.
abbrev pub IsResidual : FlowEventConfig → Reference → List Print → List Event → Event → Type 0
IsResidual cfg tables work events e =
    (e.event_type ≡ uoa)
    × (All (λ f. same_contract f.contract e.contract ≡ false) events
        × ((c : Contract) × ((e.contract ≡ shown c)
              × ((e.size ≡ size_total (rows_of c work)) × (is_uoa cfg tables c e.size ≡ true)))))

has_event-All :
    (c : Contract) (events : List Event)
    → has_event c events ≡ false
    → All (λ f. same_contract f.contract (shown c) ≡ false) events
unfolding has_event
has_event-All c [] h = tt
has_event-All c (f ∷ events) h = (ground (arith, h), has_event-All c events (ground (arith, h)))

module _ (cfg : FlowEventConfig) (tables : Reference) (work : List Print)
    (events : List Event) where
  detect_uoa-IsResidual :
      (cs : List Contract)
      → All (IsResidual cfg tables work events) (detect_uoa cfg tables events cs work)
  unfolding detect_uoa
  detect_uoa-IsResidual [] = tt
  detect_uoa-IsResidual (c ∷ cs) =
      let rest = detect_uoa-IsResidual cs in
      let today = size_total (rows_of c work) in
      elim (Bool-cases (not (has_event c events) && is_uoa cfg tables c today)) [
        | inl e ↦ rw (e) (
          (
            refl,
            (has_event-All c events (ground (arith, e)), (c, (refl, (refl, ground (arith, e))))),
          ),
          rest,
        )
        | inr e ↦ rw (e) rest
      ]

-- The events are prints, and then unusual volume that the prints leave over.
abbrev pub IsSplit : FlowEventConfig → Reference → List Print → List Event → List Event → Type 0
IsSplit cfg tables work prints events =
    (unusual : List Event) × ((events ≡ prints ++ unusual)
      × All (IsResidual cfg tables work prints) unusual)

-- The events on a prepared tape are the sweeps, if there are venues and more than one leg is asked
-- for, then the blocks, and then events for unusual volume, each of them for a contract that no
-- sweep and no block shows, with the whole volume of the contract, which passes the test of the
-- reference tables.
pub detect_on-IsSplit :
    (pandas : Pandas) (cfg : FlowEventConfig) (tables : Reference) (has_exchange : Bool)
    (work : List Print)
    → IsSplit cfg tables work
        ((if has_exchange && ltb 1 cfg.sweep_min_legs
            then detect_sweeps pandas.sort_values cfg work
            else [])
          ++ detect_blocks cfg work)
        (detect_on pandas cfg tables has_exchange work)
unfolding detect_on
detect_on-IsSplit pandas cfg tables has_exchange work =
    let prints =
      (if has_exchange && ltb 1 cfg.sweep_min_legs
        then detect_sweeps pandas.sort_values cfg work
        else [])
      ++ detect_blocks cfg work in
    let contracts = pandas.sort_groups (contracts_of [] work) in
    (
      detect_uoa cfg tables prints contracts work,
      (refl, detect_uoa-IsResidual cfg tables work prints contracts),
    )
