-- ===== src/Api/Streaming/Slots.antt =====
-- The per-key slots of archive/python-legacy/backend/app/api/endpoints/stream.py over the lives of
-- its sockets: each one that got a slot gives it back once, when its handler ends.
use ffllowwgreeks.Prelude.{
  ℕ, zero, suc, ◌+◌, ◌-◌, ◌≤◌, ◌≡◌, refl, Bool, true, not, inl, inr, false, List, [], ◌∷◌,
  if◌then◌else◌, Text, same, same_iff, leb, arith, Bool-cases,
}
use ffllowwgreeks.Prelude.Dict
use ffllowwgreeks.Prelude.Dict.{Dict}
use ffllowwgreeks.Api.Streaming.{ws_try_register, ws_release, ws_connection_count}

-- The table of counters and the key of every open socket.
pub record Slots : Type 0 where
  pub counters : Dict ℕ
  pub sockets : List Text

pub data Event : Type 0 where
  connect : Text → Event
  disconnect : ℕ → Event

abbrev pub occurrences : Text → List Text → ℕ
occurrences i [] = 0
occurrences i (j ∷ js) = let n = occurrences i js in if same j i then suc n else n

abbrev pub remove_nth : ℕ → List Text → List Text
remove_nth n [] = []
remove_nth zero (j ∷ js) = js
remove_nth (suc n) (j ∷ js) = j ∷ remove_nth n js

abbrev pub give_back : ℕ → List Text → Dict ℕ → Dict ℕ
give_back n [] d = d
give_back zero (j ∷ js) d = ws_release j d
give_back (suc n) (j ∷ js) d = give_back n js d

step : ℕ → Event → Slots → Slots
step cap (connect i) s =
    let taken = ws_try_register cap i s.counters in
    record { counters = taken.1; sockets = if taken.0 then i ∷ s.sockets else s.sockets }
step cap (disconnect n) s = record {
  counters = give_back n s.sockets s.counters;
  sockets = remove_nth n s.sockets;
}

unfoldable pub run : ℕ → List Event → Slots → Slots
unfolding step
run cap [] s = s
run cap (e ∷ es) s = run cap es (step cap e s)

count-ws_release :
    (i j : Text) (d : Dict ℕ)
    → ws_connection_count i (ws_release j d)
      ≡ (if same j i then ws_connection_count i d - 1 else ws_connection_count i d)
unfolding ws_release ws_connection_count
count-ws_release i j d =
    ground
      (arith, Dict.get-remove d j i, Dict.get-put d j i (Dict.get_default d j 0 - 1), same_iff j i)

count-ws_try_register :
    (cap : ℕ) (i j : Text) (d : Dict ℕ)
    → ws_connection_count i (ws_try_register cap j d).1 ≡ (
        if same j i
        then if leb cap (ws_connection_count i d)
          then ws_connection_count i d
          else suc (ws_connection_count i d)
        else ws_connection_count i d)
unfolding ws_try_register ws_connection_count
count-ws_try_register cap i j d = ground (
  arith,
  Dict.get-put d j i (Dict.get_default d j 0),
  Dict.get-put d j i (Dict.get_default d j 0 + 1),
  same_iff j i,
)

taken-ws_try_register :
    (cap : ℕ) (j : Text) (d : Dict ℕ)
    → (ws_try_register cap j d).0 ≡ not (leb cap (ws_connection_count j d))
unfolding ws_try_register ws_connection_count
taken-ws_try_register cap j d = ground arith

abbrev nth_is : Text → ℕ → List Text → Bool
nth_is i n [] = false
nth_is i zero (j ∷ js) = same j i
nth_is i (suc n) (j ∷ js) = nth_is i n js

count-give_back :
    (i : Text) (n : ℕ) (js : List Text) (d : Dict ℕ)
    → ws_connection_count i (give_back n js d)
      ≡ (if nth_is i n js then ws_connection_count i d - 1 else ws_connection_count i d)
count-give_back i n [] d = refl
count-give_back i zero (j ∷ js) d = count-ws_release i j d
count-give_back i (suc n) (j ∷ js) d = count-give_back i n js d

occurs : (i : Text) (n : ℕ) (js : List Text) → nth_is i n js ≡ true → 1 ≤ occurrences i js
occurs i n [] h = absurd (ground arith)
occurs i zero (j ∷ js) h = ground arith
occurs i (suc n) (j ∷ js) h = ground (arith, occurs i n js h)

occurrences-remove_nth :
    (i : Text) (n : ℕ) (js : List Text)
    → occurrences i (remove_nth n js)
      ≡ (if nth_is i n js then occurrences i js - 1 else occurrences i js)
occurrences-remove_nth i n [] = refl
occurrences-remove_nth i zero (j ∷ js) = ground arith
occurrences-remove_nth i (suc n) (j ∷ js) =
    ground (arith, occurrences-remove_nth i n js, occurs i n js)

disconnect-AtMost :
    (cap n : ℕ) (i : Text) (js : List Text)
    → occurrences i js ≤ cap
    → occurrences i (remove_nth n js) ≤ cap
disconnect-AtMost cap n i js h = ground (arith, occurrences-remove_nth i n js)

connect-counts :
    (cap : ℕ) (i j : Text) (d : Dict ℕ) (js : List Text)
    → ws_connection_count i d ≡ occurrences i js
    → occurrences i js ≤ cap
    → (ws_connection_count i (ws_try_register cap j d).1
        ≡ occurrences i (if (ws_try_register cap j d).0 then j ∷ js else js))
      × (occurrences i (if (ws_try_register cap j d).0 then j ∷ js else js) ≤ cap)
connect-counts cap i j d js h b = elim (Bool-cases (leb cap (ws_connection_count j d))) [
  | inl e ↦
      rw (taken-ws_try_register cap j d, e)
        (ground (arith, count-ws_try_register cap i j d, same_iff j i, e, h, b))
  | inr e ↦
      rw (taken-ws_try_register cap j d, e)
        (ground (arith, count-ws_try_register cap i j d, same_iff j i, e, h, b))
]

-- Both hold of a state.
pub IsExact : ℕ → Slots → Type 0
IsExact cap s =
    (i : Text)
    → (ws_connection_count i s.counters ≡ occurrences i s.sockets) × (occurrences i s.sockets ≤ cap)

step-IsExact : (cap : ℕ) (e : Event) (s : Slots) → IsExact cap s → IsExact cap (step cap e s)
unfolding IsExact step
step-IsExact cap (connect j) s h i = connect-counts cap i j s.counters s.sockets (h i).0 (h i).1
step-IsExact cap (disconnect n) s h i = (
  ground (
    arith,
    count-give_back i n s.sockets s.counters,
    occurrences-remove_nth i n s.sockets,
    (h i).0,
  ),
  disconnect-AtMost cap n i s.sockets (h i).1,
)

run-IsExact : (cap : ℕ) (es : List Event) (s : Slots) → IsExact cap s → IsExact cap (run cap es s)
unfolding run
run-IsExact cap [] s h = h
run-IsExact cap (e ∷ es) s h = run-IsExact cap es (step cap e s) (step-IsExact cap e s h)

unfoldable pub no_slots : Slots
no_slots = record { counters = Dict.empty; sockets = [] }

-- However sockets come and go, no key ever has more open sockets than the cap, and its counter is
-- the number of its open sockets.
pub run-no_slots-IsExact : (cap : ℕ) (es : List Event) → IsExact cap (run cap es no_slots)
unfolding IsExact no_slots ws_connection_count
run-no_slots-IsExact cap es =
    run-IsExact cap es no_slots (λ i. (ground (arith, Dict.get-empty {V = ℕ} i), omega arith))
