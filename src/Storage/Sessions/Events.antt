-- ===== src/Storage/Sessions/Events.antt =====
-- tako_vm/storage.py: a client that reads the events of a session page by page reads each once.
use tako_vm.Prelude.{
  ℕ, zero, suc, ◌≤◌, ◌<◌, String, true, false, ◌&&◌, List, [], ◌∷◌, ◌++◌, ltb, take, drop, str_eq,
  ◌≡◌, refl, sym, ap, arith, ◌∙◌, Bool-cases, inl, inr, take-append-drop, append-nil, append_assoc,
  if◌then◌else◌,
}
use tako_vm.Storage.Sessions.{
  SessionEvent, EventTable, save_session_event, events_after, list_session_events,
}

-- The ids increase along the rows and stay below the sequence.
unfoldable pub IsIncreasing : ℕ → List SessionEvent → Type 0
IsIncreasing low [] = Unit
IsIncreasing low (e ∷ es) = (low ≤ e.id) × IsIncreasing (suc e.id) es

weaker :
    (low high : ℕ) (es : List SessionEvent)
    → low ≤ high
    → IsIncreasing high es
    → IsIncreasing low es
unfolding IsIncreasing
weaker low high [] le inc = tt
weaker low high (e ∷ es) le inc = (omega (arith, le, inc.0), inc.1)

-- The cursor after a page.
unfoldable pub last_id : ℕ → List SessionEvent → ℕ
last_id after [] = after
last_id after (e ∷ es) = last_id e.id es

-- Every event after a cursor below all of them.
events_after-lower :
    (id : String) (a low : ℕ) (es : List SessionEvent)
    → a < low
    → IsIncreasing low es
    → (b : ℕ) → b < low
    → events_after id a es ≡ events_after id b es
unfolding events_after IsIncreasing
events_after-lower id a low [] lt inc b lt_b = refl
events_after-lower id a low (e ∷ es) lt inc b lt_b = ground (
  arith,
  lt,
  lt_b,
  inc.0,
  events_after-lower id a (suc e.id) es (omega (arith, lt, inc.0)) inc.1 b
      (omega (arith, lt_b, inc.0)),
)

-- A page moves the cursor on.
page-le :
    (id : String) (b c n low : ℕ) (es : List SessionEvent)
    → b < low
    → IsIncreasing low es
    → b ≤ last_id b (take n (events_after id c es))
unfolding events_after IsIncreasing last_id
page-le id b c zero low es lt inc = omega arith
page-le id b c (suc n) low [] lt inc = omega arith
page-le id b c (suc n) low (e ∷ es) lt inc =
    elim (Bool-cases (str_eq e.session_id id && ltb c e.id)) [
      | inl kept ↦
          rw (events_after, kept)
            (omega (arith, lt, inc.0, page-le id e.id c n (suc e.id) es (omega arith) inc.1))
      | inr other ↦
          rw (events_after, other)
            (page-le id b c (suc n) (suc e.id) es (omega (arith, lt, inc.0)) inc.1)
    ]

cursor-le :
    (id : String) (a n low : ℕ) (es : List SessionEvent)
    → IsIncreasing low es
    → a ≤ last_id a (take n (events_after id a es))
unfolding events_after IsIncreasing last_id
cursor-le id a zero low es inc = omega arith
cursor-le id a (suc n) low [] inc = omega arith
cursor-le id a (suc n) low (e ∷ es) inc = elim (Bool-cases (str_eq e.session_id id && ltb a e.id)) [
  | inl kept ↦
      rw (events_after, kept)
        (ground (arith, kept, page-le id e.id a n (suc e.id) es (omega arith) inc.1))
  | inr other ↦ rw (events_after, other) (cursor-le id a (suc n) (suc e.id) es inc.1)
]

-- A row at most the cursor is not listed.
events_after-old :
    (id : String) (a : ℕ) (e : SessionEvent) (es : List SessionEvent)
    → (str_eq e.session_id id && ltb a e.id) ≡ false
    → events_after id a (e ∷ es) ≡ events_after id a es
unfolding events_after
events_after-old id a e es h = rw h refl

events_after-new :
    (id : String) (a : ℕ) (e : SessionEvent) (es : List SessionEvent)
    → (str_eq e.session_id id && ltb a e.id) ≡ true
    → events_after id a (e ∷ es) ≡ e ∷ events_after id a es
unfolding events_after
events_after-new id a e es h = rw h refl

-- The rest after a page.
next_page :
    (id : String) (a n low : ℕ) (es : List SessionEvent)
    → IsIncreasing low es
    → events_after id (last_id a (take n (events_after id a es))) es ≡ drop n (events_after id a es)
unfolding events_after IsIncreasing last_id
next_page id a zero low es inc = refl
next_page id a (suc n) low [] inc = refl
next_page id a (suc n) low (e ∷ es) inc = elim (Bool-cases (str_eq e.session_id id && ltb a e.id)) [
  | inl kept ↦
      let whole =
        events_after-new id a e es kept
        ∙ ap (◌∷◌ e) (
            events_after-lower id a (suc e.id) es (ground (arith, kept)) inc.1 e.id
              (omega arith)) in
      ap (λ xs. events_after id (last_id a (take (suc n) xs)) (e ∷ es)) whole
      ∙ events_after-old id (last_id e.id (take n (events_after id e.id es))) e es
          (ground (arith, page-le id e.id e.id n (suc e.id) es (omega arith) inc.1))
      ∙ next_page id e.id n (suc e.id) es inc.1
      ∙ sym (ap (drop (suc n)) whole)
  | inr other ↦
      let rest = events_after-old id a e es other in
      ap (λ xs. events_after id (last_id a (take (suc n) xs)) (e ∷ es)) rest
      ∙ events_after-old id (last_id a (take (suc n) (events_after id a es))) e es
          (ground (arith, other, cursor-le id a (suc n) (suc e.id) es inc.1))
      ∙ next_page id a (suc n) (suc e.id) es inc.1
      ∙ sym (ap (drop (suc n)) rest)
]

-- The table after events are saved, from an empty one.
unfoldable pub saved_events : List SessionEvent → EventTable → EventTable
unfolding save_session_event
saved_events [] t = t
saved_events (e ∷ es) t = saved_events es (save_session_event t e).1

-- The ids of a table increase and are below its sequence.
unfoldable pub IsBelow : ℕ → ℕ → List SessionEvent → Type 0
IsBelow low next [] = low ≤ next
IsBelow low next (e ∷ es) = (low ≤ e.id) × IsBelow (suc e.id) next es

IsBelow-IsIncreasing :
    (low next : ℕ) (es : List SessionEvent) → IsBelow low next es → IsIncreasing low es
unfolding IsBelow IsIncreasing
IsBelow-IsIncreasing low next [] h = tt
IsBelow-IsIncreasing low next (e ∷ es) h = (h.0, IsBelow-IsIncreasing (suc e.id) next es h.1)

append-IsBelow :
    (low next : ℕ) (es : List SessionEvent) (e : SessionEvent)
    → IsBelow low next es
    → e.id ≡ next
    → IsBelow low (suc next) (es ++ e ∷ [])
unfolding IsBelow
append-IsBelow low next [] e h same = (omega (arith, h, same), omega (arith, same))
append-IsBelow low next (x ∷ es) e h same = (h.0, append-IsBelow (suc x.id) next es e h.1 same)

saved_events-IsBelow :
    (es : List SessionEvent) (t : EventTable)
    → IsBelow 0 t.next_id t.rows
    → IsIncreasing 0 (saved_events es t).rows
unfolding saved_events save_session_event
saved_events-IsBelow [] t h = IsBelow-IsIncreasing 0 t.next_id t.rows h
saved_events-IsBelow (e ∷ es) t h =
    saved_events-IsBelow es (save_session_event t e).1
      (append-IsBelow 0 t.next_id t.rows (record e { id = t.next_id }) h refl)

abbrev pub empty_table : EventTable
empty_table = record { next_id = 1; rows = [] }

-- The saved events with their ids, from `next` on.
unfoldable pub numbered : ℕ → List SessionEvent → List SessionEvent
numbered next [] = []
numbered next (e ∷ es) = record e { id = next } ∷ numbered (suc next) es

-- The numbered events of a session whose id is above a cursor, by what was saved alone.
unfoldable pub expected : (id : String) (after next : ℕ) → List SessionEvent → List SessionEvent
expected id after next [] = []
expected id after next (e ∷ es) =
    let rest = expected id after (suc next) es in
    if str_eq e.session_id id && ltb after next then record e { id = next } ∷ rest else rest

saved_events-rows :
    (es : List SessionEvent) (t : EventTable)
    → (saved_events es t).rows ≡ t.rows ++ numbered t.next_id es
unfolding saved_events save_session_event numbered
saved_events-rows [] t = sym (append-nil t.rows)
saved_events-rows (e ∷ es) t =
    saved_events-rows es (save_session_event t e).1
    ∙ append_assoc t.rows (record e { id = t.next_id } ∷ []) (numbered (suc t.next_id) es)

events_after-expected :
    (id : String) (after next : ℕ) (es : List SessionEvent)
    → events_after id after (numbered next es) ≡ expected id after next es
unfolding events_after numbered expected
events_after-expected id after next [] = refl
events_after-expected id after next (e ∷ es) =
    rw (events_after-expected id after (suc next) es) refl

-- After any events are saved in an empty table, a page of a session's events after a cursor,
-- followed by what is listed after the last id of the page, is the saved events of that session,
-- in the order in which they were saved and numbered from 1, whose number is above the cursor: a
-- client that reads on from each page misses none and sees none twice.
pub list_session_events-next :
    (es : List SessionEvent) (id : String) (after limit : ℕ)
    → list_session_events (saved_events es empty_table) id after limit
        ++ events_after id
            (last_id after (list_session_events (saved_events es empty_table) id after limit))
            (saved_events es empty_table).rows
      ≡ expected id after 1 es
unfolding list_session_events IsBelow
list_session_events-next es id after limit =
    let rows = (saved_events es empty_table).rows in
    ap (◌++◌ (take limit (events_after id after rows)))
      (next_page id after limit 0 rows (saved_events-IsBelow es empty_table (omega arith)))
    ∙ take-append-drop limit (events_after id after rows)
    ∙ ap (events_after id after) (saved_events-rows es empty_table)
    ∙ events_after-expected id after 1 es
