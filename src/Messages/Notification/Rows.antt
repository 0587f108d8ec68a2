-- ===== src/Messages/Notification/Rows.antt =====
-- The slots that queryMessages fills hold exactly the rows, and no nil pointer.
use datafoundry_proxy.Base.{
  ℕ, ◌+◌, ◌≤◌, ◌<◌, ◌≡◌, refl, ap, ◌∙◌, List, [], ◌∷◌, ◌++◌, append_assoc, append-nil, Option, none,
  some, length, take, length-append, take-append, ltb-false, arith, lt→ltb, le→leb,
}
use datafoundry_proxy.Base.Int.{pos}
use datafoundry_proxy.Database.{Row}
use datafoundry_proxy.Messages.Notification.{Message}
use datafoundry_proxy.Messages.Notification.Query.{
  max_slots, nils, set_slot, placed, fill_rows, slots_of, filled, parse_all, parsed_data,
}

abbrev pub message_of : Row → Message
message_of row = record { row = row; json_data = none }

-- The pointers to the messages of the rows.
abbrev pub pointers : List Row → List (Option Message)
pointers [] = []
pointers (row ∷ rows) = some (message_of row) ∷ pointers rows

set_slot-append :
    (msg : Message) (front : List (Option Message)) (m : Option Message)
    (back : List (Option Message))
    → set_slot (length front) msg (front ++ m ∷ back) ≡ front ++ some msg ∷ back
set_slot-append msg [] m back = refl
set_slot-append msg (x ∷ front) m back = ap (λ l. x ∷ l) (set_slot-append msg front m back)

placed-append :
    (msg : Message) (front back : List (Option Message)) (num : ℕ)
    → num ≡ length front
    → (rest : List (Option Message)) × (placed num msg (front ++ back)
        ≡ (front ++ some msg ∷ []) ++ rest)
placed-append msg front [] num e = (
  [],
  rw
      (
        append-nil front,
        append-nil (front ++ some msg ∷ []),
        ltb-false num (length front) (omega arith),
      )
      refl,
)
placed-append msg front (m ∷ back) num e =
    let short : num < length (front ++ m ∷ back) = omega (arith, length-append front (m ∷ back)) in
    (
      back,
      rw (lt→ltb num (length (front ++ m ∷ back)) short, e, append_assoc)
          (set_slot-append msg front m back),
    )

fill_rows-pointers :
    (front back : List (Option Message)) (rows : List Row) (num : ℕ)
    → num ≡ length front
    → take (fill_rows (front ++ back) num rows).1 (fill_rows (front ++ back) num rows).0
      ≡ front ++ pointers rows
unfolding fill_rows
fill_rows-pointers front back [] num e = rw (e, append-nil) (take-append front back)
fill_rows-pointers front back (row ∷ rows) num e =
    let (rest, is) = placed-append (message_of row) front back num e in
    ap (λ l. take (fill_rows l (num + 1) rows).1 (fill_rows l (num + 1) rows).0) is
    ∙ fill_rows-pointers (front ++ some (message_of row) ∷ []) rest rows (num + 1)
        (omega (arith, length-append front (some (message_of row) ∷ [])))
    ∙ append_assoc front (some (message_of row) ∷ []) (pointers rows)

-- For a limit that is not negative and for which there can be slots the filled slots are, in order, pointers to the messages of the
-- rows, and none is nil, whether the rows are fewer than the limit or more.
pub filled-pointers :
    (limit : ℕ) (rows : List Row)
    → limit ≤ max_slots
    → filled (slots_of (pos limit)) rows ≡ some (pointers rows)
unfolding filled slots_of
filled-pointers limit rows fits =
    rw (le→leb limit max_slots fits) (ap some (fill_rows-pointers [] (nils limit) rows 0 refl))

-- The messages of the rows, with their data parsed.
abbrev pub messages_of : List Row → List Message
messages_of [] = []
messages_of (row ∷ rows) =
    record { row = row; json_data = parsed_data row.raw_data } ∷ messages_of rows

pub parse_all-pointers : (rows : List Row) → parse_all (pointers rows) ≡ some (messages_of rows)
unfolding parse_all
parse_all-pointers [] = refl
parse_all-pointers (row ∷ rows) = rw (parse_all-pointers rows) refl
