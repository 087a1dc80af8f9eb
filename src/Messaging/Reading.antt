-- ===== src/Messaging/Reading.antt =====
-- listMessages: what a page shows.
use homeplate.Base.{
  ℕ, zero, suc, ◌-◌, ◌*◌, ◌≡◌, refl, ap, ◌∙◌, Bool, true, false, List, [], ◌∷◌, arith, inl, inr,
  ◌⊎◌, Bool-cases, take, length, min,
}
use homeplate.Table.{Table, select, count}
use homeplate.Database.{Db, ok, err, Message, Failure}
use homeplate.Messaging.Thread.{
  is_visible, is_before, insert_ordered, order_messages, drop, list_visible_for_booking,
  count_visible_for_booking, Page, list_messages,
}
use homeplate.Messaging.Posting.{IsThreadOpen, IsThreadShut, thread-cases}

-- Every row of a page passes a test.
abbrev pub All : (Message → Bool) → Table Message → Type 0
All test [] = Unit {0}
All test ((i, m) ∷ t) = (test m ≡ true) × All test t

-- A row is before the first of a page.
abbrev Follows : ℕ × Message → Table Message → Type 0
Follows row [] = Unit {0}
Follows row (next ∷ t) = is_before row next ≡ true

-- The rows of a page from the oldest on.
abbrev pub IsOldestFirst : Table Message → Type 0
IsOldestFirst [] = Unit {0}
IsOldestFirst (row ∷ t) = Follows row t × IsOldestFirst t

All-insert :
    (test : Message → Bool) (i : ℕ) (m : Message) (t : Table Message)
    → test m ≡ true
    → All test t
    → All test (insert_ordered (i, m) t)
All-insert test i m [] h a = (h, tt)
All-insert test i m ((j, n) ∷ t) h a = elim (Bool-cases (is_before (i, m) (j, n))) [
  | inl sooner ↦ rw sooner (h, a)
  | inr later ↦ rw later (a.0, All-insert test i m t h a.1)
]

All-order : (test : Message → Bool) (t : Table Message) → All test t → All test (order_messages t)
All-order test [] a = tt
All-order test ((i, m) ∷ t) a = All-insert test i m (order_messages t) a.0 (All-order test t a.1)

All-select : (test : Message → Bool) (t : Table Message) → All test (select test t)
All-select test [] = tt
All-select test ((i, m) ∷ t) = elim (Bool-cases (test m)) [
  | inl shown ↦ rw shown (shown, All-select test t)
  | inr hidden ↦ rw hidden (All-select test t)
]

All-drop : (test : Message → Bool) (n : ℕ) (t : Table Message) → All test t → All test (drop n t)
All-drop test zero t a = a
All-drop test (suc n) [] a = tt
All-drop test (suc n) ((i, m) ∷ t) a = All-drop test n t a.1

All-take : (test : Message → Bool) (n : ℕ) (t : Table Message) → All test t → All test (take n t)
All-take test zero t a = tt
All-take test (suc n) [] a = tt
All-take test (suc n) ((i, m) ∷ t) a = (a.0, All-take test n t a.1)

before-total : (a b : ℕ × Message) → is_before a b ≡ false → is_before b a ≡ true
before-total (i, m) (j, n) h = ground arith

insert-IsOldestFirst :
    (row : ℕ × Message) (t : Table Message) → IsOldestFirst t → IsOldestFirst (insert_ordered row t)
insert-IsOldestFirst row [] o = (tt, tt)
insert-IsOldestFirst row (next ∷ t) o = elim (Bool-cases (is_before row next)) [
  | inl sooner ↦ rw sooner (sooner, o)
  | inr later ↦ rw later (insert-Follows row next t later o.0, insert-IsOldestFirst row t o.1)
]
  where
    insert-Follows :
        (row next : ℕ × Message) (t : Table Message)
        → is_before row next ≡ false
        → Follows next t
        → Follows next (insert_ordered row t)
    insert-Follows row next [] later f = before-total row next later
    insert-Follows row next (x ∷ t) later f = elim (Bool-cases (is_before row x)) [
      | inl sooner ↦ rw sooner (before-total row next later)
      | inr more ↦ rw more f
    ]

order-IsOldestFirst : (t : Table Message) → IsOldestFirst (order_messages t)
order-IsOldestFirst [] = tt
order-IsOldestFirst (row ∷ t) = insert-IsOldestFirst row (order_messages t) (order-IsOldestFirst t)

drop-IsOldestFirst : (n : ℕ) (t : Table Message) → IsOldestFirst t → IsOldestFirst (drop n t)
drop-IsOldestFirst zero t o = o
drop-IsOldestFirst (suc n) [] o = tt
drop-IsOldestFirst (suc n) (row ∷ t) o = drop-IsOldestFirst n t o.1

take-Follows :
    (row : ℕ × Message) (n : ℕ) (t : Table Message) → Follows row t → Follows row (take n t)
take-Follows row zero t f = tt
take-Follows row (suc n) [] f = tt
take-Follows row (suc n) (x ∷ t) f = f

take-IsOldestFirst : (n : ℕ) (t : Table Message) → IsOldestFirst t → IsOldestFirst (take n t)
take-IsOldestFirst zero t o = tt
take-IsOldestFirst (suc n) [] o = tt
take-IsOldestFirst (suc n) (row ∷ t) o = (take-Follows row n t o.0, take-IsOldestFirst n t o.1)

length-insert :
    (row : ℕ × Message) (t : Table Message) → length (insert_ordered row t) ≡ suc (length t)
length-insert row [] = refl
length-insert row (next ∷ t) = ground (arith, length-insert row t)

length-order : (t : Table Message) → length (order_messages t) ≡ length t
length-order [] = refl
length-order (row ∷ t) = length-insert row (order_messages t) ∙ ap suc (length-order t)

length-select : (test : Message → Bool) (t : Table Message) → length (select test t) ≡ count test t
length-select test [] = refl
length-select test ((i, m) ∷ t) = ground (arith, length-select test t)

length-drop : {A : Type 0} (n : ℕ) (xs : List A) → length (drop n xs) ≡ length xs - n
length-drop zero xs = omega arith
length-drop (suc n) [] = omega arith
length-drop (suc n) (x ∷ xs) = omega (arith, length-drop n xs)

length-take : {A : Type 0} (n : ℕ) (xs : List A) → length (take n xs) ≡ min n (length xs)
length-take zero xs = omega arith
length-take (suc n) [] = omega arith
length-take (suc n) (x ∷ xs) = omega (arith, length-take n xs)

-- A page of the visible messages of a booking: the oldest first, as many as the page holds and
-- the pages before it have left, and the number of all of them beside it.
abbrev pub IsPageOf : ℕ → ℕ → ℕ → Db → Page → Type 0
IsPageOf booking page page_size db p =
    All (is_visible booking) p.items
    × IsOldestFirst p.items
    × (p.total ≡ count (is_visible booking) db.messages)
    × (length p.items ≡ min page_size (p.total - (page - 1) * page_size))

abbrev shown : ℕ → ℕ → ℕ → Db → Page
shown booking page page_size db = record {
  items = list_visible_for_booking booking page page_size db;
  page = page;
  page_size = page_size;
  total = count_visible_for_booking booking db;
}

visible-IsPageOf :
    (booking page page_size : ℕ) (db : Db)
    → IsPageOf booking page page_size db (shown booking page page_size db)
unfolding list_visible_for_booking count_visible_for_booking
visible-IsPageOf booking page page_size db =
    let test = is_visible booking in
    let rows = order_messages (select test db.messages) in
    let skip = (page - 1) * page_size in
    (
      All-take test page_size (drop skip rows)
          (All-drop test skip rows (All-order test _ (All-select test db.messages))),
      take-IsOldestFirst page_size (drop skip rows)
          (drop-IsOldestFirst skip rows (order-IsOldestFirst (select test db.messages))),
      refl,
      length-take page_size (drop skip rows)
          ∙ ap (min page_size) (
              length-drop skip rows
              ∙ ap (λ n. n - skip)
                  (length-order (select test db.messages) ∙ length-select test db.messages)),
    )

-- A participant of a booking that is not cancelled reads a page of its messages: none that is
-- rejected, the oldest first, full until the last page, and with the number of all of them.
-- Everyone else is refused, and no one's reading writes.
pub list_messages_branches :
    (user booking page page_size : ℕ) (db : Db)
    → (IsThreadOpen user booking db
        × ((p : Page) × (list_messages user booking page page_size db ≡ (ok p, db))
            × IsPageOf booking page page_size db p))
      ⊎ ((x : Failure) × IsThreadShut user booking db x
          × (list_messages user booking page page_size db ≡ (err x, db)))
unfolding list_messages
list_messages_branches user booking page page_size db = elim (thread-cases user booking db) [
  | inr (x, why, ran) ↦ inr (x, why, ground arith)
  | inl (may, (found, ran)) ↦ inl (
    may,
    (shown booking page page_size db, ground arith, visible-IsPageOf booking page page_size db),
  )
]
