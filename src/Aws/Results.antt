-- ===== src/Aws/Results.antt =====
-- python/shim-service/src/aws/dynamodb.py: the rows of a query, fetched page by page. The service is
-- a parameter: what it answers to a page's request, as a function of its state.
pub mod Fetches
pub mod Pages
pub mod Limits
use shim_service.Base.{
  ℕ, zero, suc, ◌+◌, ◌-◌, Bool, true, false, ◌&&◌, ◌||◌, Option, none, some, List, [], ◌∷◌, ltb,
  eqb, length, get_elem?, if◌then◌else◌,
}
use shim_service.Repos.Table.{is_none}

-- A response: its `Items`, `LastEvaluatedKey` and `Count`.
pub record Page (K I : Type 0) : Type 0 where
  pub items : List I
  pub next_key : Option K
  pub count : ℕ

-- What `query_function` does with a start key; `none` is its `StopIteration`.
abbrev pub QueryFunction : Type 0 → Type 0 → Type 0 → Type 0
QueryFunction S K I = Option K → S → Option (Page K I) × S

-- `client.query` with its `Limit` and its `ExclusiveStartKey`.
pub record Client (K I : Type 0) : Type 1 where
  pub State : Type 0
  pub query : Option ℕ → Option K → State → Page K I × State

module _ {K I : Type 0} (client : Client K I) where
  -- The state of `query_function` is the limit that is left, with the service's.
  abbrev pub Left : Type 0
  Left = Option ℕ × client.State

  fetch : Option ℕ → Page K I × client.State → Option (Page K I) × Left
  fetch none (page, s) = (some page, (none, s))
  fetch (some limit) (page, s) = (some page, (some (limit - length page.items), s))

  -- `query_function` of `DynamoDb.query`.
  unfoldable pub query_function : QueryFunction Left K I
  unfolding fetch
  query_function next_key (none, s) = fetch none (client.query none next_key s)
  query_function next_key (some limit, s) =
      if ltb limit 1
      then (none, (some limit, s))
      else fetch (some limit) (client.query (some limit) next_key s)

pub record ResultSet (K I : Type 0) : Type 0 where
  pub next_key : Option K
  pub items : Option (List I)
  pub counter : ℕ
  pub done : Bool
  pub count_returned : Option ℕ

abbrev pub new_result_set : {K I : Type 0} → ResultSet K I
new_result_set = record {
  next_key = none;
  items = none;
  counter = 0;
  done = false;
  count_returned = none;
}

-- What `__next__` gives: the end of the iteration, the exception of `next`, an index that is out of
-- range, or the row of an item.
pub data Next (R : Type 0) : Type 0 where
  stop no_more index_error : Next R
  row : R → Next R

abbrev pub is_empty {ℓ} : {A : Type ℓ} → List A → Bool
is_empty [] = true
is_empty (x ∷ xs) = false

module _ {S K I : Type 0} (q : QueryFunction S K I) where
  -- A page that has come, or the end of the pages.
  pub received : ResultSet K I → Option (Page K I) × S → (Bool × ResultSet K I) × S
  received rs (none, s) = ((false, record rs { done = true }), s)
  received rs (some page, s) =
      let with_page : ResultSet K I = record rs {
        items = some page.items;
        next_key = page.next_key;
        count_returned = some page.count;
      } in
      if is_empty page.items && is_none page.next_key
      then ((false, record with_page { done = true }), s)
      else if ltb 0 (length page.items) || ltb 0 page.count
      then ((true, record with_page { counter = 0 }), s)
      else ((false, record with_page { done = true }), s)

  -- `has_next` past its first test, by the items and the key of the page at hand.
  more_items : Option (List I) → ResultSet K I → S → (Bool × ResultSet K I) × S
  unfolding received
  more_items none rs s = received rs (q rs.next_key s)
  more_items (some items) rs s =
      if eqb rs.counter (length items)
      then (if is_none rs.next_key
          then ((false, record rs { done = true }), s)
          else received rs (q rs.next_key s))
      else ((true, rs), s)

  unfoldable pub has_next : ResultSet K I → S → (Bool × ResultSet K I) × S
  unfolding more_items
  has_next rs s = if rs.done then ((false, rs), s) else more_items rs.items rs s

  module _ {R : Type 0} (from_ddb_item : I → R) where
    -- `self.__items[self.__counter]`, and the counter's step.
    take_item : Option I → ResultSet K I → S → (Next R × ResultSet K I) × S
    take_item none rs s = ((index_error, rs), s)
    take_item (some i) rs s = ((row (from_ddb_item i), record rs { counter = rs.counter + 1 }), s)

    item_at : Option (List I) → ℕ → Option I
    item_at none counter = none
    item_at (some items) counter = get_elem? items counter

    take_next : (Bool × ResultSet K I) × S → (Next R × ResultSet K I) × S
    unfolding take_item item_at
    take_next ((false, rs), s) = ((no_more, rs), s)
    take_next ((true, rs), s) = take_item (item_at rs.items rs.counter) rs s

    -- `next`
    unfoldable pub next : ResultSet K I → S → (Next R × ResultSet K I) × S
    unfolding take_next
    next rs s = take_next (has_next rs s)

    stop_or : (Bool × ResultSet K I) × S → (Next R × ResultSet K I) × S
    unfolding next
    stop_or ((false, rs), s) = ((stop, rs), s)
    stop_or ((true, rs), s) = next rs s

    -- `__next__`
    unfoldable pub next_row : ResultSet K I → S → (Next R × ResultSet K I) × S
    unfolding stop_or
    next_row rs s = stop_or (has_next rs s)

    again :
        (Next R × ResultSet K I) × S
        → (ResultSet K I → S → (List R × Option (Next R)) × S)
        → (List R × Option (Next R)) × S
    again ((row r, rs), s) rest = let ((rows, last), s') = rest rs s in ((r ∷ rows, last), s')
    again ((stop, rs), s) rest = (([], some stop), s)
    again ((no_more, rs), s) rest = (([], some no_more), s)
    again ((index_error, rs), s) rest = (([], some index_error), s)

    -- `list(result_set)` with fuel: the rows, and what ended them; `none` is the fuel's end.
    unfoldable pub rows_of : ℕ → ResultSet K I → S → (List R × Option (Next R)) × S
    unfolding again
    rows_of zero rs s = (([], none), s)
    rows_of (suc fuel) rs s = let rest = rows_of fuel in again (next_row rs s) rest
