-- ===== src/Repos/Database.antt =====
-- The database that the repositories of python/shim-service/src/repos/aws share, as DynamoDB shows
-- it: items of several tables, and transactions of conditional requests
-- (python/shim-service/src/aws/dynamodb.py). The service is a parameter with its documented
-- behaviour as laws.
pub mod Memory
use shim_service.Base.{
  ℕ, ◌≡◌, String, Bool, true, false, ◌&&◌, not, Option, none, some, List, [], ◌∷◌, if◌then◌else◌,
  Eq, ◌==◌, nat_eq, string_eq, pair_eq, option_eq,
}
use shim_service.Base.Dict.{lookup, insert}
use shim_service.Records.{Value, Record, value_eq}
use shim_service.Repos.Table.{Table, is_none}
use shim_service.Repos.Table
use shim_service.Repos.Sequence.{Key, Sequence}

-- A table with a tenant, and the range: a text and a number.
abbrev pub ItemKey : Type 0
ItemKey = (String × ℕ) × (String × ℕ)

pub data Request : Type 0 where
  put : ItemKey → Record → Request
  update : ItemKey → Record → Record → Bool → Request
  delete : ItemKey → Bool → Request

abbrev pub item_key : Request → ItemKey
item_key (Request.put k item) = k
item_key (Request.update k patch condition must_exist) = k
item_key (Request.delete k must_exist) = k

-- `{name: value}` as a condition on a row.
abbrev pub matches : Record → Record → Bool
matches [] row = true
matches ((k, v) ∷ condition) row =
    let rest = matches condition row in if lookup k row == some v then rest else false

abbrev pub is_empty : Record → Bool
is_empty [] = true
is_empty (x ∷ xs) = false

-- The condition of a request, on the item that its key has: a `put` names the key's attributes, and
-- is for a new item; `must_exist` is for one that is there.
unfoldable pub holds_on : Request → Option Record → Bool
holds_on (Request.put k item) old = is_none old
holds_on (Request.update k patch condition must_exist) none = is_empty condition && not must_exist
holds_on (Request.update k patch condition must_exist) (some row) = matches condition row
holds_on (Request.delete k must_exist) none = not must_exist
holds_on (Request.delete k must_exist) (some row) = true

-- `SET name = value, ...`
unfoldable pub patched : Record → Record → Record
patched [] row = row
patched ((k, v) ∷ patch) row = insert k v (patched patch row)

abbrev pub or_new : Option Record → Record
or_new none = []
or_new (some row) = row

-- An item that an update makes has its patch alone here: the attributes of its key, which the
-- service adds, stand in its `ItemKey`.
unfoldable pub effect : Request → Option Record → Option Record
unfolding patched
effect (Request.put k item) old = some item
effect (Request.update k patch condition must_exist) old = some (patched patch (or_new old))
effect (Request.delete k must_exist) old = none

-- The items that a state shows.
abbrev pub Rows : Type 0
Rows = ItemKey → Option Record

abbrev pub all_hold : Rows → List Request → Bool
all_hold rows [] = true
all_hold rows (r ∷ rs) =
    let rest = all_hold rows rs in if holds_on r (rows (item_key r)) then rest else false

-- What an item becomes where all conditions hold; the requests are on different items.
abbrev pub applied : List Request → Rows → Rows
applied [] rows k = rows k
applied (r ∷ rs) rows k =
    let rest = applied rs rows k in if k == item_key r then effect r (rows k) else rest

-- The reasons of a cancelled transaction: a code for each request whose condition fails.
abbrev pub reasons : Rows → List Request → List (Option String)
reasons rows [] = []
reasons rows (r ∷ rs) =
    (if holds_on r (rows (item_key r)) then none else some "ConditionalCheckFailed")
    ∷ reasons rows rs

-- A transaction in which all conditions hold is done as a whole, and else cancelled as a whole.
unfoldable pub committed : Rows → List Request → Rows
committed rows rs k = let done = applied rs rows k in if all_hold rows rs then done else rows k

-- The table of sequences shows its items of the whole state.
pub record Database : Type 1 where
  pub sequences : Table Key Sequence
  pub get_item : sequences.State → ItemKey → Option Record
  pub transact : List Request → sequences.State → Option (List (Option String)) × sequences.State

abbrev pub rows_of : (db : Database) → db.sequences.State → Rows
rows_of db s k = db.get_item s k

pub record IsLawful (db : Database) : Type 0 where
  pub sequences_lawful : Table.IsLawful db.sequences
  pub transact_answer :
      (rs : List Request) (s : db.sequences.State)
      → (db.transact rs s).0
        ≡ (if all_hold (rows_of db s) rs then none else some (reasons (rows_of db s) rs))
  pub rows-transact :
      (rs : List Request) (s : db.sequences.State) (k : ItemKey)
      → db.get_item (db.transact rs s).1 k ≡ committed (rows_of db s) rs k
  -- The sequences' items and the others are different items.
  pub transact_spares :
      (rs : List Request) (s : db.sequences.State) (k : Key)
      → db.sequences.get_item (db.transact rs s).1 k ≡ db.sequences.get_item s k
  pub put_new_spares :
      (s : db.sequences.State) (n : Key) (q : Sequence) (k : ItemKey)
      → db.get_item (db.sequences.put_new s n q).0 k ≡ db.get_item s k
  pub update_if_spares :
      (s : db.sequences.State) (n : Key) (p : Sequence → Bool) (f : Sequence → Sequence)
      (k : ItemKey)
      → db.get_item (db.sequences.update_if s n p f).0 k ≡ db.get_item s k
