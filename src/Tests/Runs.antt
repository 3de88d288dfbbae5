-- ===== src/Tests/Runs.antt =====
-- Messages, routes, pages, caches and times.
use shim_service.Base.{
  ℕ, ◌≡◌, ◌≢◌, ◌<◌, refl, none, some, List, [], ◌∷◌, ◌++◌, arith, if◌then◌else◌, nat_eq, string_eq,
  inl, ◌==◌,
}
use mathlib.Core.List.{Perm}
use shim_service.Base.Dict
use shim_service.Base.Dict.{Dict}
use shim_service.LiveAgent.{
  Message, MessageData, LiveAgentPollerSettings, matches_ack, add_message_data,
  dispatch_message_data,
}
use shim_service.LiveAgent.Acks.{Taken, add_message_data-InOrder, add_all, add_all-arrival_order}
use shim_service.LiveAgent.Dispatches.{Nodup, dispatch_message_data_lem}
use shim_service.Web.{UrlPath, Route, process}
use shim_service.Web.Dispatch.{Answered, process-Answered}
use shim_service.Utils.Collections.{BufferedList, add_each, add_slices}
use shim_service.Utils.Collections.Pages.{add_slices-add_each}
use shim_service.Utils.Cache.{Entry, Cache, store}
use shim_service.Utils.Cache.Eviction.{IsValid, store_room}
use shim_service.Utils.Cache.Entries.{sets, finds, run, run-IsValid}

abbrev message : Message
message = ("AsyncResult", ("text", none))

abbrev data_at : ℕ → MessageData
data_at n = record { messages = message ∷ []; sequence = n; offset = none }

abbrev waiting : LiveAgentPollerSettings
waiting = record { next = 1; message_list = data_at 2 ∷ [] }

add_message_data-InOrder_example :
    let (results, s') = add_message_data (data_at 1) waiting in
    Taken 1 (results, s')
    × ((taken : List MessageData) × (results ≡ data_at 1 ∷ taken)
        × Perm (taken ++ s'.message_list) waiting.message_list)
unfolding matches_ack
add_message_data-InOrder_example = add_message_data-InOrder (data_at 1) waiting refl

abbrev fresh : LiveAgentPollerSettings
fresh = record { next = 0; message_list = [] }

add_all-arrival_order_example :
    ((add_all (data_at 4 ∷ data_at 0 ∷ []) fresh).0 ≡ data_at 4 ∷ data_at 0 ∷ [])
    × ((add_all (data_at 4 ∷ data_at 0 ∷ []) fresh).1.message_list ≡ [])
add_all-arrival_order_example = add_all-arrival_order (data_at 4 ∷ data_at 0 ∷ []) fresh refl

dispatch_message_data_lem_example : Nodup (dispatch_message_data (data_at 1))
dispatch_message_data_lem_example = (dispatch_message_data_lem (data_at 1)).0

-- One route, for `GET /a`.
abbrev a_path : UrlPath
a_path = record { path = 47 ∷ 97 ∷ []; parts = (97 ∷ []) ∷ []; part_names = []; part_indices = [] }

abbrev routes : List Route
routes = record { method = 71 ∷ []; route_path = a_path; caller = 1 } ∷ []

process-Answered_example :
    Answered
      (λ t. t)
      (47 ∷ 97 ∷ [])
      routes
      (80 ∷ [])
      (process (λ t. t) routes (47 ∷ 97 ∷ []) (80 ∷ []))
process-Answered_example = process-Answered (λ t. t) (47 ∷ 97 ∷ []) routes (80 ∷ [])

abbrev buffer : BufferedList ℕ
buffer = record { max_size = 2; source = 1 ∷ []; flushed = [] }

add_slices-add_each_example :
    add_slices 3 (2 ∷ 3 ∷ 4 ∷ []) buffer ≡ add_each (2 ∷ 3 ∷ 4 ∷ []) buffer
add_slices-add_each_example =
    add_slices-add_each 3 (2 ∷ 3 ∷ 4 ∷ []) buffer (ground arith) (ground arith) (ground arith)

-- A full cache of two entries.
abbrev cache : Cache ℕ ℕ
cache = record {
  maxsize = 2;
  ttl = 10;
  entries =
      (1, record { value = 5; expire_at = 20 }) ∷ (2, record { value = 4; expire_at = 30 }) ∷ [];
}

cache-IsValid : IsValid cache
unfolding Dict.lookup
cache-IsValid = record { nodup = (refl, (refl, tt)); bounded = ground arith; roomy = ground arith }

run-IsValid_example : IsValid (run none cache (sets 3 7 12 ∷ finds 1 25 ∷ []))
run-IsValid_example = run-IsValid none cache (sets 3 7 12 ∷ finds 1 25 ∷ []) cache-IsValid

abbrev expiry_of : ℕ × Entry ℕ → ℕ
expiry_of p = p.1.expire_at

store_room_example :
    (j : ℕ)
    → Dict.lookup j (store expiry_of cache 2 7 12).entries ≡ (
        if j == 2 then some (record { value = 7; expire_at = 22 }) else Dict.lookup j cache.entries)
unfolding Dict.lookup
store_room_example = store_room expiry_of cache 2 7 12 (inl λ h. ground arith)

least :
    (j : ℕ) (other : Entry ℕ) → j ≢ 2 → Dict.lookup j cache.entries ≡ some other → 4 < other.value
unfolding Dict.lookup
least j other apart found = ground (arith, found, apart)
