-- ===== src/Utils/Collections.antt =====
-- python/shim-service/src/utils/collection_utils.py: pages of a list, and lists that are flushed
-- when they are full.
pub mod Pages
use shim_service.Base.{
  ℕ, zero, suc, ◌+◌, ◌-◌, ◌≤◌, Bool, true, false, Option, none, some, List, [], ◌∷◌, ◌++◌, eqb, leb,
  ltb, if◌then◌else◌, length, take, drop, map,
}

-- `BufferedList`: its objects, and what its flusher was given, in order.
pub record BufferedList {ℓ} (A : Type ℓ) : Type ℓ where
  pub max_size : ℕ
  pub source : List A
  pub flushed : List (List A)

module _ {ℓ κ} {A : Type ℓ} {B : Type κ} where
  -- The loop of `partition` over the objects: the page that is filled and the pages before it.
  unfoldable pub fill_pages : ℕ → (A → B) → List A → List B → List (List B) → List (List B)
  fill_pages size f [] page page_list =
      if ltb 0 (length page) then page_list ++ (page ∷ []) else page_list
  fill_pages size f (obj ∷ objs) page page_list =
      let next_page = fill_pages size f objs (f obj ∷ []) (page_list ++ (page ∷ [])) in
      let same_page = fill_pages size f objs (page ++ (f obj ∷ [])) page_list in
      if eqb (length page) size then next_page else same_page

module _ {ℓ} {A : Type ℓ} where
  -- `[collection[i:i + size] for i in range(0, len(collection), size)]`; each slice shortens the
  -- list, whose length is fuel enough.
  unfoldable pub slices : ℕ → ℕ → List A → List (List A)
  slices zero size xs = []
  slices (suc fuel) size [] = []
  slices (suc fuel) size (x ∷ xs) = take size (x ∷ xs) ∷ slices fuel size (drop size (x ∷ xs))

  -- `partition` of a list: none is the failed assertion. A list that fits one page is answered as
  -- it is, its objects not transformed.
  unfoldable pub partition : List A → ℕ → Option (A → A) → Option (List (List A))
  unfolding fill_pages slices
  partition collection size none =
      if ltb 0 size
      then (if leb (length collection) size
          then some (collection ∷ [])
          else some (slices (length collection) size collection))
      else none
  partition collection size (some f) =
      if ltb 0 size
      then (if leb (length collection) size
          then some (collection ∷ [])
          else some (fill_pages size f collection [] []))
      else none

  unfoldable pub flush : BufferedList A → BufferedList A
  flush b =
      if ltb 0 (length b.source)
      then record b { source = []; flushed = b.flushed ++ (b.source ∷ []) }
      else b

  -- A full buffer is flushed before it takes more.
  unfoldable pub make_room : BufferedList A → BufferedList A
  unfolding flush
  make_room b = if eqb (length b.source) b.max_size then flush b else b

  unfoldable pub add : A → BufferedList A → BufferedList A
  unfolding make_room
  add obj b = let room = make_room b in record room { source = room.source ++ (obj ∷ []) }

  -- `add_all` of an iterable that is no list.
  unfoldable pub add_each : List A → BufferedList A → BufferedList A
  unfolding add
  add_each [] b = b
  add_each (obj ∷ objs) b = add_each objs (add obj b)

  -- `add_all` of a list, a slice at a time; each turn takes one object at least where the buffer
  -- holds any, so the list's length is fuel enough.
  unfoldable pub add_slices : ℕ → List A → BufferedList A → BufferedList A
  unfolding make_room
  add_slices zero left b = b
  add_slices (suc fuel) [] b = b
  add_slices (suc fuel) (x ∷ xs) b =
      let room = make_room b in
      let count = room.max_size - length room.source in
      add_slices fuel (drop count (x ∷ xs))
        (record room { source = room.source ++ take count (x ∷ xs) })
