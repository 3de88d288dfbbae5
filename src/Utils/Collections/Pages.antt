-- ===== src/Utils/Collections/Pages.antt =====
-- What the pages of a list hold.
use shim_service.Base.{
  ℕ, zero, suc, ◌+◌, ◌-◌, ◌≤◌, ◌<◌, ◌≡◌, refl, sym, ap, ◌∙◌, false, none, some, List, [], ◌∷◌, ◌++◌,
  eqb, leb, if◌then◌else◌, length, take, drop, map, All, arith, Bool-cases, inl, inr, append-nil,
  append_assoc, length-append, length-take, length-drop, take-append-drop, lt→ltb, leb→le, All-imp,
  eqb_iff,
}
use shim_service.Utils.Collections.{
  fill_pages, slices, partition, BufferedList, flush, add, add_each, add_slices, make_room,
}

module _ {ℓ} {A : Type ℓ} where
  abbrev pub concat : List (List A) → List A
  concat [] = []
  concat (p ∷ ps) = p ++ concat ps

  pub concat-append : (ps qs : List (List A)) → concat (ps ++ qs) ≡ concat ps ++ concat qs
  concat-append [] qs = refl
  concat-append (p ∷ ps) qs =
      rw (concat-append ps qs) (sym (append_assoc p (concat ps) (concat qs)))

  -- Each page has an object, and at most `size` of them.
  abbrev pub IsPage : ℕ → List A → Type 0
  IsPage size p = (0 < length p) × (length p ≤ size)

  slices_lem :
      (fuel size : ℕ) (xs : List A)
      → 0 < size
      → length xs ≤ fuel
      → (concat (slices fuel size xs) ≡ xs) × All (IsPage size) (slices fuel size xs)
  unfolding slices
  slices_lem zero size [] s h = (refl, tt)
  slices_lem zero size (x ∷ xs) s h = absurd (omega (arith, h))
  slices_lem (suc fuel) size [] s h = (refl, tt)
  slices_lem (suc fuel) size (x ∷ xs) s h =
      let (same, pages) =
        slices_lem fuel size (drop size (x ∷ xs)) s
          (omega (arith, length-drop size (x ∷ xs), h, s)) in
      (
        rw same (take-append-drop size (x ∷ xs)),
        (
          (omega (arith, length-take size (x ∷ xs), s), omega (arith, length-take size (x ∷ xs))),
          pages,
        ),
      )

  -- A list is partitioned into pages that hold its objects in their order, each of at most `size`
  -- and each but that of an empty list with an object; `size` is positive.
  partition_pages :
      (collection : List A) (size : ℕ)
      → 0 < size
      → (pages : List (List A)) × (partition collection size none ≡ some pages)
        × (concat pages ≡ collection)
        × All (λ p. length p ≤ size) pages
  unfolding partition
  partition_pages collection size s = elim (Bool-cases (leb (length collection) size)) [
    | inl fits ↦ (
      collection ∷ [],
      rw (lt→ltb 0 size s, fits) refl,
      append-nil collection,
      (leb→le (length collection) size fits, tt),
    )
    | inr longer ↦
        let (same, pages) = slices_lem (length collection) size collection s (omega arith) in
        (
          slices (length collection) size collection,
          rw (lt→ltb 0 size s, longer) refl,
          same,
          All-imp (slices (length collection) size collection) (λ p h. h.1) pages,
        )
  ]

  fill_pages-concat :
      (size : ℕ) (f : A → A) (xs page : List A) (before : List (List A))
      → concat (fill_pages size f xs page before) ≡ concat before ++ (page ++ map f xs)
  unfolding fill_pages
  fill_pages-concat size f [] [] before = sym (append-nil (concat before))
  fill_pages-concat size f [] (p ∷ ps) before =
      rw (lt→ltb 0 (length (p ∷ ps)) (omega arith)) (concat-append before ((p ∷ ps) ∷ []))
  fill_pages-concat size f (x ∷ xs) page before = elim (Bool-cases (eqb (length page) size)) [
    | inl full ↦
        rw
          (
            full,
            fill_pages-concat size f xs (f x ∷ []) (before ++ (page ∷ [])),
            concat-append before (page ∷ []),
            append-nil page,
          )
          (append_assoc (concat before) page (f x ∷ map f xs))
    | inr room ↦
        rw
          (
            room,
            fill_pages-concat size f xs (page ++ (f x ∷ [])) before,
            append_assoc page (f x ∷ []) (map f xs),
          )
          refl
  ]

  -- With a transformer, a list of more than `size` objects is partitioned into their images; one of
  -- at most `size` is answered as it is, not transformed.
  partition_transformed :
      (collection : List A) (size : ℕ) (f : A → A)
      → 0 < size
      → (pages : List (List A)) × (partition collection size (some f) ≡ some pages)
        × (concat pages ≡ (if leb (length collection) size then collection else map f collection))
  unfolding partition
  partition_transformed collection size f s = elim (Bool-cases (leb (length collection) size)) [
    | inl fits ↦ (collection ∷ [], rw (lt→ltb 0 size s, fits) refl, rw fits (append-nil collection))
    | inr longer ↦ (
      fill_pages size f collection [] [],
      rw (lt→ltb 0 size s, longer) refl,
      rw longer (fill_pages-concat size f collection [] []),
    )
  ]

  add_nothing : (b : BufferedList A) → b ≡ add_each [] b
  unfolding add_each
  add_nothing b = refl

  -- Adding objects one by one, in two parts.
  add_each-append :
      (xs ys : List A) (b : BufferedList A) → add_each (xs ++ ys) b ≡ add_each ys (add_each xs b)
  unfolding add_each
  add_each-append [] ys b = refl
  add_each-append (x ∷ xs) ys b = add_each-append xs ys (add x b)

  -- Objects for which there is room are appended.
  add_each-room :
      (xs : List A) (b : BufferedList A)
      → length b.source + length xs ≤ b.max_size
      → add_each xs b ≡ record b { source = b.source ++ xs }
  unfolding add_each add make_room
  add_each-room [] b h = rw (append-nil b.source) refl
  add_each-room (x ∷ xs) b h =
      rw
        (
          has_room,
          add_each-room xs (record b { source = b.source ++ (x ∷ []) })
              (omega (arith, length-append b.source (x ∷ []), h)),
          append_assoc b.source (x ∷ []) xs,
        )
        refl
    where
      has_room : eqb (length b.source) b.max_size ≡ false
      has_room = ground (arith, h)

  make_room_roomy : (b : BufferedList A) → length b.source < b.max_size → make_room b ≡ b
  unfolding make_room
  make_room_roomy b h =
      let other : eqb (length b.source) b.max_size ≡ false = ground (arith, h) in rw other refl

  make_room-room :
      (b : BufferedList A)
      → 0 < b.max_size
      → length b.source ≤ b.max_size
      → (length (make_room b).source < b.max_size) × ((make_room b).max_size ≡ b.max_size)
  unfolding make_room flush
  make_room-room b h k = elim (Bool-cases (eqb (length b.source) b.max_size)) [
    | inl full ↦
        let some_there : 0 < length b.source =
          omega (arith, (eqb_iff (length b.source) b.max_size).0 full, h) in
        rw (full, lt→ltb 0 (length b.source) some_there) (h, refl)
    | inr room ↦ rw room (ground (arith, k, room), refl)
  ]

  -- The buffer that was made room in takes objects as the full one does.
  add_each-make_room :
      (x : A) (xs : List A) (b : BufferedList A)
      → 0 < b.max_size
      → length b.source ≤ b.max_size
      → add_each (x ∷ xs) (make_room b) ≡ add_each (x ∷ xs) b
  unfolding add_each add
  add_each-make_room x xs b h k =
      let (room, same) = make_room-room b h k in
      rw (make_room_roomy (make_room b) (omega (arith, room, same))) refl

  -- A list that is added a slice at a time leaves the same buffer, and has given the flusher the
  -- same pages in the same order, as when its objects are added one by one; the size is positive
  -- and the buffer is within it.
  pub add_slices-add_each :
      (fuel : ℕ) (xs : List A) (b : BufferedList A)
      → 0 < b.max_size
      → length b.source ≤ b.max_size
      → length xs ≤ fuel
      → add_slices fuel xs b ≡ add_each xs b
  unfolding add_slices
  add_slices-add_each zero [] b h k l = add_nothing b
  add_slices-add_each zero (x ∷ xs) b h k l = absurd (omega (arith, l))
  add_slices-add_each (suc fuel) [] b h k l = add_nothing b
  add_slices-add_each (suc fuel) (x ∷ xs) b h k l =
      let (room, same) = make_room-room b h k in
      let count = (make_room b).max_size - length (make_room b).source in
      let now = take count (x ∷ xs) in
      let later = drop count (x ∷ xs) in
      let filled : BufferedList A = record (make_room b) { source = (make_room b).source ++ now } in
      add_slices-add_each fuel later filled (omega (arith, same, h))
        (omega
          (arith, length-append (make_room b).source now, length-take count (x ∷ xs), room, same))
        (omega (arith, length-drop count (x ∷ xs), l, room, same))
      ∙ ap (add_each later) (
          sym (
            add_each-room now (make_room b)
              (omega (arith, length-take count (x ∷ xs), room, same))))
      ∙ sym (add_each-append now later (make_room b))
      ∙ ap (λ ys. add_each ys (make_room b)) (take-append-drop count (x ∷ xs))
      ∙ add_each-make_room x xs b h k
