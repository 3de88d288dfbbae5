-- ===== src/Poll/Group/Collect.antt =====
-- python/shim-service/src/poll/polling_group.py: the collection of the events to poll.
pub mod Bounds
use shim_service.Base.{
  ℕ, zero, suc, ◌+◌, ◌≤◌, ◌≡◌, refl, ap, Bool, true, false, Option, none, some, List, [], ◌∷◌, eqb,
  ltb, if◌then◌else◌, arith, length, ◌∙◌, subst, Bool-cases, inl, inr,
}
use shim_service.Poll.Group.{
  Phase, Group, Turn, Locking, Should, is_full, answer_full, check_full, add, start_thread,
  invoke_again, work, advance, set_thread, thread_at, move_to, inner_worker, dec_submit_count,
}
use shim_service.Poll.Group.Counts.{
  IsValid, count, is_polling, is_submitted, work-IsValid, add-IsValid,
}

-- What `query_events` answers: how many rows, and whether a token for the next page.
abbrev pub Page : Type 0
Page = ℕ × Bool

module _ (turns : ℕ) (others : ℕ → Group → Group) where
  -- The events of a page are added until one is refused; true is `full`.
  unfoldable pub add_rows : ℕ → Group → Bool × Group
  add_rows zero g = (false, g)
  add_rows (suc rows) g =
      let (added, g') = add turns others g in
      let rest = add_rows rows g' in if added then rest else (true, g')

  -- The end of `collect`.
  finish_collect : Bool → Group → Option Bool × Group
  finish_collect again g = (some again, if again then invoke_again g else g)

  -- The end of a page that has a next one and left room.
  next_page : Bool × Group → (Group → Option Bool × Group) → Option Bool × Group
  unfolding finish_collect
  next_page (full, g) rest = let more = rest g in if full then finish_collect true g else more

  after_rows : Bool → Bool × Group → (Group → Option Bool × Group) → Option Bool × Group
  unfolding finish_collect next_page
  after_rows more (true, g) rest = finish_collect true g
  after_rows false (false, g) rest = finish_collect false g
  after_rows true (false, g) rest = next_page (is_full turns false others g) rest

  -- `collect` over the pages that its queries answer, one after the other: whether it invoked
  -- again; none where the pages do not suffice to end it.
  unfoldable pub collect : List Page → Group → Option Bool × Group
  unfolding after_rows
  collect [] g = (none, g)
  collect ((rows, more) ∷ pages) g =
      let rest = collect pages in after_rows more (add_rows rows g) rest

length-set_thread : (n : ℕ) (p : Phase) (ps : List Phase) → length (set_thread n p ps) ≡ length ps
length-set_thread n p [] = refl
length-set_thread zero p (q ∷ qs) = refl
length-set_thread (suc n) p (q ∷ qs) = ap suc (length-set_thread n p qs)

length-inner_worker :
    (locking : Locking) (should : Should) (g : Group)
    → (inner_worker locking should g).0.threads ≡ g.threads
unfolding inner_worker dec_submit_count
length-inner_worker Locking.refused should g = refl
length-inner_worker Locking.lock_raised should g = refl
length-inner_worker Locking.locked Should.skip_it g = refl
length-inner_worker Locking.locked Should.should_raised g = refl
length-inner_worker Locking.locked Should.poll_it g = refl

length-advance :
    (n : ℕ) (turn : Turn) (at_ : Option Phase) (g : Group)
    → length (advance n turn at_ g).threads ≡ length g.threads
unfolding advance move_to
length-advance n (Turn.start l s) none g = refl
length-advance n Turn.finish none g = refl
length-advance n (Turn.start l s) (some Phase.submitted) g =
    rw
      (
        length-set_thread n (inner_worker l s g).1 (inner_worker l s g).0.threads,
        length-inner_worker l s g,
      )
      refl
length-advance n Turn.finish (some Phase.submitted) g = refl
length-advance n (Turn.start l s) (some Phase.polling) g = refl
length-advance n Turn.finish (some Phase.polling) g = length-set_thread n Phase.ended g.threads
length-advance n (Turn.start l s) (some Phase.ended) g = refl
length-advance n Turn.finish (some Phase.ended) g = refl

length-work : (ts : List (ℕ × Turn)) (g : Group) → length (work ts g).threads ≡ length g.threads
unfolding work
length-work [] g = refl
length-work ((n, turn) ∷ ts) g =
    length-work ts (advance n turn (thread_at n g.threads) g)
    ∙ length-advance n turn (thread_at n g.threads) g

-- The rows of the pages up to the first that has no next one.
abbrev pub rows_until : List Page → ℕ
rows_until [] = 0
rows_until ((rows, more) ∷ pages) =
    let rest = rows_until pages in if more then rows + rest else rows

module _ (turns : ℕ) (workers : ℕ → List (ℕ × Turn)) where
  abbrev pub others : ℕ → Group → Group
  others n g = work (workers n) g

  -- The threads that there are, whatever `is_full` answers.
  is_full-length :
      (n : ℕ) (increment : Bool) (g : Group)
      → length (is_full n increment others g).1.threads ≡ length g.threads
  unfolding is_full answer_full check_full
  is_full-length zero increment g = refl
  is_full-length (suc n) increment g =
      ground (arith, length-work (workers n) g, is_full-length n increment (work (workers n) g))

  start_thread-length :
      (n : ℕ) (answer : Bool × Group)
      → length answer.1.threads ≡ n
      → length (start_thread answer).1.threads ≡ (if (start_thread answer).0 then n + 1 else n)
  unfolding start_thread
  start_thread-length n (true, g) h = h
  start_thread-length n (false, g) h = omega (arith, h)

  add-length :
      (g : Group)
      → length (add turns others g).1.threads
        ≡ (if (add turns others g).0 then length g.threads + 1 else length g.threads)
  unfolding add
  add-length g =
      start_thread-length (length g.threads) (is_full turns true others g)
        (is_full-length turns true g)

  -- The rows of a page that were all added.
  abbrev AddedAll : ℕ → Bool × Group → Type 0
  AddedAll n (true, g) = Unit
  AddedAll n (false, g) = length g.threads ≡ n

  add_rows-AddedAll :
      (rows : ℕ) (g : Group) → AddedAll (length g.threads + rows) (add_rows turns others rows g)
  unfolding add_rows
  add_rows-AddedAll zero g = omega arith
  add_rows-AddedAll (suc rows) g = elim (Bool-cases (add turns others g).0) [
    | inl added ↦ rw added (
        subst (λ n. AddedAll n (add_rows turns others rows (add turns others g).1))
          (more_length added) (add_rows-AddedAll rows (add turns others g).1))
    | inr refused ↦ rw refused tt
  ]
    where
      more_length :
          (add turns others g).0 ≡ true
          → length (add turns others g).1.threads + rows ≡ length g.threads + suc rows
      more_length added = omega (
        arith,
        add-length g,
        ap (λ b. if b then length g.threads + 1 else length g.threads) added,
      )

  -- A collection that ended without another invocation has a thread more for each row.
  abbrev pub CollectedAll : ℕ → Option Bool × Group → Type 0
  CollectedAll n (none, g) = Unit
  CollectedAll n (some true, g) = Unit
  CollectedAll n (some false, g) = length g.threads ≡ n

  next_page-CollectedAll :
      (n : ℕ) (answer : Bool × Group) (rest : Group → Option Bool × Group)
      → CollectedAll n (rest answer.1)
      → CollectedAll n (next_page turns others answer rest)
  unfolding next_page finish_collect
  next_page-CollectedAll n (true, g) rest h = tt
  next_page-CollectedAll n (false, g) rest h = h

  after_rows-CollectedAll :
      (n k : ℕ) (more : Bool) (answer : Bool × Group) (rest : Group → Option Bool × Group)
      → AddedAll n answer
      → ((h : Group) → length h.threads ≡ n → CollectedAll (n + k) (rest h))
      → CollectedAll (if more then n + k else n) (after_rows turns others more answer rest)
  unfolding after_rows finish_collect
  after_rows-CollectedAll n k true (true, g) rest h next = tt
  after_rows-CollectedAll n k false (true, g) rest h next = tt
  after_rows-CollectedAll n k false (false, g) rest h next = h
  after_rows-CollectedAll n k true (false, g) rest h next =
      next_page-CollectedAll (n + k) (is_full turns false others g) rest
        (next (is_full turns false others g).1 (is_full-length turns false g ∙ h))

  -- A collection that ends without invoking again has started a thread for each row of its pages,
  -- up to the first page with no next one.
  pub collect-CollectedAll :
      (pages : List Page) (g : Group)
      → CollectedAll (length g.threads + rows_until pages) (collect turns others pages g)
  unfolding collect
  collect-CollectedAll [] g = tt
  collect-CollectedAll ((rows, more) ∷ pages) g =
      subst (λ n. CollectedAll n (collect turns others ((rows, more) ∷ pages) g)) (ground arith)
        (after_rows-CollectedAll (length g.threads + rows) (rows_until pages) more
          (add_rows turns others rows g) (collect turns others pages) (add_rows-AddedAll rows g)
          (λ h e.
            subst (λ n. CollectedAll (n + rows_until pages) (collect turns others pages h)) e
              (collect-CollectedAll pages h)))
