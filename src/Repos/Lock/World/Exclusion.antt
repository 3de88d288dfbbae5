-- ===== src/Repos/Lock/World/Exclusion.antt =====
-- Which processes hold a lock within its term, along interleavings of their accesses.
use shim_service.Base.{
  ℕ, ◌+◌, ◌/◌, ◌≡◌, refl, ◌≢◌, ◌⊎◌, inl, inr, String, none, some, List, [], ◌∷◌, arith, leb,
  Bool-cases, string_eq, nat_eq, subst,
}
use shim_service.Utils.Dates.{get_system_time_in_seconds}
use shim_service.Repos.Table.{Table, IsLawful}
use shim_service.Repos.Lock.{
  LocalDto, Lock, Attempt, creating, reading, recreating, patching, acquired, refused, lost, start,
  request,
}
use shim_service.Repos.Lock.Attempts.{IsKeyed}
use shim_service.Repos.Lock.World.{
  World, Process, idle, trying, holding, Move, tick, begin, access, refreshes, releases, begin_from,
  access_from, refresh_from, release_from, step, run, seconds, Exclusive,
}
use shim_service.Repos.Lock.World.Frame.{Early, Good, Inv, still-Inv}
use shim_service.Repos.Lock.World.Accesses.{access-Inv}
use shim_service.Repos.Lock.World.Holdings.{retry_from-Inv, refresh-Inv, release-Inv}

module _ (t : Table String LocalDto) (L : IsLawful t) where
  start_cases :
      (name : String) (secs millis later : ℕ)
      → (start name secs millis later ≡ none)
        ⊎ ((dto : LocalDto) × (start name secs millis later ≡ some (creating (millis / 1000) dto)))
  unfolding start get_system_time_in_seconds
  start_cases name secs millis later = elim (Bool-cases (leb 1 secs)) [
    | inl low ↦ elim (Bool-cases (leb secs 879)) [
      | inl high ↦ inr (request name secs later, rw (low, high) refl)
      | inr wide ↦ inl (rw (low, wide) refl)
    ]
    | inr low ↦ inl (rw low refl)
  ]

  begin-Inv :
      (w : World t) (v : Inv t w) (i : ℕ) (p : Process) (name : String) (secs later : ℕ)
      → Inv t (begin_from t w i p name secs later)
  unfolding begin_from
  begin-Inv w v i idle name secs later = elim (start_cases name secs w.clock later) [
    | inl e ↦ rw (e, begin_from) v
    | inr (dto, e) ↦
        rw (e, begin_from) (still-Inv t w v i _ _ (λ m. refl) (omega arith) (λ l q. cc))
  ]
  begin-Inv w v i (trying n a) name secs later = v
  begin-Inv w v i (holding lock) name secs later = v

  tick-Inv : (w : World t) (v : Inv t w) (d : ℕ) → Inv t (record w { clock = w.clock + d })
  tick-Inv w v d = record {
    keyed = v.keyed;
    good = λ j. later (w.process j) (v.good j);
    exclusive =
        λ i j l k hi hj same a b. v.exclusive i j l k hi hj same (omega arith) (omega arith);
  }
    where
      sooner : (a : Attempt) → Early t (seconds t w) a → Early t ((w.clock + d) / 1000) a
      sooner (creating st dto) e = omega arith
      sooner (reading st dto) e = omega arith
      sooner (recreating st dto) e = omega arith
      sooner (patching st dto current) e = (omega arith, e.1, e.2)
      sooner (acquired dto) e = e
      sooner refused e = e
      sooner lost e = e

      later :
          (p : Process) → Good t (seconds t w) w.table p → Good t ((w.clock + d) / 1000) w.table p
      later idle g = tt
      later (trying secs a) g = sooner a g
      later (holding l) g = (g.0, λ live. g.1 (omega arith))

  -- A refresh comes to its second access only while the table has an item of its lock's name, so it
  -- makes none.
  abbrev pub Present : World t → Move → Type 0
  Present w (access i) =
      (l : Lock) → w.process i ≡ holding l → w.pending i ≢ none → t.get_item w.table l.name ≢ none
  Present w (refreshes i) = Unit
  Present w (tick d) = Unit
  Present w (begin i name secs later) = Unit
  Present w (releases i) = Unit

  access_of-Inv :
      (w : World t) (v : Inv t w) (i : ℕ) (p : Process)
      → w.process i ≡ p
      → Present w (access i)
      → Inv t (access_from t w i p)
  unfolding access_from
  access_of-Inv w v i idle h present = v
  access_of-Inv w v i (trying secs a) h present =
      access-Inv t L w v i secs a (subst (Good t (seconds t w) w.table) h (v.good i))
  access_of-Inv w v i (holding l) h present =
      retry_from-Inv t L w v i l (w.pending i) h (present l h)

  refresh_of-Inv :
      (w : World t) (v : Inv t w) (i : ℕ) (p : Process)
      → w.process i ≡ p
      → Inv t (refresh_from t w i p)
  unfolding refresh_from
  refresh_of-Inv w v i idle h = v
  refresh_of-Inv w v i (trying secs a) h = v
  refresh_of-Inv w v i (holding l) h = refresh-Inv t L w v i l h

  release_of-Inv :
      (w : World t) (v : Inv t w) (i : ℕ) (p : Process)
      → w.process i ≡ p
      → Inv t (release_from t w i p)
  unfolding release_from
  release_of-Inv w v i idle h = v
  release_of-Inv w v i (trying secs a) h = v
  release_of-Inv w v i (holding l) h = release-Inv t L w v i l h

  pub step-Inv : (w : World t) (m : Move) → Inv t w → Present w m → Inv t (step t w m)
  unfolding step
  step-Inv w (tick d) v present = tick-Inv w v d
  step-Inv w (begin i name secs later) v present = begin-Inv w v i (w.process i) name secs later
  step-Inv w (access i) v present = access_of-Inv w v i (w.process i) refl present
  step-Inv w (refreshes i) v present = refresh_of-Inv w v i (w.process i) refl
  step-Inv w (releases i) v present = release_of-Inv w v i (w.process i) refl

  -- Along a history every refresh finds an item.
  abbrev pub AllPresent : World t → List Move → Type 0
  AllPresent w [] = Unit
  AllPresent w (m ∷ ms) = Present w m × AllPresent (step t w m) ms

  run-Inv : (w : World t) (ms : List Move) → Inv t w → AllPresent w ms → Inv t (run t w ms)
  unfolding run
  run-Inv w [] v present = v
  run-Inv w (m ∷ ms) v (here, rest) = run-Inv (step t w m) ms (step-Inv w m v here) rest

  -- From a world with keyed items in which every process is idle, and whatever the moves and their
  -- order, each access to the table one of them, where a process that refreshes its lock does nothing
  -- else till that is over: two processes that hold locks of one name, both within their terms, are
  -- one process, provided that whenever a refresh comes to its second
  -- access, an item of its lock's name is there.
  pub run-Exclusive :
      (w : World t) (ms : List Move)
      → IsKeyed t w.table
      → ((i : ℕ) → w.process i ≡ idle)
      → AllPresent w ms
      → Exclusive t (run t w ms)
  run-Exclusive w ms keyed fresh present =
      (run-Inv w ms
        (record {
          keyed = keyed;
          good = λ i. rw (fresh i) tt;
          exclusive = λ i j l k hi hj same a b. cc (fresh i, hi);
        })
        present).exclusive
