-- ===== src/Tests/Locks.antt =====
-- Locks in a table in memory.
use shim_service.Base.{
  ◌≡◌, refl, String, true, Option, none, some, List, [], ◌∷◌, string_eq, if◌then◌else◌, arith,
}
use shim_service.Utils.Dates.{get_system_time_in_seconds, get_epoch_seconds_in_future}
use shim_service.Repos.Table.{Table, memory_table, memory_table-IsLawful}
use shim_service.Repos.Lock.{
  LocalDto, Lock, creating, acquired, advance, accesses, release, refresher, examine, start,
  refresh_patch,
}
use shim_service.Repos.Lock.Attempts.{accesses_lem, release_lem, refresher_stale, IsKeyed}
use shim_service.Repos.Lock.World.{
  World, Move, idle, tick, begin, access, refreshes, releases, step, run, Exclusive,
}
use shim_service.Repos.Lock.World.Exclusion.{AllPresent, run-Exclusive}

abbrev locks : Table String LocalDto
locks = memory_table

abbrev no_items : String → Option LocalDto
no_items k = none

abbrev dto : LocalDto
dto = record { resource_name = "a"; timeout_at = 20 }

abbrev one_item : String → Option LocalDto
one_item k =
    if string_eq.beq k "a" then some (record { resource_name = "a"; timeout_at = 5 }) else none

no_items-IsKeyed : IsKeyed locks no_items
no_items-IsKeyed k r h = absurd (ground arith)

one_item-IsKeyed : IsKeyed locks one_item
one_item-IsKeyed k r h = ground (arith, string_eq.beq_iff k "a")

abbrev lock : Lock
lock = record { name = "a"; timeout_at = 5; refresh_seconds = 10; release_result = none }

accesses_lem_example : (accesses locks 4 (λ n u. u) (creating 7 dto) one_item).0 ≡ acquired dto
unfolding accesses advance examine
accesses_lem_example = (accesses_lem locks memory_table-IsLawful 7 dto one_item one_item-IsKeyed).0

release_lem_example : (release locks lock one_item).0 ≡ true
release_lem_example = (release_lem locks memory_table-IsLawful lock one_item refl).0

refresher_stale_example : (refresher locks lock 17 (λ u. u) no_items).0 ≡ true
refresher_stale_example =
    (refresher_stale locks memory_table-IsLawful lock 17 7 dto no_items refl refl (ground arith)).0

-- Two processes that go for one lock; the second finds it taken, and takes it when it has expired.
-- The refresh of the first then makes both its accesses in vain.
abbrev world : World locks
world = record { clock = 0; table = no_items; process = λ i. idle; pending = λ i. none }

abbrev moves : List Move
moves =
    begin 0 "a" 10 0
    ∷ access 0
    ∷ begin 1 "a" 10 0
    ∷ access 1
    ∷ access 1
    ∷ tick 11000
    ∷ begin 1 "a" 10 11000
    ∷ access 1
    ∷ access 1
    ∷ access 1
    ∷ refreshes 0
    ∷ access 0
    ∷ releases 0
    ∷ []

moves-AllPresent : AllPresent locks memory_table-IsLawful world moves
unfolding step start advance examine get_system_time_in_seconds get_epoch_seconds_in_future
    refresh_patch
moves-AllPresent = (
  tt,
  (
    λ l h p. absurd (p refl),
    (
      tt,
      (
        λ l h p. absurd (p refl),
        (
          λ l h p. absurd (p refl),
          (
            tt,
            (
              tt,
              (
                λ l h p. absurd (p refl),
                (
                  λ l h p. absurd (p refl),
                  (
                    λ l h p. absurd (p refl),
                    (tt, (λ l h p e. ground (arith, h, e, string_eq.beq_iff l.name "a"), (tt, tt))),
                  ),
                ),
              ),
            ),
          ),
        ),
      ),
    ),
  ),
)

run-Exclusive_example : Exclusive locks (run locks world moves)
run-Exclusive_example =
    run-Exclusive locks memory_table-IsLawful world moves no_items-IsKeyed (λ i. refl)
      moves-AllPresent
