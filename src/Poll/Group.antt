-- ===== src/Poll/Group.antt =====
-- python/shim-service/src/poll/polling_group.py: a group of workers, one thread to an event, that
-- are counted when they are submitted and when they start to poll.
pub mod Counts
pub mod Collect
pub mod Leaks
use shim_service.Base.{
  ℕ, zero, suc, ◌+◌, ◌-◌, ◌≤◌, Bool, true, false, Option, none, some, List, [], ◌∷◌, ◌++◌, eqb, ltb,
  if◌then◌else◌,
}

-- Where a worker's thread is: it was submitted, it polls, or it has ended.
pub data Phase : Type 0 where
  submitted polling ended : Phase

pub record Group : Type 0 where
  pub max_working_count : ℕ
  pub submit_count : ℕ
  pub working_count : ℕ
  pub threads : List Phase
  -- the calls of `invoke_again`
  pub invocations : ℕ

-- `dec_submit_count`. Every call follows an increment of the same worker's.
unfoldable pub dec_submit_count : Group → Group
dec_submit_count g = record g { submit_count = g.submit_count - 1 }

abbrev pub invoke_again : Group → Group
invoke_again g = record g { invocations = g.invocations + 1 }

-- What `__try_lock` comes to (it is `None`, it raises, or it is the lock with the action time
-- updated), and what `should_poll` then does.
pub data Locking : Type 0 where
  refused lock_raised locked : Locking

pub data Should : Type 0 where
  poll_it skip_it should_raised : Should

-- The part of `__inner_worker` before `poll`, for a worker that was submitted: the group and where
-- the worker is then. The lock's `with` releases it and invokes again wherever the block is left
-- after `after_release` was set.
unfoldable pub inner_worker : Locking → Should → Group → Group × Phase
unfolding dec_submit_count
inner_worker Locking.refused should g = (dec_submit_count g, Phase.ended)
inner_worker Locking.lock_raised should g = (dec_submit_count g, Phase.ended)
inner_worker Locking.locked Should.skip_it g = (invoke_again (dec_submit_count g), Phase.ended)
inner_worker Locking.locked Should.should_raised g = (invoke_again g, Phase.ended)
inner_worker Locking.locked Should.poll_it g = (
  record g { working_count = g.working_count + 1; submit_count = g.submit_count - 1 },
  Phase.polling,
)

-- One turn of the loop of `is_full`, under the mutex: its answer, or none where it goes on to wait.
unfoldable pub check_full : Bool → Group → Option Bool × Group
check_full increment g =
    if eqb g.working_count g.max_working_count
    then (some true, g)
    else if ltb (g.working_count + g.submit_count) g.max_working_count
    then (some false, if increment then record g { submit_count = g.submit_count + 1 } else g)
    else (if increment then none else some false, g)

-- `is_full` with the turns that its timer leaves, `others n` being what the workers do before the
-- turn with `n` left.
answer_full : Option Bool × Group → (Group → Bool × Group) → Bool × Group
answer_full (some full, g) rest = (full, g)
answer_full (none, g) rest = rest g

unfoldable pub is_full : ℕ → Bool → (ℕ → Group → Group) → Group → Bool × Group
unfolding answer_full
is_full zero increment others g = (true, g)
is_full (suc turns) increment others g =
    let rest = is_full turns increment others in
    answer_full (check_full increment (others turns g)) rest

-- `add`: whether the event was added.
start_thread : Bool × Group → Bool × Group
start_thread (true, g) = (false, g)
start_thread (false, g) = (true, record g { threads = Phase.submitted ∷ g.threads })

unfoldable pub add : ℕ → (ℕ → Group → Group) → Group → Bool × Group
unfolding start_thread
add turns others g = start_thread (is_full turns true others g)

-- What one thread of the group does next: a submitted one goes through `__inner_worker` up to the
-- poll, and one that polls ends, which releases its lock and invokes again.
pub data Turn : Type 0 where
  start : Locking → Should → Turn
  finish : Turn

abbrev pub set_thread : ℕ → Phase → List Phase → List Phase
set_thread n p [] = []
set_thread zero p (q ∷ qs) = p ∷ qs
set_thread (suc n) p (q ∷ qs) = q ∷ set_thread n p qs

abbrev pub thread_at : ℕ → List Phase → Option Phase
thread_at n [] = none
thread_at zero (q ∷ qs) = some q
thread_at (suc n) (q ∷ qs) = thread_at n qs

move_to : ℕ → Group × Phase → Group
move_to n (g, p) = record g { threads = set_thread n p g.threads }

unfoldable pub advance : ℕ → Turn → Option Phase → Group → Group
unfolding move_to inner_worker
advance n (Turn.start locking should) (some Phase.submitted) g =
    move_to n (inner_worker locking should g)
advance n Turn.finish (some Phase.polling) g = move_to n (invoke_again g, Phase.ended)
advance n _ _ g = g

unfoldable pub work : List (ℕ × Turn) → Group → Group
unfolding advance
work [] g = g
work ((n, turn) ∷ turns) g = work turns (advance n turn (thread_at n g.threads) g)
