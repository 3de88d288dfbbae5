-- ===== src/Repos/Store/Owners/Runs.antt =====
-- Runs of calls of the store, what its callers are to see to in each, and the owners of the sessions
-- after them.
use shim_service.Base.{
  ℕ, ◌+◌, ◌≡◌, refl, ◌∙◌, String, false, Option, none, some, List, [], ◌∷◌, ◌==◌, nat_eq, string_eq,
  pair_eq,
}
use shim_service.Session.{Session, SessionKey}
use shim_service.Events.{EventType}
use shim_service.Repos.Sessions.{Reply, Failure}
use shim_service.Repos.Database.{ItemKey, Request, committed, Database, rows_of, IsLawful}
use shim_service.Repos.Store.{
  Datum, Surroundings, session_item, user_item, event_item, expires, execute_with_event, event_of,
  touch_requests, delete_requests, update_with_state_check, create_session, update_session,
  touch_with_event, delete_session, fix_orphaned_user_session, touched,
}
use shim_service.Repos.Store.Writes.{Ready, IsQuiet, write_lem, committed_other}
use shim_service.Repos.Store.Creates.{requests_for, create_session_lem}
use shim_service.Repos.Store.Deletes.{delete_session_writes, succeeded_state}
use shim_service.Repos.Store.Owners.{IsOwned, OneEach, IsOwned-OneEach, IsOwned-same}
use shim_service.Repos.Store.Owners.Writers.{DeletesOwn, create-IsOwned, delete-IsOwned}
use shim_service.Repos.Store.Owners.Patches.{touch-IsOwned}
use shim_service.Repos.Store.Owners.Updates.{UpdatesOwn, update-IsOwned}
use shim_service.Repos.Store.Owners.Orphans.{IsOrphan, removal, remove-IsOwned}

-- A call of the store with what it takes from outside.
pub data Move : Type 0 where
  creates updates deletes fixes : Surroundings → Session → Move
  touches : Surroundings → String → String → ℕ → Move

module _ (db : Database) (tenant_id : ℕ) where
  -- The calls are for sessions of one tenant.
  abbrev pub of_tenant : Session → Session
  of_tenant session = record session { tenant_id = tenant_id }

  abbrev pub key_for : String → SessionKey
  key_for session_id = record { tenant_id = tenant_id; session_id = session_id }

  unfoldable pub perform : Move → db.sequences.State → db.sequences.State
  perform (creates env session) s = (create_session db env (of_tenant session) s).1
  perform (updates env session) s = (update_session db env (of_tenant session) s).1
  perform (deletes env session) s = (delete_session db env (of_tenant session) s).1
  perform (fixes env session) s = (fix_orphaned_user_session db env (of_tenant session) s).1
  perform (touches env session_id user_id seconds) s =
      (touch_with_event db env (key_for session_id) user_id seconds s).1

  unfoldable pub perform_all : List Move → db.sequences.State → db.sequences.State
  perform_all [] s = s
  perform_all (m ∷ ms) s = perform_all ms (perform m s)

  -- What the callers see to: an update is of the user's session and revives none that failed, a
  -- deleted session is the one that its user's row names, and a removed row is an orphan's.
  abbrev pub IsProper : Move → db.sequences.State → Type 0
  IsProper (creates env session) s = IsQuiet db env
  IsProper (updates env session) s = IsQuiet db env × UpdatesOwn (of_tenant session) (rows_of db s)
  IsProper (deletes env session) s = IsQuiet db env × DeletesOwn (of_tenant session) (rows_of db s)
  IsProper (fixes env session) s = IsOrphan (of_tenant session) (rows_of db s)
  IsProper (touches env session_id user_id seconds) s = IsQuiet db env

  abbrev pub AllProper : List Move → db.sequences.State → Type 0
  AllProper [] s = Unit
  AllProper (m ∷ ms) s = IsProper m s × AllProper ms (perform m s)

  -- The rows after a write, those of events apart, are those of its requests.
  abbrev pub Wrote : List Request → db.sequences.State → db.sequences.State → Type 0
  Wrote rs s s' =
      (k : ItemKey)
      → ((n : ℕ) → (k == event_item tenant_id n) ≡ false)
      → rows_of db s' k ≡ committed (rows_of db s) rs k

  Wrote-IsOwned :
      (rs : List Request) (s s' : db.sequences.State)
      → Wrote rs s s'
      → IsOwned tenant_id (committed (rows_of db s) rs)
      → IsOwned tenant_id (rows_of db s')
  Wrote-IsOwned rs s s' wrote =
      IsOwned-same tenant_id (committed (rows_of db s) rs) (rows_of db s')
        (λ i. wrote (session_item tenant_id i) (λ n. refl))
        (λ u. wrote (user_item tenant_id u) (λ n. refl))

  -- The store is ready for a write, and all sessions have their owners.
  abbrev Sound : db.sequences.State → Type 0
  Sound s = (v : ℕ) × Ready db tenant_id v s × IsOwned tenant_id (rows_of db s)

  pub touched_state :
      (env : Surroundings) (time : ℕ) (p : Reply Failure (Option ℕ) × db.sequences.State)
      → (touched db env time p).1 ≡ p.1
  unfolding touched
  touched_state env time (Reply.raised e, s) = refl
  touched_state env time (Reply.ok none, s) = refl
  touched_state env time (Reply.ok (some i), s) = refl

  module _ (L : IsLawful db) where
    pub removal-Ready :
        (session : Session) (v : ℕ) (s : db.sequences.State)
        → Ready db tenant_id v s
        → Ready db tenant_id v (db.transact (removal session) s).1
    removal-Ready session v s ready = record {
      shows = L.transact_spares (removal session) s (tenant_id, "EventSeq") ∙ ready.shows;
      fresh = λ n later.
          L.rows-transact (removal session) s (event_item tenant_id n)
          ∙ committed_other (rows_of db s) (removal session) (event_item tenant_id n) (refl, tt)
          ∙ ready.fresh n later;
    }

    perform-Sound :
        (m : Move) (s : db.sequences.State) → IsProper m s → Sound s → Sound (perform m s)
    unfolding perform update_session touch_with_event fix_orphaned_user_session
    perform-Sound (creates env session) s quiet (v, ready, owned) =
        let own = of_tenant session in
        let (time, reply, rows, next_) = create_session_lem db env own v s L quiet ready in
        (
          v + 1,
          next_,
          Wrote-IsOwned (requests_for env own) s (create_session db env own s).1 rows
              (create-IsOwned env own (rows_of db s) owned),
        )
    perform-Sound (deletes env session) s (quiet, proper) (v, ready, owned) =
        let own = of_tenant session in
        let (reply, rows, next_) = delete_session_writes db env own v s L quiet ready in
        (
          v + 1,
          next_,
          Wrote-IsOwned (delete_requests own) s (delete_session db env own s).1 rows
              (delete-IsOwned own (rows_of db s) proper owned),
        )
    perform-Sound (updates env session) s (quiet, proper) (v, ready, owned) =
        let own = of_tenant session in
        let rs = update_with_state_check env own ∷ [] in
        let run =
          execute_with_event db env tenant_id rs EventType.session_updated (event_of own) s in
        let (answer, rows, event, next_) =
          write_lem db env tenant_id rs EventType.session_updated (event_of own) v s L quiet
            ((λ n. refl), tt) ready in
        rw (succeeded_state db env run) (
          v + 1,
          next_,
          Wrote-IsOwned rs s run.1 rows (update-IsOwned env own (rows_of db s) proper owned),
        )
    perform-Sound (touches env session_id user_id seconds) s quiet (v, ready, owned) =
        let time = expires env seconds in
        let rs = touch_requests (key_for session_id) user_id time in
        let info = ("sessionId", Datum.text session_id) ∷ ("userId", Datum.text user_id) ∷ [] in
        let run = execute_with_event db env tenant_id rs EventType.session_touched info s in
        let (answer, rows, event, next_) =
          write_lem db env tenant_id rs EventType.session_touched info v s L quiet
            ((λ n. refl), ((λ n. refl), ((λ n. refl), tt))) ready in
        rw (touched_state env time run) (
          v + 1,
          next_,
          Wrote-IsOwned rs s run.1 rows
              (touch-IsOwned (key_for session_id) user_id time (rows_of db s) owned),
        )
    perform-Sound (fixes env session) s proper (v, ready, owned) =
        let own = of_tenant session in
        let s' = (db.transact (removal own) s).1 in
        (
          v,
          removal-Ready own v s ready,
          Wrote-IsOwned (removal own) s s' (λ k far. L.rows-transact (removal own) s k)
              (remove-IsOwned own (rows_of db s) proper owned),
        )

    perform_all-Sound :
        (ms : List Move) (s : db.sequences.State)
        → AllProper ms s
        → Sound s
        → Sound (perform_all ms s)
    unfolding perform_all
    perform_all-Sound [] s proper sound = sound
    perform_all-Sound (m ∷ ms) s proper sound =
        perform_all-Sound ms (perform m s) proper.1 (perform-Sound m s proper.0 sound)

    -- After any calls of the store one after the other, creating, updating, touching and deleting
    -- sessions and removing orphans, a user of the tenant has at most one session that has not
    -- failed, provided that at first every such session was named by its user's row, and that the
    -- callers see to what is theirs.
    pub perform_all-OneEach :
        (ms : List Move) (v : ℕ) (s : db.sequences.State)
        → Ready db tenant_id v s
        → IsOwned tenant_id (rows_of db s)
        → AllProper ms s
        → OneEach tenant_id (rows_of db (perform_all ms s))
    perform_all-OneEach ms v s ready owned proper =
        IsOwned-OneEach tenant_id (rows_of db (perform_all ms s))
          (perform_all-Sound ms s proper (v, ready, owned)).2
