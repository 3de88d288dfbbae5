-- ===== src/Repos/Store/Creates.antt =====
-- Creating a session: what it answers and writes on every branch.
use shim_service.Base.{
  ℕ, zero, suc, ◌+◌, ◌≡◌, refl, ◌∙◌, String, false, Option, none, some, List, Option-cases, inl,
  inr, ◌==◌, nat_eq, string_eq, pair_eq,
}
use shim_service.Records.{Record}
use shim_service.Session.{Session}
use shim_service.Session.Users
use shim_service.Session.Users.{UserSession, to_user_session}
use shim_service.Events.{EventType}
use shim_service.Repos.Sessions.{Reply, Failure}
use shim_service.Repos.Database.{
  ItemKey, Request, holds_on, Rows, committed, Database, rows_of, IsLawful,
}
use shim_service.Repos.Store.{
  Surroundings, session_item, user_item, event_item, execute_with_event, existing, after_create,
  expires, create_requests, create_session, event_of,
}
use shim_service.Repos.Store.Transactions.{verdict}
use shim_service.Repos.Store.Writes.{Ready, IsQuiet, NoEvents, write_lem}

-- The reply of `create_session`, by the rows of the session and of the user before it.
abbrev pub create_reply : Option Record → Option Record → Reply Failure (Option String)
create_reply (some row) old_user = Reply.raised Failure.entity_exists
create_reply none none = Reply.ok none
create_reply none (some row) = elim (Users.from_record row) [
  | none ↦ Reply.raised (Failure.other "KeyError")
  | some user_session ↦ Reply.ok (some user_session.session_id)
]

-- The session with the time that `create_session` sets.
abbrev pub timed : Surroundings → Session → Session
timed env session = record session {
  expiration_time = some (expires env session.expiration_seconds);
}

abbrev pub requests_for : Surroundings → Session → List Request
requests_for env session =
    create_requests (timed env session) (expires env session.expiration_seconds)

module _ (db : Database) (env : Surroundings) where
  after_create_lem :
      (session : Session) (rows : Rows) (p : Reply Failure (Option ℕ) × db.sequences.State)
      → p.0 ≡ verdict rows (requests_for env session)
      → rows_of db p.1 (user_item session.tenant_id session.user_id)
        ≡ committed rows (requests_for env session) (user_item session.tenant_id session.user_id)
      → (after_create db env session p).0
        ≡ create_reply
            (rows (session_item session.tenant_id session.session_id))
            (rows (user_item session.tenant_id session.user_id))
  unfolding after_create existing committed holds_on
  after_create_lem session rows (r, s) e after =
      elim (Option-cases (rows (session_item session.tenant_id session.session_id))) [
        | inr (old, old_is) ↦ rw (e, old_is) refl
        | inl no_session ↦
            elim (Option-cases (rows (user_item session.tenant_id session.user_id))) [
              | inl no_user ↦ rw (e, no_session, no_user) refl
              | inr (user, user_is) ↦
                  let kept : db.get_item s (user_item session.tenant_id session.user_id)
                      ≡ some user =
                    after ∙ rw (no_session, user_is) refl in
                  rw (e, no_session, user_is, kept) refl
            ]
      ]

  after_create_state :
      (session : Session) (p : Reply Failure (Option ℕ) × db.sequences.State)
      → (after_create db env session p).1 ≡ p.1
  unfolding after_create
  after_create_state session (Reply.raised e, s) = refl
  after_create_state session (Reply.ok none, s) = refl
  after_create_state session (Reply.ok (some zero), s) = refl
  after_create_state session (Reply.ok (some (suc zero)), s) = refl
  after_create_state session (Reply.ok (some (suc (suc i))), s) = refl

  NoEvents-requests :
      (session : Session) → NoEvents db env session.tenant_id (requests_for env session)
  NoEvents-requests session = ((λ n. refl), ((λ n. refl), tt))

  -- `create_session` where nothing is in its way: it sets the expiration time and answers by the two
  -- rows that were there. Where there was neither, both rows are put, for the session as it was timed;
  -- else no row of a session or of a user changes. The store is ready for the next write.
  pub create_session_lem :
      (session : Session) (v : ℕ) (s : db.sequences.State)
      → IsLawful db
      → IsQuiet db env
      → Ready db session.tenant_id v s
      → let ((expire_time, reply), s') = create_session db env session s in
        let old_session = rows_of db s (session_item session.tenant_id session.session_id) in
        let old_user = rows_of db s (user_item session.tenant_id session.user_id) in
        (expire_time ≡ expires env session.expiration_seconds)
        × (reply ≡ create_reply old_session old_user)
        × ((k : ItemKey)
            → ((n : ℕ) → (k == event_item session.tenant_id n) ≡ false)
            → rows_of db s' k ≡ committed (rows_of db s) (requests_for env session) k)
        × Ready db session.tenant_id (v + 1) s'
  unfolding create_session
  create_session_lem session v s L quiet ready =
      let run =
        execute_with_event db env session.tenant_id (requests_for env session)
          EventType.session_created (event_of (timed env session)) s in
      let (answer, rows, event, next_) =
        write_lem db env session.tenant_id (requests_for env session) EventType.session_created
          (event_of (timed env session)) v s L quiet (NoEvents-requests session) ready in
      let user = user_item session.tenant_id session.user_id in
      (
        refl,
        after_create_lem (timed env session) (rows_of db s) run answer (rows user (λ n. refl)),
        rw (after_create_state (timed env session) run) rows,
        rw (after_create_state (timed env session) run) next_,
      )
