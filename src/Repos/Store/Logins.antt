-- ===== src/Repos/Store/Logins.antt =====
-- What a created session answers to those who look for it, and to its user's other logins.
use shim_service.Base.{
  ℕ, ◌<◌, ◌≡◌, refl, ap, ◌∙◌, ◌≢◌, String, none, some, nat_eq, string_eq, pair_eq, beq_refl,
}
use shim_service.Base.Dict.{insert}
use shim_service.Records.{Value, members_of, channels}
use shim_service.Session
use shim_service.Session.{Session, SessionKey, key_of}
use shim_service.Session.RoundTrips.{from_record-to_record}
use shim_service.Session.Users
use shim_service.Session.Users.{to_user_session}
use shim_service.Repos.Sessions.{Reply}
use shim_service.Repos.Database.{
  ItemKey, holds_on, effect, Rows, committed, Database, rows_of, IsLawful,
}
use shim_service.Repos.Store.{
  Surroundings, session_item, user_item, expires, create_session, found, find_session,
}
use shim_service.Repos.Store.Writes.{Ready, IsQuiet, item_ne}
use shim_service.Repos.Store.Creates.{timed, requests_for, create_session_lem}

module _ (rows : Rows) (env : Surroundings) (session : Session)
    (no_session : rows (session_item session.tenant_id session.session_id) ≡ none)
    (no_user : rows (user_item session.tenant_id session.user_id) ≡ none) where
  pub session_row :
      committed rows (requests_for env session) (session_item session.tenant_id session.session_id)
      ≡ some (Session.to_record (timed env session))
  unfolding committed holds_on effect
  session_row =
      rw
        (
          beq_refl ⦃e = pair_eq⦄ (session_item session.tenant_id session.session_id),
          no_session,
          no_user,
        )
        refl

  pub users_row :
      committed rows (requests_for env session) (user_item session.tenant_id session.user_id)
      ≡ some (
          insert "expireTime"
            (Value.int (expires env session.expiration_seconds))
            (Users.to_record (to_user_session (timed env session))))
  unfolding committed holds_on effect
  users_row =
      rw (beq_refl ⦃e = pair_eq⦄ (user_item session.tenant_id session.user_id), no_session, no_user)
        refl

  -- The other sessions' rows are as they were.
  pub other_row :
      (session_id : String)
      → session_id ≢ session.session_id
      → committed rows (requests_for env session) (session_item session.tenant_id session_id)
        ≡ rows (session_item session.tenant_id session_id)
  unfolding committed holds_on
  other_row session_id ne =
      rw
        (
          item_ne (session_item session.tenant_id session_id)
              (session_item session.tenant_id session.session_id)
              (λ same. ne (ap (λ (k : ItemKey). k.1.0) same)),
          no_session,
          no_user,
        )
        refl

module _ (db : Database) (env : Surroundings) where
  -- A session that was created, where neither it nor a session of its user was there, is found from
  -- then on as it was given, with its expiration time, and with the registered ones of its channels.
  pub find-create :
      (later : Surroundings) (session : Session) (v : ℕ) (s : db.sequences.State)
      → IsLawful db
      → IsQuiet db env
      → Ready db session.tenant_id v s
      → 0 < session.time_created
      → 0 < session.update_time
      → db.get_item s (session_item session.tenant_id session.session_id) ≡ none
      → db.get_item s (user_item session.tenant_id session.user_id) ≡ none
      → let s' = (create_session db env session s).1 in
        find_session db later (key_of session) s' ≡ (
          Reply.ok (
              some (record session {
                expiration_time = some (expires env session.expiration_seconds);
                channel_platform_types = members_of session.channel_platform_types channels;
              })),
          s',
        )
  unfolding find_session
  find-create later session v s L quiet ready created updated no_session no_user =
      let (time, reply, rows, next_) = create_session_lem db env session v s L quiet ready in
      let row =
        rows (session_item session.tenant_id session.session_id) (λ n. refl)
        ∙ session_row (rows_of db s) env session no_session no_user in
      rw (row, found, from_record-to_record (timed env session) later.millis created updated) refl
