-- ===== src/Repos/Store/Deletes.antt =====
-- Deleting a session, and whose row it deletes with it.
use shim_service.Base.{
  ℕ, ◌+◌, ◌≡◌, refl, sym, ap, ap₂, subst, ◌∙◌, ◌≢◌, String, false, Option, none, some, List,
  Bool-cases, Option-cases, not, ◌&&◌, ◌||◌, if◌then◌else◌, inl, inr, ◌==◌, nat_eq, string_eq,
  pair_eq, beq_refl,
}
use shim_service.Records.{Record}
use shim_service.Session
use shim_service.Session.{Session, SessionKey}
use shim_service.Events.{EventType}
use shim_service.Repos.Sessions.{Reply, Failure}
use shim_service.Repos.Table.{is_none}
use shim_service.Repos.Database.{
  ItemKey, Request, holds_on, effect, Rows, all_hold, committed, Database, rows_of, IsLawful,
}
use shim_service.Repos.Store.{
  Surroundings, session_item, user_item, event_item, execute_with_event, delete_requests, event_of,
  succeeded, delete_session, create_session,
}
use shim_service.Repos.Store.Transactions.{verdict}
use shim_service.Repos.Store.Writes.{Ready, IsQuiet, write_lem, item_ne}
use shim_service.Repos.Store.Creates.{timed, create_session_lem}
use shim_service.Repos.Store.Logins.{session_row, other_row}

pub delete_holds :
    (rows : Rows) (session : Session)
    → all_hold rows (delete_requests session)
      ≡ not (is_none (rows (session_item session.tenant_id session.session_id)))
unfolding holds_on
delete_holds rows session =
    elim (Option-cases (rows (session_item session.tenant_id session.session_id))) [
      | inl e ↦ rw e refl
      | inr (r, e) ↦ elim (Option-cases (rows (user_item session.tenant_id session.user_id))) [
        | inl no_user ↦ rw (e, no_user) refl
        | inr (u, user) ↦ rw (e, user) refl
      ]
    ]

deleted_rows :
    (rows : Rows) (session : Session) (k : ItemKey)
    → let own : ItemKey = session_item session.tenant_id session.session_id in
      committed rows (delete_requests session) k ≡ (
        if not (is_none (rows own))
          && (k == own || k == user_item session.tenant_id session.user_id)
        then none
        else rows k)
unfolding committed effect
deleted_rows rows session k =
    let own : ItemKey = session_item session.tenant_id session.session_id in
    let user : ItemKey = user_item session.tenant_id session.user_id in
    rw (delete_holds rows session) (elim (Bool-cases (is_none (rows own))) [
      | inl gone ↦ rw gone refl
      | inr there ↦ rw there (elim (Bool-cases (k == own)) [
        | inl same ↦ rw same refl
        | inr other ↦ rw other (elim (Bool-cases (k == user)) [
          | inl same ↦ rw same refl
          | inr neither ↦ rw neither refl
        ])
      ])
    ])

module _ (rows : Rows) (session : Session) {row : Record}
    (there : rows (session_item session.tenant_id session.session_id) ≡ some row) where
  deleted_user :
      committed rows (delete_requests session) (user_item session.tenant_id session.user_id) ≡ none
  unfolding committed effect
  deleted_user =
      rw
        (
          delete_holds rows session,
          there,
          beq_refl ⦃e = pair_eq⦄ (user_item session.tenant_id session.user_id),
        )
        refl

  kept_session :
      (session_id : String)
      → session_id ≢ session.session_id
      → committed rows (delete_requests session) (session_item session.tenant_id session_id)
        ≡ rows (session_item session.tenant_id session_id)
  unfolding committed
  kept_session session_id ne =
      rw
        (
          delete_holds rows session,
          there,
          item_ne (session_item session.tenant_id session_id)
              (session_item session.tenant_id session.session_id)
              (λ same. ne (ap (λ (k : ItemKey). k.1.0) same)),
        )
        refl

module _ (db : Database) (env : Surroundings) where
  pub succeeded_state :
      (p : Reply Failure (Option ℕ) × db.sequences.State) → (succeeded db env p).1 ≡ p.1
  unfolding succeeded
  succeeded_state (Reply.raised e, s) = refl
  succeeded_state (Reply.ok none, s) = refl
  succeeded_state (Reply.ok (some i), s) = refl

  -- What `bad_request is None` makes of a verdict.
  pub succeeded-verdict :
      (rows : Rows) (rs : List Request) (p : Reply Failure (Option ℕ) × db.sequences.State)
      → p.0 ≡ verdict rows rs
      → (succeeded db env p).0 ≡ Reply.ok (all_hold rows rs)
  unfolding succeeded
  succeeded-verdict rows rs (r, s) e = elim (Bool-cases (all_hold rows rs)) [
    | inl good ↦ rw (e, good) refl
    | inr bad ↦ rw (e, bad) refl
  ]

  -- `delete_session` where nothing is in its way, by the requests that it makes.
  pub delete_session_writes :
      (session : Session) (v : ℕ) (s : db.sequences.State)
      → IsLawful db
      → IsQuiet db env
      → Ready db session.tenant_id v s
      → let (reply, s') = delete_session db env session s in
        let there =
          not (is_none (rows_of db s (session_item session.tenant_id session.session_id))) in
        (reply ≡ Reply.ok there)
        × ((k : ItemKey)
            → ((n : ℕ) → (k == event_item session.tenant_id n) ≡ false)
            → rows_of db s' k ≡ committed (rows_of db s) (delete_requests session) k)
        × Ready db session.tenant_id (v + 1) s'
  unfolding delete_session holds_on
  delete_session_writes session v s L quiet ready =
      let run =
        execute_with_event db env session.tenant_id (delete_requests session)
          EventType.session_deleted (event_of session) s in
      let (answer, rows, event, next_) =
        write_lem db env session.tenant_id (delete_requests session) EventType.session_deleted
          (event_of session) v s L quiet ((λ n. refl), ((λ n. refl), tt)) ready in
      (
        succeeded-verdict (rows_of db s) (delete_requests session) run answer
            ∙ ap Reply.ok (delete_holds (rows_of db s) session),
        rw (succeeded_state run) rows,
        rw (succeeded_state run) next_,
      )

  -- `delete_session` where nothing is in its way: true exactly if the session has a row. Of the rows
  -- that are not events', that row is then gone and so is its user's, whatever session that one
  -- names, and no other changes; else none changes. In either case an event's number is used.
  pub delete_session_lem :
      (session : Session) (v : ℕ) (s : db.sequences.State)
      → IsLawful db
      → IsQuiet db env
      → Ready db session.tenant_id v s
      → let (reply, s') = delete_session db env session s in
        let own : ItemKey = session_item session.tenant_id session.session_id in
        let there = not (is_none (rows_of db s own)) in
        (reply ≡ Reply.ok there)
        × ((k : ItemKey)
            → ((n : ℕ) → (k == event_item session.tenant_id n) ≡ false)
            → rows_of db s' k ≡ (
                if there && (k == own || k == user_item session.tenant_id session.user_id)
                then none
                else rows_of db s k))
        × Ready db session.tenant_id (v + 1) s'
  delete_session_lem session v s L quiet ready =
      let (answer, rows, next_) = delete_session_writes session v s L quiet ready in
      (answer, λ k other. rows k other ∙ deleted_rows (rows_of db s) session k, next_)

  -- Deleting a session that is no longer its user's, as a failed one that another has replaced, takes
  -- the row of the user all the same. The user's session `live` stays, but the next login of the user
  -- creates a session beside it instead of being answered with it.
  pub delete_session_strands :
      (later : Surroundings) (session login : Session) (live : String) (v : ℕ)
      (s : db.sequences.State) {row live_row : Record}
      → IsLawful db
      → IsQuiet db env
      → IsQuiet db later
      → Ready db session.tenant_id v s
      → db.get_item s (session_item session.tenant_id session.session_id) ≡ some row
      → db.get_item s (session_item session.tenant_id live) ≡ some live_row
      → live ≢ session.session_id
      → login.tenant_id ≡ session.tenant_id
      → login.user_id ≡ session.user_id
      → db.get_item s (session_item session.tenant_id login.session_id) ≡ none
      → login.session_id ≢ session.session_id
      → let s' = (delete_session db env session s).1 in
        let ((time, reply), s'') = create_session db later login s' in
        (reply ≡ Reply.ok none)
        × (db.get_item s'' (session_item session.tenant_id live) ≡ some live_row)
        × (db.get_item s'' (session_item login.tenant_id login.session_id)
            ≡ some (Session.to_record (timed later login)))
  delete_session_strands later session login live v s {row} {live_row} L quiet quiet' ready there
        live_there live_ne tenant user absent login_ne =
      let s' = (delete_session db env session s).1 in
      let (answer, rows, next_) = delete_session_writes session v s L quiet ready in
      let no_user =
        rows (user_item session.tenant_id session.user_id) (λ n. refl)
        ∙ deleted_user (rows_of db s) session there in
      let no_login =
        rows (session_item session.tenant_id login.session_id) (λ n. refl)
        ∙ kept_session (rows_of db s) session there login.session_id login_ne
        ∙ absent in
      let still =
        rows (session_item session.tenant_id live) (λ n. refl)
        ∙ kept_session (rows_of db s) session there live live_ne
        ∙ live_there in
      let no_user' : db.get_item s' (user_item login.tenant_id login.user_id) ≡ none =
        subst (λ (k : ItemKey). db.get_item s' k ≡ none) (sym (ap₂ user_item tenant user))
          no_user in
      let no_login' : db.get_item s' (session_item login.tenant_id login.session_id) ≡ none =
        rw tenant no_login in
      let (time, reply, rows', next_') =
        create_session_lem db later login (v + 1) s' L quiet'
          (subst (λ n. Ready db n (v + 1) s') (sym tenant) next_) in
      let s'' = (create_session db later login s').1 in
      let live_login : live ≢ login.session_id = λ same. cc (same, still, no_login) in
      (
        reply ∙ rw (no_login', no_user') refl,
        subst (λ (n : ℕ). db.get_item s'' (session_item n live) ≡ some live_row) tenant
            (rows' (session_item login.tenant_id live) (λ n. refl)
              ∙ other_row (rows_of db s') later login no_login' no_user' live live_login
              ∙ rw tenant still),
        rows' (session_item login.tenant_id login.session_id) (λ n. refl)
            ∙ session_row (rows_of db s') later login no_login' no_user',
      )
