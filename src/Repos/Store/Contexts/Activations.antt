-- ===== src/Repos/Store/Contexts/Activations.antt =====
-- How often a session is made active.
use shim_service.Base.{
  ℕ, ◌+◌, ◌≡◌, refl, ap, ◌∙◌, String, true, false, Option, some, List, [], ◌∷◌, ◌++◌, map, arith,
  Bool-cases, inl, inr, ◌==◌, nat_eq, string_eq, pair_eq, option_eq, beq_refl,
}
use shim_service.Base.Dict.{lookup}
use shim_service.Records.{Value, Record, value_eq}
use shim_service.Session.{Session, SessionStatus, status_value, has_live_agent_polling}
use shim_service.Session.Contexts.{SessionContext}
use shim_service.Events.{EventType}
use shim_service.Repos.Sessions.{Reply}
use shim_service.Repos.Database.{
  ItemKey, Request, item_key, holds_on, effect, patched, or_new, Rows, all_hold, applied, committed,
  Database, rows_of, IsLawful,
}
use shim_service.Repos.Store.{
  Datum, Surroundings, session_item, event_item, event_of, execute_with_event,
}
use shim_service.Repos.Store.Writes.{Ready, IsQuiet, NoEvents, write_lem, if_same}
use shim_service.Repos.Store.Deletes.{succeeded-verdict, succeeded_state}
use shim_service.Repos.Store.Owners.{committed_failed}
use shim_service.Repos.Store.Owners.Patches.{lookup-patched}
use shim_service.Repos.Store.Spec.Views.{committed_good, session_eq}
use shim_service.Repos.Store.Contexts.{
  context_put, sfdc_put, activation, poll_requests, create_requests, create_session_contexts,
}

-- The requests after those for the contexts.
abbrev others : Surroundings → Session → List ℕ → List Request
others env session compressed =
    sfdc_put env session compressed ∷ activation env session ∷ poll_requests env session

module _ (env : Surroundings) (ttl : ℕ) where
  applied_contexts :
      (rest : List Request) (rows : Rows) (tenant_id : ℕ) (session_id : String)
      (contexts : List SessionContext)
      → applied
          (map (context_put env ttl) contexts ++ rest)
          rows
          (session_item tenant_id session_id)
        ≡ applied rest rows (session_item tenant_id session_id)
  applied_contexts rest rows tenant_id session_id [] = refl
  applied_contexts rest rows tenant_id session_id (c ∷ contexts) =
      applied_contexts rest rows tenant_id session_id contexts

  bad_rest :
      (rest : List Request) (rows : Rows) (contexts : List SessionContext)
      → all_hold rows rest ≡ false
      → all_hold rows (map (context_put env ttl) contexts ++ rest) ≡ false
  bad_rest rest rows [] bad = bad
  bad_rest rest rows (c ∷ contexts) bad =
      rw (bad_rest rest rows contexts bad)
        (if_same (holds_on (context_put env ttl c) (rows (item_key (context_put env ttl c)))) false)

  module _ (db : Database) where
    NoEvents-poll_requests :
        (session : Session) → NoEvents db env session.tenant_id (poll_requests env session)
    NoEvents-poll_requests session = elim (Bool-cases (has_live_agent_polling session)) [
      | inl polls ↦ rw polls ((λ n. refl), tt)
      | inr silent ↦ rw silent tt
    ]

    NoEvents-contexts :
        (tenant_id : ℕ) (rest : List Request) (contexts : List SessionContext)
        → NoEvents db env tenant_id rest
        → NoEvents db env tenant_id (map (context_put env ttl) contexts ++ rest)
    NoEvents-contexts tenant_id rest [] far = far
    NoEvents-contexts tenant_id rest (c ∷ contexts) far =
        ((λ n. refl), NoEvents-contexts tenant_id rest contexts far)

    -- `create_session_contexts` where nothing is in its way: it answers whether all its conditions
    -- hold, and then, but for its event, has done what its requests say.
    pub create_session_contexts_lem :
        (session : Session) (compressed : List ℕ) (contexts : List SessionContext) (v : ℕ)
        (s : db.sequences.State)
        → IsLawful db
        → IsQuiet db env
        → Ready db session.tenant_id v s
        → let rs = create_requests env ttl session compressed contexts in
          let (reply, s') = create_session_contexts db env ttl session compressed contexts s in
          (reply ≡ Reply.ok (all_hold (rows_of db s) rs))
          × ((k : ItemKey)
              → ((n : ℕ) → (k == event_item session.tenant_id n) ≡ false)
              → rows_of db s' k ≡ committed (rows_of db s) rs k)
          × Ready db session.tenant_id (v + 1) s'
    unfolding create_session_contexts create_requests
    create_session_contexts_lem session compressed contexts v s L quiet ready =
        let rs = create_requests env ttl session compressed contexts in
        let info =
          event_of session
          ++ (("channelPlatformTypes", Datum.texts session.channel_platform_types) ∷ []) in
        let run =
          execute_with_event db env session.tenant_id rs EventType.session_activated info s in
        let (answer, rows, event, next_) =
          write_lem db env session.tenant_id rs EventType.session_activated info v s L quiet
            (NoEvents-contexts session.tenant_id (others env session compressed) contexts
              ((λ n. refl), ((λ n. refl), NoEvents-poll_requests session)))
            ready in
        (
          succeeded-verdict db env (rows_of db s) rs run answer,
          rw (succeeded_state db env run) rows,
          rw (succeeded_state db env run) next_,
        )

  -- The row of a session that was activated, and the test of another activation with what was read
  -- before.
  abbrev patch_of : Session → Record
  patch_of session =
      ("sessionStatus", Value.str (status_value SessionStatus.active))
      ∷ ("stateCounter", Value.int (session.state_counter + 1))
      ∷ ("updateTime", Value.int env.millis)
      ∷ []

  activated_row :
      (rows : Rows) (session : Session) (compressed : List ℕ) (contexts : List SessionContext)
      → all_hold rows (create_requests env ttl session compressed contexts) ≡ true
      → committed rows
          (create_requests env ttl session compressed contexts)
          (session_item session.tenant_id session.session_id)
        ≡ some (
            patched
              (patch_of session)
              (or_new (rows (session_item session.tenant_id session.session_id))))
  unfolding create_requests effect
  activated_row rows session compressed contexts holds =
      committed_good rows (create_requests env ttl session compressed contexts)
        (session_item session.tenant_id session.session_id) holds
      ∙ applied_contexts (others env session compressed) rows session.tenant_id session.session_id
          contexts
      ∙ rw
          (
            session_eq session.tenant_id session.session_id session.session_id,
            beq_refl session.session_id,
          )
          refl

counter_ne : (n : ℕ) → (n + 1 == n) ≡ false
counter_ne n = elim (Bool-cases (n + 1 == n)) [
  | inr other ↦ other
  | inl same ↦ absurd (omega (arith, (nat_eq.beq_iff (n + 1) n).0 same))
]

-- A stored counter that is one higher than the session's refuses the activation.
refused :
    (later : Surroundings) (session : Session) (old : Option Record) (row : Record)
    → old ≡ some row
    → lookup "stateCounter" row ≡ some (Value.int (session.state_counter + 1))
    → holds_on (activation later session) old ≡ false
unfolding holds_on
refused later session old row there counter =
    rw (there, counter, counter_ne session.state_counter) refl

stale :
    (later : Surroundings) (ttl : ℕ) (rows : Rows) (session : Session) (compressed : List ℕ)
    (contexts : List SessionContext) (row : Record)
    → rows (session_item session.tenant_id session.session_id) ≡ some row
    → lookup "stateCounter" row ≡ some (Value.int (session.state_counter + 1))
    → all_hold rows (create_requests later ttl session compressed contexts) ≡ false
unfolding create_requests
stale later ttl rows session compressed contexts row there counter =
    bad_rest later ttl (others later session compressed) rows contexts (
      rw
        (refused later session (rows (session_item session.tenant_id session.session_id)) row there
          counter)
        (if_same
          (holds_on (sfdc_put later session compressed)
            (rows (item_key (sfdc_put later session compressed))))
          false))

module _ (db : Database) (env later : Surroundings) (ttl : ℕ) where
  -- Where making a session's contexts succeeds, the session's row says that it is active, and another
  -- try for the session as it was read before answers false and changes no row, the events' apart.
  pub create_session_contexts_once :
      (session : Session) (compressed compressed' : List ℕ)
      (contexts contexts' : List SessionContext) (v : ℕ) (s : db.sequences.State)
      → IsLawful db
      → IsQuiet db env
      → IsQuiet db later
      → Ready db session.tenant_id v s
      → (create_session_contexts db env ttl session compressed contexts s).0 ≡ Reply.ok true
      → let s' = (create_session_contexts db env ttl session compressed contexts s).1 in
        let (reply, s'') = create_session_contexts db later ttl session compressed' contexts' s' in
        ((row : Record) × (rows_of db s' (session_item session.tenant_id session.session_id)
            ≡ some row)
          × (lookup "sessionStatus" row ≡ some (Value.str "A")))
        × (reply ≡ Reply.ok false)
        × ((k : ItemKey)
            → ((n : ℕ) → (k == event_item session.tenant_id n) ≡ false)
            → rows_of db s'' k ≡ rows_of db s' k)
  unfolding lookup
  create_session_contexts_once session compressed compressed' contexts contexts' v s L quiet quiet'
        ready ok =
      let s' = (create_session_contexts db env ttl session compressed contexts s).1 in
      let rs = create_requests later ttl session compressed' contexts' in
      let (reply, rows, next_) =
        create_session_contexts_lem env ttl db session compressed contexts v s L quiet ready in
      let (reply', rows', next') =
        create_session_contexts_lem later ttl db session compressed' contexts' (v + 1) s' L quiet'
          next_ in
      let holds : all_hold (rows_of db s) (create_requests env ttl session compressed contexts)
          ≡ true =
        cc (reply, ok) in
      let there =
        rows (session_item session.tenant_id session.session_id) (λ n. refl)
        ∙ activated_row env ttl (rows_of db s) session compressed contexts holds in
      let old = or_new (rows_of db s (session_item session.tenant_id session.session_id)) in
      let row = patched (patch_of env ttl session) old in
      let bad =
        stale later ttl (rows_of db s') session compressed' contexts' row there
          (lookup-patched "stateCounter" (patch_of env ttl session) old) in
      (
        (row, there, lookup-patched "sessionStatus" (patch_of env ttl session) old),
        reply' ∙ ap Reply.ok bad,
        λ k far. rows' k far ∙ committed_failed (rows_of db s') rs k bad,
      )
