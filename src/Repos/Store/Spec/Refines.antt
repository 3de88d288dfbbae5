-- ===== src/Repos/Store/Spec/Refines.antt =====
-- The store of aws_sessions.py against the contract.
use shim_service.Base.{ℕ, ◌≡◌, String, List, [], ◌∷◌, nat_eq, string_eq, pair_eq}
use shim_service.Session.{SessionKey}
use shim_service.Repos.Database.{Database, rows_of}
use shim_service.Repos.Store.{
  event_item, found, find_session, create_session, update_session, touch_with_event, delete_session,
  fix_orphaned_user_session,
}
use shim_service.Repos.Store
use shim_service.Repos.Store.Writes.{Ready, IsQuiet}
use shim_service.Repos.Store.Spec
use shim_service.Repos.Store.Spec.{Tenant, Answer, Call, of_tenant, promised, all_there}
use shim_service.Repos.Store.Spec.Views.{view}

module _ (db : Database) (tenant_id : ℕ) where
  abbrev pub key_for : String → SessionKey
  key_for session_id = record { tenant_id = tenant_id; session_id = session_id }

  -- A call of the store, with its answer.
  unfoldable pub call : Call → db.sequences.State → Answer × db.sequences.State
  call (Call.creates env session) s =
      let (reply, s') = create_session db env (of_tenant tenant_id session) s in
      (Answer.created reply, s')
  call (Call.updates env session) s =
      let (reply, s') = update_session db env (of_tenant tenant_id session) s in
      (Answer.answered reply, s')
  call (Call.deletes env session) s =
      let (reply, s') = delete_session db env (of_tenant tenant_id session) s in
      (Answer.answered reply, s')
  call (Call.fixes env session) s =
      let (reply, s') = fix_orphaned_user_session db env (of_tenant tenant_id session) s in
      (Answer.fixed reply, s')
  call (Call.touches env session_id user_id seconds) s =
      let (reply, s') = touch_with_event db env (key_for session_id) user_id seconds s in
      (Answer.touched reply, s')
  call (Call.finds env session_id) s =
      let (reply, s') = find_session db env (key_for session_id) s in (Answer.found reply, s')

  unfoldable pub call_all : List Call → db.sequences.State → List Answer × db.sequences.State
  call_all [] s = ([], s)
  call_all (c ∷ cs) s =
      let (answer, s') = call c s in let (answers, s'') = call_all cs s' in (answer ∷ answers, s'')

  -- No listener adds a request to the calls' events.
  abbrev pub IsQuietCall : Call → Type 0
  IsQuietCall (Call.creates env session) = IsQuiet db env
  IsQuietCall (Call.updates env session) = IsQuiet db env
  IsQuietCall (Call.deletes env session) = IsQuiet db env
  IsQuietCall (Call.fixes env session) = Unit
  IsQuietCall (Call.touches env session_id user_id seconds) = IsQuiet db env
  IsQuietCall (Call.finds env session_id) = Unit

  -- What a step keeps: its answer, the maps and the readiness for the next write.
  abbrev Kept : Call → db.sequences.State → Type 0
  Kept c s =
      let (answer, s') = call c s in
      let (promise, t) = promised tenant_id c (view tenant_id (rows_of db s)) in
      (answer ≡ promise)
      × (view tenant_id (rows_of db s') ≡ t)
      × ((v : ℕ) × Ready db tenant_id v s')
