-- ===== src/Tests/Refreshes.antt =====
-- Locks that are refreshed, batches of rows, and sessions that are loaded.
use shim_service.Base.{ℕ, ◌≡◌, refl, String, true, false, none, some, List, [], ◌∷◌, nat_eq, arith}
use shim_service.Base.Texts.{Text}
use shim_service.Repos.Refresh.{Called, AutoRefreshLock, Act, acts, check, acts-check}
use shim_service.Session.{Session, SessionStatus}
use shim_service.Session.Tokens.{SessionToken, deserialize, of_parts}
use shim_service.Session.Access.{load_session, load_session_lem}
use shim_service.Repos.Sessions.{Reply, SessionsRepo, conflict_of}
use shim_service.Base.Texts.{split, read, read_from}

abbrev good_lock : AutoRefreshLock
good_lock = record { failed = false; released = none; refreshes = 2 }

-- A refresh that the source refuses.
abbrev refused : Act
refused = Act.turns false (Called.returned false)

abbrev more : List Act
more = Act.turns false (Called.returned true) ∷ Act.releases true ∷ []

acts-check_example :
    (check (acts (refused ∷ more) good_lock) ≡ false)
    × ((acts (refused ∷ more) good_lock).refreshes ≡ (acts (refused ∷ []) good_lock).refreshes)
acts-check_example = acts-check refused more good_lock (refl, λ e. ground arith)

abbrev failed_session : Session
failed_session = record {
  org_id = "o";
  tenant_id = 1;
  session_id = "s";
  time_created = 5;
  user_id = "u";
  instance_url = "i";
  access_token = none;
  fcm_device_token = none;
  expiration_seconds = 60;
  channel_platform_types = [];
  state_counter = 4;
  update_time = 6;
  status = SessionStatus.failed;
  failure_message = none;
  expiration_time = none;
}

abbrev store : SessionsRepo
store = record {
  State = ℕ;
  create_session = λ x s. ((70, Reply.ok none), s);
  find_session = λ k s. (Reply.ok (some failed_session), s);
  touch_with_event = λ k u e s. (Reply.ok (some 80), s);
  update_session = λ x s. (Reply.ok true, s);
  fix_orphaned_user_session = λ x s. (Reply.ok tt, s);
  delete_session = λ x s. (Reply.ok true, s);
}

-- The token `e40~1~s~u`.
abbrev text : Text
text = 101 ∷ 52 ∷ 48 ∷ 126 ∷ 49 ∷ 126 ∷ 115 ∷ 126 ∷ 117 ∷ []

abbrev token : SessionToken
token = record { tenant_id = 1; session_id = 115 ∷ []; user_id = 117 ∷ [] }

abbrev string_of : Text → String
string_of [] = ""
string_of (c ∷ cs) = "u"

load_session_lem_example :
    (load_session store string_of (λ t. some t) (λ n. true) (some text) none false true 0
      ≡ (Reply.raised (conflict_of failed_session SessionStatus.failed), 0))
    × (load_session store string_of (λ t. some t) (λ n. true) none (some text) false true 0
        ≡ (Reply.raised (conflict_of failed_session SessionStatus.failed), 0))
unfolding deserialize of_parts split read read_from
load_session_lem_example =
    load_session_lem store string_of (λ t. some t) (λ n. true) text none false true token
      failed_session 0 0 refl refl refl refl
