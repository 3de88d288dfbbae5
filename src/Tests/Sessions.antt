-- ===== src/Tests/Sessions.antt =====
-- A store of sessions whose one user already has a session.
use shim_service.Base.{ℕ, suc, ◌+◌, ◌≡◌, ◌≤◌, refl, true, false, none, some, [], ◌∷◌}
use shim_service.Session.{Session, SessionStatus, can_replace_session, should_replace_session}
use shim_service.Repos.Sessions.{Reply, SessionsRepo, get_session, get_session_lem}
use shim_service.Session.Manager.{create_session_with}
use shim_service.Session.Manager.Logins.{Answers, create_session_with-SameLogin}
use shim_service.Session.Manager.Attempts.{Counts, create_session_with_bound}

abbrev current : Session
current = record {
  org_id = "o";
  tenant_id = 1;
  session_id = "old";
  time_created = 5;
  user_id = "u";
  instance_url = "i";
  access_token = some "t";
  fcm_device_token = some "d";
  expiration_seconds = 60;
  channel_platform_types = "omni" ∷ [];
  state_counter = 4;
  update_time = 6;
  status = SessionStatus.active;
  failure_message = none;
  expiration_time = some 65;
}

-- The store counts the calls of `create_session`.
abbrev store : SessionsRepo
store = record {
  State = ℕ;
  create_session = λ x s. ((70, Reply.ok (some "old")), suc s);
  find_session = λ k s. (Reply.ok (some current), s);
  touch_with_event = λ k u e s. (Reply.ok (some 80), s);
  update_session = λ x s. (Reply.ok true, s);
  fix_orphaned_user_session = λ x s. (Reply.ok tt, s);
  delete_session = λ x s. (Reply.ok true, s);
}

store-Counts : Counts store (λ s. s)
store-Counts = record {
  creates = λ x s. refl;
  finds = λ k s. refl;
  touches = λ k u e s. refl;
  updates = λ x s. refl;
  fixes = λ x s. refl;
}

-- The same user with a new access token.
abbrev login : Session
login = record current { session_id = "new"; access_token = some "t2"; state_counter = 1 }

create_session_with-SameLogin_example : Answers store login (create_session_with store 3 login 0)
create_session_with-SameLogin_example = create_session_with-SameLogin store 3 login 0

create_session_with_bound_example : (create_session_with store 3 login 0).1 ≤ 0 + (3 + 1)
create_session_with_bound_example = create_session_with_bound store (λ s. s) store-Counts 3 login 0

get_session_lem_example :
    get_session store (record { tenant_id = 1; session_id = "old" }) true false false 0
    ≡ (Reply.ok current, 0)
get_session_lem_example =
    get_session_lem store (record { tenant_id = 1; session_id = "old" }) true false false 0 0
      current refl

-- The session that is there is replaced under its own id.
replaced : create_session_with store 3 login 0 ≡ (
  Reply.ok
      (record login { session_id = "old"; state_counter = 4; expiration_time = some 70 }, false),
  1,
)
unfolding create_session_with can_replace_session should_replace_session
replaced = refl
