-- ===== src/Lib.antt =====
-- The shim service keeps the sessions of Salesforce users for mobile clients: it stores sessions,
-- locks and sequences in DynamoDB tables, polls Salesforce for the sessions' messages, and answers
-- a web service. This library models the core logic of its Python code, below
-- python/shim-service/src, and proves what makes it correct.
--
-- Base, with Base.Tests, Base.Lists, Base.Equality, Base.Dict and Base.Texts: shared names, Boolean
-- tests, lists, equality as an instance, dicts, and texts as code points with `split`, `join` and
-- decimal numbers.
-- Aws.Values: the conversion of Python values to and from DynamoDB attributes, and Aws.Results: the
-- pages of a query and the ResultSet over them, both of aws/dynamodb.py.
-- Utils.Dates: utils/date_utils.py. Utils.Cache: utils/concurrent_cache.py and utils/cache.py.
-- Utils.Collections: partition and BufferedList of utils/collection_utils.py.
-- Utils.Throttler: utils/throttler.py and utils/signal_event.py.
-- Records: what objects are written to; utils/dict_utils.py and platform_channels.py.
-- Repos.Table: create, find, patch_with_condition and delete_with_condition of
-- repos/aws/abstract_repo.py over a table service; Repos.Batch: its batch_get and transact_write.
-- Repos.Database: items of several tables and transactions of the request classes of
-- aws/dynamodb.py, on top of that service; Repos.Store: repos/aws/aws_sessions.py, with
-- execute_with_event of repos/aws/aws_sequence.py and the keys of repos/aws/aws_user_sessions.py and
-- repos/aws/aws_sfdc_sessions_repo.py, which fills the abstract store of Repos.Sessions.
-- Repos.Store.Spec is what that store promises, as three maps.
-- Repos.Store.Contexts: repos/aws/aws_session_contexts.py and update_action_time of
-- repos/aws/aws_pending_events_repo.py.
-- Repos.Lock: repos/aws/aws_resource_lock.py; Repos.Lock.World lets any number of processes take,
-- refresh and release locks, one access to the table at a time. Repos.Refresh: the helpers of
-- repos/resource_lock.py. Repos.Sequence: repos/aws/aws_sequence.py. Repos.Sessions: the abstract
-- store of repos/sessions_repo.py, which the session manager is a client of.
-- Session, Session.Contexts, Session.Users, Session.Tokens: session/__init__.py and session/token.py.
-- Session.Manager and Session.Access: session/manager.py, the logins and what is done by token.
-- Poll.Group: poll/polling_group.py, with Poll.Group.Collect for the collection of events.
-- Keys: aws/dynamodb_keys.py. LiveAgent: services/sfdc/live_agent. Events: events.
-- PendingEvents: pending_event/__init__.py.
-- Web: utils/path_utils.py and lambda_web_framework/router.py.
-- Tests: runs at concrete inputs.
--
-- Names are the source's. State is passed on explicitly: a table's state, the entries of a cache,
-- the counts of a polling group. What other processes or threads do between two accesses is an
-- argument. An exception is a value: none, a constructor of an outcome, or a raised reply. DynamoDB
-- is a record of operations with its documented laws, which a table in memory meets; the clock, the
-- cryptography of tokens, the compression of data and the decoding of URLs are arguments. Times are
-- natural numbers; acknowledgements, which start at -1, are kept one higher.
--
-- Loops on fuel: accesses makes at most four accesses, one more than the longest attempt has; the
-- retries of the decorators and of the RetryCounter are their own fuel; is_full has the turns that
-- its timer leaves; take_matches, slices and add_slices have the length of their list, which each
-- turn shortens; str of a number has the number; rows_of reads a result set with more turns than
-- there are rows.
--
-- Not modelled: calls to Salesforce, gRPC streams, threads' scheduling beyond the order of steps,
-- bean injection, logging, tools and generated code, which hold no logic of their own; push
-- notifications, the scheduler and the pollers' processors.
pub mod Aws
pub mod Base
pub mod Utils
pub mod Records
pub mod Session
pub mod Poll
pub mod Keys
pub mod LiveAgent
pub mod Events
pub mod PendingEvents
pub mod Web
mod Tests
pub mod Repos
