-- ===== src/Lib.antt =====
-- jmaplib: the client-side core of a JMAP library for Python (the package src/jmap of the
-- repository).
--
-- A client reads a session and resolves what the server and the library both support. A caller
-- queues method calls, which are checked locally, and gets a handle for each. The calls are
-- planned into requests that respect the limits of the server; the response is parsed and routed
-- back to the handles. On top of that stand the chunking of a large get, the patches of a set,
-- the rules of when a failed request is sent again, and the synchronisation of cached data from
-- change streams and query deltas.
--
-- The files and the code they model:
--   Prelude: equality, lists, texts as lists of code points, dicts as association lists, results
--   of code that may raise.
--   Json: src/jmap/core/narrow.py and the values of the json module.
--   Pointer: src/jmap/core/pointer.py (split_pointer, resolve, build_pointer; the children
--   Escape, Split and Flatten hold proofs).
--   Ids: src/jmap/core/ids.py (parse_id, is_valid_id, CreationRef).
--   Patch: src/jmap/core/patch.py (validate_patch, the overlap sweep, PatchBuilder in
--   Patch.Builder).
--   Invocation: src/jmap/core/invocation.py (to_wire_value, MethodCall; handles and response
--   triples in Invocation.Handles). Request and Response use it.
--   Request: src/jmap/core/request.py (validate_references, plan_requests).
--   Response: src/jmap/core/response.py (Response.from_wire is read_response; dispatch,
--   _partition).
--   Limits: src/jmap/core/limits.py (Limits.from_capability, chunked, the checks, the default
--   policy).
--   Retry: src/jmap/core/retry.py (classify, should_retry, RetryPolicy.backoff and pause).
--   Chunking: src/jmap/chunking.py (chunk_get_call, merge_get_results, ChunkedHandle), over
--   Limits and Invocation.Handles.
--   Session: src/jmap/core/session.py (Session.from_wire is read_session; the lookups in
--   Session.Lookup).
--   Capabilities: src/jmap/capabilities/spec.py and registry.py (Registry.register and resolve;
--   ActiveCapabilities in Capabilities.Active, over Session).
--   Batch: src/jmap/batch.py (the checks of Batch.add in Batch.Gates, add in Batch.Queue, the
--   filter walk in Batch.Filter; plan, requests and absorb in Batch.Sending, over Capabilities,
--   Chunking, Request and Response). Batch.Made has the relation of the batches that these
--   operations make.
--   Client: src/jmap/client.py and _shell.py (_post is post, with one round of its loop as round;
--   execute in Client.Execute), over Batch and Retry.
--   StrictJson: src/jmap/core/ijson.py (_validate, _scan, _check_tree), on decoded documents.
--   EventStream: src/jmap/push/sse.py (SSEParser.feed, _consume, _field, _dispatch).
--   Push: src/jmap/push/websocket.py (WebSocketProtocol in Push.Protocol) and websocket_client.py
--   (_send, _receive and _exchange in Push.Socket), over Invocation and Response;
--   PendingVerification of subscription.py in Push.Subscription.
--   Sync.Query: src/jmap/sync/query.py (splice, QueryView).
--   Sync.Changes: src/jmap/sync/changes.py and the store of src/jmap/sync/state.py
--   (ChangeStream.pages, catch_up, ChangeSet.absorb).
--   UriTemplate: src/jmap/core/uritemplate.py (_varname, _parse, variables, expand).
--   Auth: src/jmap/auth/credentials.py (OAuth2Auth as moves of threads in Auth.Refresh) and the
--   challenges of src/jmap/auth/challenge.py (find_challenge).
--
-- State is passed and returned: a builder, a view, a store or a handle is a record, and a method
-- is a function to the record it leaves. An exception is a constructor of the error type of the
-- module; code that an exception ends returns what it leaves where the caller can see that. A set
-- is a list of what was added to it.
--
-- Bounds and fuel: the loop of plan_requests runs on the number of calls, since each round takes
-- a call. The slices of a chunking run on the number of items. The loop of catch_up runs on fuel
-- that the caller chooses, since a server may lead to new states for ever; the walk ends where
-- the states are finitely many. The digits of a number run on the number itself. The scan of a
-- document runs on the number of its values. The walk of a filter runs on the number of its
-- objects, and the loop of _post on the number of attempts that the policy allows. The loop of
-- next_request_id runs on the number of outstanding ids and one more, and the parser of a
-- template on the length of the template.
--
-- Parameters: Python's str of a decoded value, the hashes and equality of argument values, the
-- floats of the delays and where they overflow, whether a request can be encoded, the splitting
-- and joining of URLs, the strict decoder of src/jmap/core/ijson.py, the parser of each call, the
-- transport and the server, the percent-encoding of a value, the parser of a frame and the model
-- of a state change are arguments of the functions that use them.
--
-- Not modelled: the sockets below the HTTP client and its asynchronous twin, uploads and
-- downloads, the flows that acquire a token, the parser of challenges, the building and renewal
-- of push subscriptions, the notifications of a web socket, the declarations of the single
-- capabilities and models, the decoder that turns bytes of an event stream into text, and the
-- messages of exceptions.
pub mod Prelude
pub mod Json
pub mod Pointer
pub mod Ids
pub mod Patch
pub mod Invocation
pub mod Request
pub mod Response
pub mod Limits
pub mod Retry
pub mod Chunking
pub mod Session
pub mod Capabilities
pub mod Batch
pub mod Client
pub mod StrictJson
pub mod EventStream
pub mod Push
pub mod Sync
pub mod UriTemplate
pub mod Auth
