-- ===== src/Lib.antt =====
-- A model of testring, a runner of tests for web applications: a test run controller hands the
-- tests of a queue to workers, which are processes that talk to their parent over a transport,
-- and a store coordinates the files that they read and write.
--
-- Parts and files:
--
-- - Queue models core/utils/src/queue.ts (`Queue`), the list that the other parts queue their
--   requests and tests in. An operation of the class is a function of the same name from the
--   queue to its result and the new queue.
-- - MultiLock models core/utils/src/multi-lock.ts (`MultiLock`): counts of locks by id, with a
--   limit over all of them. A limit of 0 is no limit, as in the source.
-- - LockPool models core/fs-store/src/utils/LockPool.ts (`LockPool`): a MultiLock with a Queue
--   of the requests that wait for room. A call whose promise stays open is known by its
--   request, and an answer to it is an event of the call that settles it.
-- - FilePermission models core/fs-store/src/utils/FilePermissionResolver.ts
--   (`FilePermissionResolver`): who may lock, write and delete one file. It uses MultiLock and
--   Queue. The callbacks and the hooks that an operation calls are its events, in order; the
--   clean-up callback of a lock is `unlock`, that of an access `release_access`, that of an
--   unlink `release_unlink`.
-- - Serialize models core/transport/src/serialize: what is sent between processes. Objects lie
--   in a store, so that sharing and cycles are as in the program.
-- - Transport models core/transport/src: Direct is direct-transport.ts (`DirectTransport`), the
--   end of a parent, Broadcast is broadcast-transport.ts (`BroadcastTransport`), the end of a
--   child, and Emitter the listeners of transport.ts (`Transport`). Payloads are those of
--   Serialize. A promise is known by the number of its call.
-- - Logger models core/logger/src/logger-server.ts (`LoggerServer`): `log` takes an entry, and
--   `finish` is the rest of `runQueue` once the hooks of plugins have done their work. Its
--   queue is a Queue.
-- - Breakpoints models core/async-breakpoints/src/async-breakpoints.ts (`AsyncBreakpoints`).
-- - Hook models core/pluggable-module/src (`Hook` and `PluggableModule`), from which the
--   controller, the logger and the store take their hooks.
-- - Dependencies models core/dependencies-builder/src/index.ts (`buildDependencyDictionary`):
--   the cache of nodes is a map from paths to nodes, whose links are paths. The parser of
--   sources, the resolution of paths and the reader are a record of functions.
-- - LoggerClient models core/logger/src/abstract-logger-client.ts (`AbstractLoggerClient`),
--   with its steps on a Stack, which models core/utils/src/stack.ts.
-- - Throttle models core/utils/src/throttle.ts (`throttle`) with its timer.
-- - RunController models core/test-run-controller/src/test-run-controller.ts
--   (`TestRunController`): `execute_item` is one attempt at a test (`executeWorker` with
--   `onTestFailed`), run_local_worker the loop of the local worker, and `Step` a step of one of
--   the child workers of `runChildWorkers`, which interleave at will. The queue is a Queue.
-- - ElementPath models packages/element-path/src/element-path.ts (`ElementPath`) and isInteger
--   of utils.ts beside it: Mask and Query are the parse of a key (`parseMask`, `parseText`,
--   `parseSubQuery`, `parseQueryKey`), Print `queryToString`, Xpath `getSearchQueryXpath` and
--   what it calls, Chain the constructor, `getElementPathChain`, `toString`, `getReversedChain`
--   and the flows, Children the methods that generate a child. Texts are lists of code units;
--   an option that an object does not have is `none`; an element is a top node or stands below
--   its parent.
-- - StoreServer models core/fs-store/src/fs-store-server.ts (`FSStoreServer`) over
--   FilePermission and LockPool: Tasks has the handlers of its messages and `resume`, what a
--   call does between one `await` and the next; World lets messages come and tasks go on in any
--   order. A clean-up callback is the call of the resolver that it makes, and `temp_path` joins
--   a name to the temporary directory.
-- - TestWorker models core/test-worker/src/test-worker-instance.ts (`TestWorkerInstance`): an
--   operation is what a method does up to its next `await`, World lets calls, processes and
--   answers come in any order, Sequence those in which executions come one by one, and Compile
--   is `compileSource` with its cache. Executions and processes are numbered.
-- - StoreClient models core/fs-store/src/fs-store-client.ts (`FSStoreClient`), the other end of
--   StoreServer: `ask` is `getLock` and `getAccess`, with the action as an argument, and
--   `fresh_id` takes the ids that the generator gives as a list.
-- - WorkerController models core/test-worker/src/worker/worker-controller.ts
--   (`WorkerController`), the process at the other end of TestWorker, on top of Breakpoints:
--   `execute_test` is `executeTest` up to the test, `test_settled` and `flushed` are what
--   follows it and the callbacks after a run, World lets messages and ends come in any order,
--   and RunTest is what `runTest` waits for.
-- - Sandbox models core/sandbox/src/sandbox.ts (`Sandbox`): what a source does is a tree of its
--   requires, exports and throws, which goes on with what a require gives, and which may also
--   never end. Its fuel is the depth of requires, and one more than the number of the files is
--   enough; Built runs it on the dictionary that Dependencies builds.
-- - TestApi models core/api/src: test-api-controller.ts (`TestAPIController`) and run.ts
--   (`run`), whose events RunTest takes. A flush is told whether the breakpoints that it waits
--   at are broken.
-- - Common has Boolean tests on numbers, lists measured by native numbers, and association
--   lists for the maps of the source.
--
-- State is passed explicitly: an operation takes the state and returns what it answers, the
-- events that it causes and the new state. Numbers are natural numbers, strings are texts. What
-- code outside answers (hooks of plugins, the run of a test in a worker) is an argument.
--
-- Fuel: `serialize` has one more than the number of objects in the store, which is enough,
-- since an object is entered once at most. run_local_worker is given what happens in each
-- round, and a list as long as the attempts that the tests of the queue have left is enough
-- when a test timeout is set and the hooks settle. build_dependency_dictionary takes its fuel
-- as an argument; more than the number of the files that can be required is enough, since each
-- file is read once. All other definitions recurse on their data.
--
-- Not modelled: the files of the store, configuration, and all that only calls the operating
-- system, a browser or a library. The kill of a run, delays, and a kill at the end of a
-- worker's loop that fails are left out of RunController. In Serialize a buffer stands for the
-- text that toString gives of it and the text of a function is not parsed, so nothing is
-- claimed of either.
pub mod Common
pub mod Queue
pub mod MultiLock
pub mod LockPool
pub mod FilePermission
pub mod Serialize
pub mod Transport
pub mod Logger
pub mod Breakpoints
pub mod Hook
pub mod Dependencies
pub mod Stack
pub mod LoggerClient
pub mod Throttle
pub mod RunController
pub mod ElementPath
pub mod StoreServer
pub mod TestWorker
pub mod StoreClient
pub mod WorkerController
pub mod Sandbox
pub mod TestApi
