-- ===== src/Lib.antt =====
-- libworkflow runs workflows: state machines whose actions are linked by bindings. A request
-- reaches the controller manager, which gives it to a client or to a controller; the controller
-- gives it to a workflow, which keeps a session for each request; and the state machine of the
-- workflow runs the actions of the session, one after the other, until a reply or an error has
-- been sent.
--
-- The files and the code they model:
-- - Core/Context, Core/Target, Core/Bindings, Core/Step, Core/Request, Core/Session: the files of
--   the same names under core/ (steps.h for Step). A `ContextPtr` is an option; the other records
--   have the fields of the classes, and a method that changes an object is a function to the
--   changed record.
-- - Core/Action: core/action.h and .cpp, core/put_definition.h, core/result.h,
--   core/action_wrappers.h and .cpp. Contract has the checks, Properties the lookup of a
--   property, Results the results and the requests of an action, Wrapper the virtual methods,
--   kept as a record of functions, and the four wrappers. Checks and Layers prove.
-- - Core/StateMachine: core/state_machine.h and .cpp. Layout has what addAction and init build;
--   Schedule the planned and the pending actions, getNext and bindResults; Execution
--   executeAction and actionExecuted; Entry execute and the calls it makes. Rounds and Order
--   prove what getNext does, Placement and Consistency what bindResults does, Traces and Endings
--   what a run does, Switch, Steps, ErrorFlow, ErrorEnds and ErrorRequest that the error flow
--   answers, Built, Sources, Specials and Feeds what machines are like, Arrivals and Levels what
--   requests do. Async has the completions of an action that finishes later, and what they leave.
--   Validation has validate, and Validated proves what it is good for. Scenarios, Tests and
--   ValidationTests run small workflows.
-- - Core/Workflow: core/workflow.h and .cpp, with proofs in Core/Workflow/Admission.
-- - Tools/ErrorReport and Tools/PropertySet: tools/error_report.cpp, tools/property.h and
--   tools/property_set.cpp, with proofs in Tools/Ancestry, Tools/PropertySet/Reads and
--   Tools/PropertySet/Abstract.
-- - Service: service/client.cpp (Client), service/controller_manager.cpp,
--   service/client_manager.cpp and Controller::perform of core/controller.cpp (Routing),
--   service/server.cpp (Startup), the other methods of core/controller.cpp (Temporary, where Life
--   proves).
-- - Storage: the methods save and load. Tree is the property tree of Boost, a parameter, and the
--   macros of tools/jsonable.h; Keys the numbers in its keys; Entries the loops over a map; Text
--   `str_save` and `str_load`; Target, Contexts, Properties, Reports, Machine and Workflow the
--   classes, each over core/ or tools/ (Reports has the requests too), with
--   tools/context_factory.cpp and tools/action_factory.cpp; Refs is
--   contexts/refs_storage_ctx.cpp. ContextsBack, PropertiesBack, RequestsBack, ListsBack,
--   ExposedBack, MachineBack, Replayed and Wrapped prove what is read back. Samples has a
--   property tree, on which Tests runs them.
-- - Actions: actions/communication/execute_workflow.cpp. ExecuteWorkflow has its requests and
--   replies, Preparation how it takes over the contract of a workflow; Requests proves.
-- - Prelude: numbers, keys, ordered maps, ordered sets of identifiers, and calls that may fault.
--
-- How state is kept: the session is passed from call to call; a `Run` is the session together
-- with the requests given to the controller manager so far and the requests whose end the
-- controller was told. `Outcome` says that a call comes back, that `at` throws, that a null
-- pointer is followed, or that the fuel is used up.
--
-- Bounds and fuel: executeAction and actionExecuted call each other, and a workflow may loop for
-- ever, so they run on fuel; an answer does not depend on how much is given, and the error flow
-- needs three calls. getNext runs on one round more than there are pending actions, which is
-- enough. The getters of an error report run on fuel, of which two calls are enough. load follows
-- a tree on fuel, one for each context in it, or for each report. `uint32_t` counters wrap
-- around.
--
-- What is assumed: a uuid is the number that its bytes write, 0 for nil; a double is its 64 bits;
-- the text of a log line is left out, but a pointer that it follows is not; an error text is kept
-- without the fingerprint of the session; the pointer from a report to its request is the uuid of
-- that request; weak pointers to workflow and controller are alive; of the pointer from an action to its state
-- machine it is kept whether it has been set; an action that is added has not been wrapped before; of the requests that sessions
-- share by pointer, only the report of the latest one is written afterwards, and only there is it
-- changed; checkInputs does not change the session; the empty rows that `operator[]` adds to a
-- map are left out, since no call tells them from absent ones; a random identifier, and a field
-- that no constructor sets, is an argument. The methods of an action that an application writes
-- are arguments of the model, and so is what a context class of the application saves. Of Boost's
-- property tree the laws in Storage/Tree are assumed: where put and add_child put a child, what a
-- lookup finds, and that a number, a Boolean or a uuid is read back from its text.
--
-- Not modelled: the text of JSON, threads and timers, sockets, logging, the heartbeat of the clients
-- and the pending queue of an actor, and the action FetchRefs.
pub mod Prelude
pub mod Core
pub mod Tools
pub mod Service
pub mod Storage
pub mod Actions
