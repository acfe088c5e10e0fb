-- ===== src/Lib.antt =====
-- A verification library for call_center, the service that distributes calls, chats and tasks of
-- queues to agents.
--
-- The parts of the program, and how they interact. A queue takes an attempt, which is a try to reach a
-- member or to serve a caller, finds an agent and a resource for it, and drives its channels. A call is
-- a channel in FreeSWITCH: the manager of the calls keeps the calls in a cache, passes the events of
-- the broker to them, and they send commands back. A task channel stands for a task without a call. A
-- team holds the rules for its agents: it writes the ends of an attempt to the store, asks the flow
-- manager for the result, and tells the agent's client by events of the broker.
--
-- The files, by the sources that they model (paths from the root of the repository):
--
-- - Prelude, with Prelude/*: Go's numbers, texts and maps. An int64 is an integer with the wrap-around
--   written out where the code computes with it; a map is an association list whose order nothing
--   reads; decimal texts are printed by fuel, one more than the number, which is enough since each
--   round divides by ten.
-- - Lru, with Lru/*: utils/lru.go and model/lru.go, `NewLru`, `Add`, `Get`, `Remove`, `RemoveFunc`,
--   `Purge`, `Keys`. The list and the map share their elements by pointers, as in the code.
-- - Model, with Model/*: `AppError` and `UnionStringMaps` of model/utils.go, the tones of
--   model/queue.go, the requests and the events of model/call.go, model/resource.go, model/agent.go,
--   model/member.go.
-- - CallManager/State and CallManager/Call, with CallManager/Call/*: call_manager/call.go and
--   call_manager/call_events.go: `NewCall`, `Invite`, `Hangup`, the `set...` methods of the events, the
--   ring timer, the playback commands, the durations and `Stats`. A method is an action on the call and
--   a list of what was sent; a panic and a send on a full channel are faults.
-- - CallManager/Manager, with its children: call_manager/call_manager.go. The cache holds addresses of
--   calls in a heap, so a call that the cache has dropped can still be used by a queue. Connect is
--   `InboundCallQueue` and `ConnectCall`, Register is `registerConnection`, `wakeUp` and `Ready`.
-- - AgentManager/Agent: agent_manager/agent.go. AgentManager/Manager: agent_manager/agent_manager.go;
--   the agents are shared objects at addresses, and Refines holds the table that the changes of
--   their statuses are compared with.
-- - Queue/Base: queue/queue.go, `NewBaseQueue` and the methods of `BaseQueue`, and `NewHookHub` of
--   queue/hook.go, on the settings of Model/Queue. Queue/JoinAgent: the settings that
--   queue/queue_manager.go makes up for the calls and the tasks of one agent.
-- - Queue/Manager, with its children: queue/queue_manager.go. The table of the attempts is a cache of
--   addresses, the wait group a counter; none is a panic of the process. Distribute is `GetQueue` and
--   `DistributeAttempt`, Ending the ways to abandon, cancel and time out, Reporting and Report are
--   `ReportingAttempt`. What the kind of a queue does with a new attempt is an argument.
-- - App/Agent: app/agent.go, on the managers of the agents and of the attempts.
-- - Queue/Resource: queue/resource.go, and `SetResourceError` and `SetResourceSuccessful` of
--   queue/queue_manager.go. The resource leaves the cache of Lru. Its child Manager is
--   queue/resource_manager.go.
-- - Queue/Task: queue/task_channel.go, and the receives of the loop in queue/task_agent.go.
-- - Queue/State: the fields of an attempt and of a queue, and what is sent to the services.
-- - Queue/Attempt, with Variables and Schema: queue/attempt.go, queue/hook.go, and
--   `AfterDistributeSchema` of queue/schema.go.
-- - Queue/Team, with Handlers: queue/team.go, and `Offering` and `Cancel` of queue/queue.go.
--
-- What is a parameter. The clock is an argument of each call. What FreeSWITCH, the store, the flow
-- manager and the rate limiter answer is an argument too, with a result for their errors; the broker
-- is the list of what was sent to it. A mutex makes a method atomic, so orders of concurrent methods
-- are sequences of calls, and the theorems on runs hold for every such sequence.
--
-- What is not modelled. The loops of the queues, and of the manager of the attempts the renewal of a
-- report, the tasks of agents, the transfers of messages and the joins of calls and chats from the
-- flow, are not modelled, nor are chats and the API; the store is SQL, gen/ is generated, mq/ and
-- external_commands/ are clients of other services. Loggers, contexts and JSON are left out, and so
-- are the goroutines that start and stop the managers.
pub mod AgentManager
pub mod App
pub mod CallManager
pub mod Lru
pub mod Model
pub mod Prelude
pub mod Queue
