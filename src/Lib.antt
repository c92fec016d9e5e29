-- ===== src/Lib.antt =====
-- The verification library of the CyberSecurity-Platform, a Python service that plans security
-- tasks as graphs, runs them through tools and workers, and guards them by access control, quotas,
-- circuit breakers, retries, fallbacks and escalations.
--
-- Each part of the program that is modelled has a module of the same place in the tree:
-- - Models.Dag: src/models/dag.py, the graph of tasks. `Dag` is the class DAG; add_node, add_edge,
--   would_create_cycle and get_execution_order are its methods, `dfs` and `get_level` their inner
--   functions. Edges has chains of edges, Search the cycle check, Levels the levels as chain lengths,
--   Table the table that get_level keeps, Order and Execution the groups of tasks, Building the
--   two operations and Invariant the graphs they build.
-- - Agents.DagValidator: src/agents/verifier/dag_validator.py, the search for a cycle in such a graph,
--   with what it finds in Search, what it clears in Clear, and that it ends in Ends.
-- - Security.Rbac: src/security/rbac.py. Names has the enumerations, Assignments the assignment of
--   roles, Permissions what they give.
-- - Security.Abac: src/security/abac.py, on Python's values in Prelude.Values. Deciding has which
--   policy decides, Isolation what the default policies allow.
-- - Api.RateLimit: src/api/middleware/rate_limit.py, with the log in memory in Window.
-- - Gateway.ApiKeys: src/gateway/developer_portal/api_key_manager.py. Calls has sequences of calls,
--   Validity the validity of keys that are revoked or rotated.
-- - Orchestrator.State: src/orchestrator/state_manager.py, over the interface Store of Redis. Versions has
--   what a write with a version does, Snapshots what a restoration brings back.
-- - Orchestrator.Bus: src/orchestrator/communication_bus.py. History has what the bounded histories keep,
--   Cleanup what the clean-up of an execution removes.
-- - Recovery.CircuitBreaker: src/recovery/circuit_breaker.py. Fields has one circuit, Runs sequences
--   of calls, Effect the step that a call makes of one circuit, Invariant, Transitions and Admission
--   what follows.
-- - Recovery.Retry: src/recovery/retry_manager.py, the loop of execute_with_retry on top of the
--   circuit breaker, the fallbacks and the escalations, and its statistics.
-- - Recovery.Escalation: src/recovery/escalation_manager.py. Notices is the escalation of an issue,
--   Lifetime its acknowledgement and resolution.
-- - Recovery.Fallback: src/recovery/fallback_manager.py, registration and choice of handlers.
-- - Scheduler.Budget: src/scheduler/budget_tracker.py. Thresholds and Alerts have the alerts of one cost,
--   Charge what it changes, Costs sequences of costs.
-- - Scheduler.Quota: src/scheduler/quota_manager.py. Tracking has the counters of use, Usages,
--   Enforcement and Executions what holds of them.
-- - Scheduler.Lifecycle: src/scheduler/lifecycle_manager.py. Listeners has the calls of listeners, Outcomes
--   what ends of executions and listings give.
-- - Tools.RateLimiter: src/tools/rate_limiter.py. Bucket has what a token bucket admits, Limits the limits of
--   keys and the order of the checks.
-- - Tools.ToolCache: src/tools/tool_cache.py, over the interfaces Redis and Json. Keys has its keys in Redis,
--   Fresh how long a value is found, Invalidation what is found after one.
-- - Workers.Pool: src/workers/worker_pool.py. Pool itself has workers and executions, Upkeep health checks,
--   recovery and scaling; State has the state, Choice which worker is taken, Size how large pools get while
--   workers are being made, Keyed under which names workers stand, Health what a failed execution does.
-- - Workflow.Approval: src/workflow/approval_workflow.py. Runs has sequences of calls, Sound what a request
--   keeps to, Settled approvals and requests that are settled.
-- - Workflow.Engine: src/workflow/workflow_engine.py. Engine itself is one run of an instance, Lifetime the
--   methods around the runs, Conditions the conditions of steps, Runs how runs end.
-- Prelude has what they share: Python's dicts as ordered association lists (Dict), sets (Sets), keys
-- joined by a colon (Keys), dates (Calendar), tests on numbers (Tests), lists (Lists), texts (Texts),
-- products (Numbers) and values of unknown type (Values). Each part has a module Samples with concrete
-- inputs.
--
-- How the code is rendered:
-- - A method is a function from the object's record to its result and the next record. A dict that
--   the code shares and mutates is either written back where it is mutated (circuits) or kept in a
--   list of objects to which others hold positions (escalations).
-- - An exception is a value: of a sum type, or of a type of verdicts or errors.
-- - The clock is read by the caller and passed in as a number: microseconds since 1970, naive UTC. A
--   method that reads the clock more than once reads it once here. Durations and money are natural
--   numbers of one unit; where the code uses floats, rounding is not modelled.
-- - Coroutines run alone between two awaits that wait; the locks and sleeps of the code have no
--   counterpart, and a sequence of calls is a list of steps. Where the order across an await matters, the
--   parts before and after it are steps of their own: a worker pool that waits for Docker.
-- - Logging, metrics and texts for people are left out, except where a text is stored or where the
--   call of a logger raises.
-- - What the code calls and does not define is an argument: the function that is retried, the
--   handlers of fallbacks, random draws.
--
-- Fuel: the search of the cycle check has two more than the number of edges, that of the validator one
-- more than the nodes and edges, and both are shown to end;
-- get_execution_order takes the depth of Python's recursion as its fuel, and a RecursionError is its
-- result `raised deep`; the inheritance of roles has fuel 3, and more changes nothing; the loop of
-- retries counts its attempts.
--
-- Not modelled: the critical path of a graph, the cache of fallback results, requests
-- over the message bus, the strategies of rate limiting that Redis carries out, the splitting of limit
-- strings, a workflow that is resumed while it runs, and the recovery of workers between other steps. Of the packages agents, api,
-- gateway, orchestrator, scheduler, tools, workers and workflow only the files above are modelled. The packages
-- tenant, governance, autonomous, monitoring, integrations, reporting and those that learn or store data are not
-- modelled: much of them is HTTP, database and container work, and the rest is independent of the parts above.
pub mod Prelude
pub mod Agents
pub mod Api
pub mod Gateway
pub mod Models
pub mod Orchestrator
pub mod Recovery
pub mod Scheduler
pub mod Security
pub mod Tools
pub mod Workers
pub mod Workflow
