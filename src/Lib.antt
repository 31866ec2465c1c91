-- ===== src/Lib.antt =====
-- The budgets, quotas and prices of the UCLI server.
--
-- The gateway charges each request to a usage group or to a project. Before a request is sent upstream
-- it reserves an estimate in the ledger of the group or of the project
-- (packages/quota/src/group-budget.service.ts and project-budget.service.ts, on PostgreSQL) and in
-- the counters of its quota policies (packages/quota/src/redis-quota.ts, Lua scripts on Redis); after
-- the answer it settles what was used. The price of a channel comes from rules on the local time of
-- the week (packages/gateway-core/src/cost-schedule.ts), and the channel and the key are chosen by
-- priority and weight (packages/gateway-core/src/routing.ts). Administrators give employees keys, and grants
-- that a device takes by redeeming a link, in usage groups (apps/api/src).
--
-- Which file models what:
--   Base            names of the libraries, tests, lists, tables of rows, texts, signed integers
--   Budget.Result   the exceptions of the services as values; a throw rolls its transaction back
--   Budget.Ensures  postconditions of a transaction
--   Budget.Money    packages/quota/src/group-budget.ts: `cny`
--   Budget.Ledger   what packages/quota/src/group-budget.service.ts and project-budget.service.ts, which
--     have the same code on two sets of tables, share: the rows of prisma/schema.prisma in Ledger, the
--     private helpers in Store, the end of `reserve` and `extend` in Booking, `settle`, `hold`,
--     `release`, `markDispatched` and `markUncertain` in Settle, `recoverExpired` in Recovery. What
--     differs is a parameter, `Store.Rules`. Balance and its children are about the sums of a ledger,
--     Funds about the limit of a period, Retry about a call that is sent again, Commit about a call as
--     a transaction.
--   Budget.Group    packages/quota/src/group-budget.service.ts: its rules, with `lockUsageGroup` of
--     packages/security/src/group-access.ts, in Rules, `reserve` in Reserve, `adjust` and `configure`
--     in Admin, `reconcile` in Reconcile, sequences of calls in History.
--   Budget.Project  packages/quota/src/project-budget.service.ts: its rules in Rules, `reserve` in
--     Reserve, the operations on a reservation in Requests, `adjust`, `createApplication`,
--     `submitAndApprove` and `rejectApplication` in Applications, sequences of calls in History.
--   Quota.Redis     packages/quota/src/redis-quota.ts: the keys and markers in Redis, each script a
--     function on them in Scripts; Laws is about the reservation, Life about what follows it.
--   Quota.Ledger    packages/quota/src/quota-ledger.ts: `QuotaLedger`; Sums is about sequences of calls.
--   Gateway.Routing  packages/gateway-core/src/routing.ts: `selectChannel`, `selectKey` and
--     `selectKeyRoundRobin`; Choice and RoundRobin are about what they choose.
--   Gateway.Schedule  packages/gateway-core/src/cost-schedule.ts: a rule, the test of a local time, the
--     array of the minutes of a week and `costRulesOverlap`; Overlap relates them.
--     Resolve is `resolveChannelCost` and the resolution with a fallback, Transition
--     `nextCostTransition`; Best and Progress are about them.
--   Gateway.Cost    packages/gateway-core/src/cost.ts, `highestReservationCost` of cost-schedule.ts and
--     `estimateBudgetCost` of packages/quota/src/group-budget.ts; Bounds is about their amounts.
--   Gateway.Health  packages/gateway-core/src/model-health.ts; Trail is about runs of probes.
--   Gateway.Access  packages/gateway-core/src/access-policy.ts and model-capabilities.ts; Offers is about
--     the protocols that a model is offered by.
--   Gateway.Usage   the usage that an upstream reports: `normalizeUsage` of
--     packages/gateway-core/src/protocol.ts and packages/gateway-core/src/stream-usage.ts; Merge and Order
--     are about the events of a stream, Total about what a whole stream reports.
--   Api.Keys        apps/api/src/employee-keys.service.ts: the operations that change a key in Keys, on the
--     rows that the budget services read; `reveal` and `revealOwn` in Reveal, the queries in Listing.
--     Rows, Lifecycle and History are about sequences of calls, Refusal about a revoked key at the
--     budget service of a group, Throttle about wrong passwords, RoundTrip about the secret of a new key.
--   Api.Grants      apps/api/src/device-grants.service.ts and device-grant-links.service.ts, on rows of their
--     own next to the budget services' directory of groups and projects. Status is
--     packages/security/src/device-grants.ts and device-grant-links.ts, Store the queries that the
--     operations share, Issue `create` and the links, Assign `assignGroups` and `setGroupRequirement`,
--     Redeem `preview` and `redeem`, Change the other operations. Life is the specification of a grant,
--     as steps from state to state, each of an act that a call may do; Rows, Keeps, Grouping and Binding show that the operations follow
--     it, Once is about a link that is redeemed again, Fresh and Serve about one that is new, Filters
--     about the filters of `listGrouped`.
--   Api.Groups      apps/api/src/usage-groups.service.ts: the operations that change a group in Groups,
--     `revokeCredentials`, `archive` and `removeMember` in Revoke; Keeps, Closing and Archive are about
--     what they do to grants.
--   Api.Calls       sequences of calls on Api.Grants and Api.Groups: History is about all of them,
--     Refusal about an archived group at the budget service and at `redeem`.
--   Examples        in each part, runs on small inputs.
--
-- Conventions. An amount is a natural number of units of 0.00000001 CNY, as the columns
-- DECIMAL(20,8) hold it, and a column refuses what is negative or too large. Identifiers, times and
-- fingerprints are numbers; the identifiers and the time that a call gets are its arguments. What the
-- environment computes is a parameter: the calendar of a time zone, the fingerprint of a payload,
-- passwords and encryption, the framing of a stream's text, and whether `Decimal` reads a text as a
-- number that is finite and not negative. Row locks make the transactions of a group or a project run
-- one at a time, and Redis runs a script alone, so each is one function.
-- The search of `nextCostTransition` runs on fuel, one unit for each horizon: one more than there are
-- starts and ends of validity to come. All other recursion is on lists and on counts such as the 10080
-- minutes of a week.
--
-- The calls of one sequence run one after the other, so the loops that start a transaction again after
-- it met another one are one pass.
--
-- Not modelled: the transfer of closed entries to Redis (`syncQuota`, `recoverQuota`), reports and
-- lists, the expiry of keys in Redis and the scan for expired reservations, the translation of protocols
-- and relaying, and the rest of the applications around them (API, gateway, worker, console), which are
-- mostly I/O.
pub mod Api
pub mod Base
pub mod Budget
pub mod Gateway
pub mod Quota
