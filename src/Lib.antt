-- ===== src/Lib.antt =====
-- T3-Spend: an engine that issues spending cards to agents and redeems them on chain.
--
-- A user grants a card to an agent: terms (a budget per period, a lifetime budget, uses, merchants, a
-- contract scope) that are compiled to the caveats of an on-chain delegation. A card may issue
-- sub-cards, so cards form trees. A spend walks from the card up to its root, checks every card's
-- status and terms, books a charge, and sends the redemption through a relayer; the charge's status
-- follows the chain. A charge counts against every card above the one that spent it.
--
-- The parts, and where they are modelled (paths from the repository's root):
--   Types, Chains           packages/engine/src/types.ts, chains.ts
--   Prelude/Failures        packages/engine/src/errors.ts: a RefusalError is `refusal code`, an
--                           EngineError `engine stage`, a plain Error `bare`; messages are left out
--   Money                   packages/engine/src/money.ts: usdcToAtoms, atomsToUsdc, parseAtoms
--   Store and Store/*       packages/engine/src/store.ts: Users (upsertUser, ...), Cards (createCard,
--                           ...), Tree (subtreeIds, ancestorChain, deleteCardTree, setSubtreeStatus),
--                           Charges (insertCharge, updateCharge, ...), Accounting
--                           (subtreeSpentSince, subtreeUsesCount), Window (periodWindow);
--                           Reachable is the relation of the database's writes
--   Compiler and Compiler/* packages/engine/src/compiler.ts: Validate (validateTerms), Scope,
--                           Allowance (decodeAllowanceCall), Compile (compileCard), Attenuate
--   Spend and Spend/*       packages/engine/src/spend.ts: Validate (assertChainSpendable,
--                           validateSpend), Plan (planItems and the fee leg), Confirm
--                           (confirmRedemption), Network (resolveStoredAuth and the estimate's
--                           errors), Reserve (the check and the insertion), Pipeline (spend, with
--                           Enter for replays, Leaves for the transactions, Broadcast from the
--                           reservation on), Balance (cardState), Reconcile (reconcilePending)
--   Ops and Ops/*           packages/engine/src/ops.ts: freeze, unfreeze, delete; Admin for revokeCard
--                           and nukeAll, Admin/Prepared for the operations that the browser signs
--   Custody                 packages/engine/src/custody.ts: encryptSecret, decryptSecret, agent keys
--   Delegations             packages/engine/src/delegations.ts: the signing lanes, ensureUpgraded, the
--                           executions of transfers
--   Identity                packages/engine/src/identity.ts: parseT3NDID, the challenge, bindings
--   Issuance and Issuance/* packages/engine/src/issuance.ts: Root (issueRootCard, prepareRootCard,
--                           finalizeRootCard), Sub (issueSubCard), Did (issueCardForDID,
--                           prepareSubCardForDID, finalizeSubCardForDID), Secrets (rotateCardSecret);
--                           Calls is one data type of those that write
--   X402 and X402/*         packages/engine/src/x402.ts: buildX402Payload, finalizeX402Charge;
--                           Facilitator for verifyX402 and settleX402
--   RateLimit               packages/server/src/ratelimit.ts: RateLimiter, clientIp
--   OAuth and OAuth/*       packages/server/src/oauth/store.ts: Clients (with the requests under way),
--                           Codes, Tokens; packages/server/src/oauth/routes.ts: Redirects, Authorize
--                           (/register, /authorize), Exchange and Refresh (/token), Endpoints (the
--                           rate limits, /token and /revoke)
--   Api and Api/*           packages/server/src/api/routes.ts: who a request acts for, Consent
--                           (/oauth/approve, /oauth/deny), Cards (freeze, unfreeze, unbind-did, delete,
--                           and the cascades to the tokens), Admin (revoke and nuke by the operator),
--                           Pending (the admin operations that await a signature) and Sections, the
--                           relation of their finalizes' sections between awaits
-- The other modules below these hold the theorems, and Tests runs them.
--
-- How the code is read. An id is only compared, so it is a number. A time is a number of seconds,
-- and an amount a number of atoms of any size, as in the source (bigint). The database is a record
-- of three tables, each a list from its newest row to its oldest; a constraint of the schema (a
-- primary key, a unique index, a foreign key) is the failure `constraint`. A function that throws
-- gives a `Result`, and one that also writes gives a result and the new store, whatever was written
-- before the throw included. An `await` in `spend`, in the admin loop, in the issue of cards and in
-- `buildX402Payload` hands the store to `between`, a function that stands for what other requests write
-- meanwhile; it may be any function unless a theorem says otherwise. What is drawn at random is an
-- argument. A text is a list of character codes, and toLowerCase is modelled on
-- ASCII.
--
-- Fuel. subtreeIds and ancestorChain follow parents, and the model bounds both by the number of cards.
-- That is enough since a parent is an older row, as the foreign key asks at the insertion: `IsForest`
-- (Store/Tree/Forest) says this of the table, and the entries on Fuel and Reachable below use it.
-- Loops over attempts have the source's own bound (three attempts to settle over x402), and the polls
-- of a confirmation are a list, as the deadline ends them.
--
-- Parameters, since their code is elsewhere: viem's ABI functions and the caveat encoders (`Kit`), the
-- relayer, the chain and the signer (`Network`, `AdminKit`, `Facility`, `Payer`), AES-GCM, SHA-256 and
-- the encodings (`Vault`), EIP-712 and EIP-7702 signatures and their recovery (`DelegationKit`), the
-- sources of an issue (`Issuer`), the URL parser and the settings (`OAuthEnv`). Tests has an instance of
-- each.
--
-- Not modelled: mutex.ts; relayer.ts (JSON-RPC over HTTP); wireDelegation and carveLeafDelegation, which
-- wrap a third-party toolkit; the cache of the master key; the rest of
-- packages/server/src/api/routes.ts (onboarding, prepared cards, views) and the MCP server
-- (packages/server/src/mcp, t3n-auth.ts included); the metadata documents and
-- the parsing of bodies in oauth/routes.ts; the number of proxies read from the environment (an argument
-- of client_ip); packages/server/src/venice; packages/dashboard; the JSON encoding of rows, migrations
-- of old databases, RPC clients, and the clock before 300 seconds.
pub mod Prelude
pub mod Types
pub mod Chains
pub mod Money
pub mod Store
pub mod Compiler
pub mod Custody
pub mod Identity
pub mod Delegations
pub mod Spend
pub mod Ops
pub mod Issuance
pub mod X402
pub mod RateLimit
pub mod OAuth
pub mod Api
pub mod Tests
