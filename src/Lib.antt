-- ===== src/Lib.antt =====
-- Verification library of the role provider service, the program that keeps groups, their members
-- and the tokens that people hold by them.
--
-- Base: what the other modules share. Equality tests, texts as lists of codes, lists, filters,
-- insertion sort, the counting that bounds a search, and results with the service's errors.
--
-- Common: internal/common. Types has the records of types.go; a uuid is a number (`uuid.Nil` is 0), a
-- time is a number of instants. Strings has what the code uses of Go's `strings`; letters
-- change case in ASCII and Latin-1 only. Quote is the format `%q`.
-- Token is the rest of types.go (NormalizeID, ParseToken, BuildToken, SplitGroupRelation,
-- JoinGroupRelation, MemberGroup, GroupToken, NormalizeRelation), Glob is pattern.go, Relations is relations.go,
-- Validate is validate.go, its regular expressions as recognizers.
--
-- Store: internal/storage/memory.go. State has memTuple (Entry) and MemoryStore; maps are association
-- lists or lists of records that hold their key. Entries has AddMember, RemoveMember and ChangeRelation;
-- Listing the readers of members, memberships, edges, addresses and relations; Groups, Sources, Managers and
-- History the operations on those; Members has GetAllMembers, Tokens GetUserTokens, Import ReplaceTuples.
-- Every operation holds the lock from start to end, so it is one step from state to state. The loops of
-- GetAllMembers and GetUserTokens run on fuel: 2 + n (n + 1) rounds and n + 1 rounds for n entries, and their
-- theorems say that they answer. The time is an argument, `now`; so are the new ids.
--
-- Service: internal/groupmgmt/service.go and browse.go, over the store in memory. State
-- has the caller, the service, the tokens that are read, and how a handler runs: it gives the store that
-- it leaves and its answer, an error included. Access has who may change and read a group, Cycle has checkNoCycle
-- (with a round of fuel for each edge and two more, which is enough), Catalog the groups' handlers,
-- Membership the members', Managing the managers', Reading what callers read, Browse the pages of groups: Browse,
-- pathDown (with a round of fuel for each edge and two more), page and Sources. A service without a cache is
-- modelled; timeouts, logging and the texts of errors are not. The end of a page is a sum of ints, which wraps at 64
-- bits; the panic of a slice that ends at a negative number stands as an error of Browse, as the router recovers
-- from it with the status of one. One request sees one time.
--
-- Sync: internal/sync. Checks has normalizeIDs, checkRelations, groupIDs, CheckOwnership and the reserved
-- names of engine.go, Run has RunSync over the store in memory; what a source delivers comes from a record
-- of readers (files, CSV, LDIF, Keycloak), an argument of a run, and a run takes one time. Csv is
-- csv_importer.go over the records that encoding/csv delivers; Ldif is ldif_importer.go over
-- the LDIF package's entries, with compiled regular expressions as a parameter; Scheduler is the table of
-- jobs of scheduler.go over the cron library, a record of its operations and of the laws that the code relies
-- on, with a table over lists as an instance.
--
-- Web: internal/webserver. Reply is errors.go, Auth authentication.go, Person person_auth.go (the
-- verifier of id tokens and the reading of the act-as header are a parameter, Authn), Groups api_groups.go and
-- api_users.go, Manage api_manage.go, Sources api_sync.go, whose
-- handlers that change a source are in Sources.Changes. A handler maps a store, and for
-- sources the scheduler, to what it leaves and a status with a body. A request's JSON body is decoded,
-- malformed or too large.
--
-- Keycloak: internal/keycloak. Mapping is mapping.go after the JSON decoder (Derive in Mapping.Derive), Source is source.go with the
-- server's answers as a parameter. Maps are association lists.
--
-- Catalog: internal/catalog. Query is query.go (the splitting at quotes runs on fuel: one round more than the text
-- has characters), Cache is cache.go. Startup: internal/app.go, the loader of the cache and
-- what is done to the sources and groups before requests are answered. Startup.Config: the upload tokens of
-- internal/config.go.
--
-- Not modelled: the PostgreSQL store, whose behaviour lies in a database; the HTTP client of Keycloak; the
-- rest of the configuration; the router, its logging, the health and statistics handlers; tickers and timeouts;
-- the sample data.
pub mod Base
pub mod Common
pub mod Store
pub mod Service
pub mod Sync
pub mod Web
pub mod Keycloak
pub mod Catalog
pub mod Startup
