-- ===== src/Lib.antt =====
-- Verification of the SewnCovers frontend.
--
-- SewnCovers is a configurator for cushion covers. A page keeps a configuration (shape,
-- measurements, pattern, cover choices) that a reducer updates; the guest's design in progress is
-- kept in the browser's storages; a reviewed configuration is sent to the service, which answers
-- with a public design that has a share link. The files model the parts that carry this logic:
--
--   Prelude        tests on native numbers, lists measured by them, and `Result`, which is a value
--                  or one of the errors that the code throws.
--   Number         JavaScript numbers as IEEE doubles: NaN, the infinities, and a sign with a
--                  significand m and an exponent e, which stand for m * 2^e units of 2^-1074.
--                  Addition, multiplication and division round to the nearest double, ties to even;
--                  `decimal n p` is the double next to n / 10^p, which a literal denotes, and
--                  `fixed p` is `Number(value.toFixed(p))`.
--   Text           strings as lists of UTF-16 code units, with the regular expressions of the code
--                  as the functions that decide them.
--   Value          values as JSON gives them, and the readers of frontend/services/validation.ts:
--                  isRecord is `as_record`, recordOf is `record_of`, listOf is `list_of`.
--   Configuration  frontend/context/configuration: types.ts (Types), measurements.ts
--                  (Measurements), pattern-scale.ts (Scale), fabric-color.ts (Color), reducer.ts
--                  (Reducer, where configurationReducer is `configuration_reducer` and its
--                  restoreConfiguration case is `restore`), draft-configuration.ts (Draft), and the
--                  choices of frontend/data/cover-options.ts (Cover).
--   BrowserDraft   frontend/services/configurator-draft.ts. The module's variables and the two
--                  storages are the record `Store`, which every operation takes and returns. A
--                  storage works, refuses to write, or throws at every access. An absent window is
--                  a blocked storage. `Date.now()` is an argument.
--   ApiClient      frontend/services/api-client.ts: the statuses and errors (Types, Errors), the
--                  request loop (Request, where performAttempt is `perform_attempt` and request is
--                  `request`), and the readers of the responses (Responses). The outcome of `send`
--                  at each attempt is an argument, and so is whether the cold start timer runs out
--                  during the first attempt; a failure clears it.
--   Design         frontend/services/design-contract.ts (Contract) and design-save.ts: the request
--                  of a configuration and its comparison with the saved record (Request), the
--                  two requests (Client), the configuration of a project (Project), and
--                  DesignSaveController (Save). The controller's awaits split it into events:
--                  a submit, a status of the client, the answer of the client, and the end of the
--                  promise. The events happen in any order that the stages of the promise permit.
--   Navigation     frontend/services/auth-navigation.ts and frontend/config/base-path.ts. The base
--                  path, which the build sets, is an argument.
--   Patterns       frontend/data/patterns.ts: the tables (Defs) and resolvePatternResponses
--                  (Resolve), against what a valid catalogue is (Sound), and
--                  PatternCatalogueController of frontend/services/pattern-catalogue.ts (Controller),
--                  whose awaits split a load into events. The artwork of an id is looked up as an
--                  object is, with the names that every object inherits.
--   SharedDesign   frontend/services/shared-design.ts: reading a link and a record (Restore), and
--                  SharedDesignController (Controller) with the edits of the configuration around
--                  it; a load that was superseded may still report and be answered. The
--                  records that came in answers are kept beside it, each with its load.
--   Clients        frontend/services/http.ts (Http), the session and accountRequest of
--                  account-api.ts (Session, Request), waitPhrase and signInErrorMessage of
--                  auth-errors.ts (Wait), and the three clients: Account (account-api.ts), Commerce
--                  (commerce-api.ts, with frontend/data/carriers.ts) and Assurance
--                  (assurance-api.ts). Each has its readers (Tables), the interfaces that their types
--                  name as tests on values (Interfaces), and its calls (Calls), which Api joins.
--                  The browser's URL, fetch, JSON.parse and encodeURIComponent are arguments; how
--                  fetch settles tells of the time limit and of a cancelled request.
--   Review         frontend/components/configurator/review-summary.ts (Readiness, Summary), with
--                  frontend/data/shapes.ts (Shapes) and formatMeasurement, formatPatternScale and
--                  findCoverOption (Format). The text of a number of 10^21 or more, which the
--                  browser writes, is an argument.
--   Links          frontend/services/draft-links.ts: the digest on 32-bit words and the fingerprint
--                  (Digest), what the draft keeps of a link (Draft), and when a link would overwrite
--                  it (Protection). URLSearchParams and JSON.stringify are arguments.
--   Warmup         frontend/services/api-warmup.ts: the session flag, the chain of promises in the
--                  events in which they settle, and the pages of a session.
--   Tests          runs at concrete inputs, and the theorems at inputs that meet their hypotheses.
--
-- An action of the reducer carries the choices of its type. The `patternId` that an older
-- configuration carries beside its fields is a second argument of `restore` and of
-- `map_configuration_to_create_design`. Every loop of the modelled code runs over a list or the
-- fields of an object, or counts its retries to a fixed limit, so every function is by structural
-- recursion. The digits of a digest in base 36 are on a fuel of eleven, since a digest is under 2^53
-- and 36^11 is over it (Links/Digest/Bounds).
--
-- Not modelled: the screens (frontend/app and the tsx files of frontend/components), rendering,
-- subscriptions and listeners, sha256File, and the service itself (backend). The client and the
-- factory of share links are given from outside: the answers of the client are any values, and the
-- factory is any function that may throw. Objects are read as data: getters and prototypes play no part.
pub mod Prelude
pub mod Number
pub mod Text
pub mod Value
pub mod Configuration
pub mod BrowserDraft
pub mod ApiClient
pub mod Design
pub mod Patterns
pub mod SharedDesign
pub mod Clients
pub mod Review
pub mod Links
pub mod Navigation
pub mod Warmup
pub mod Tests
