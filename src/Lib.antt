-- ===== src/Lib.antt =====
-- A model of the core of oaverify, a validator of HTTP requests against OpenAPI documents.
--
-- Parts and files. A request is routed first (Router), then its credentials are checked against
-- the security of the operation found (Security), then its values are validated, where schemas
-- name formats (Formats). What fails is a tree of errors, which has an HTTP status (Errors).
-- References in a document are resolved as JSON pointers (Pointer). Apart from requests, a check of
-- a document grades its findings (Severity), and a body that is validated as it arrives is cut into
-- JSON events (Tokenizer), from which values are rebuilt where a schema needs them whole (Builder).
--   Common      JavaScript strings as lists of UTF-16 units with the functions of String.prototype
--               that the code calls (Texts, Search, Splits), decodeURIComponent (Percent), lists,
--               options and Boolean tests.
--   Router      packages/router/src/matcher.ts. Segments: decodePathToken, trimSlashes,
--               parseTemplate, parseSegment, segmentSignature, routeSignature. Compound:
--               matchCompound. Table: methodsDeclaredOn, operationOn, HTTP_METHODS. Table/Build:
--               createRouter, createRouterForCheck and buildRouter, whose loop is `collect` (it
--               throws) or `collect_noting` (it reports). Table/Order: the comparator and the sort.
--               Wire: wireOffsets. Match: the router's match, whose loop over the routes is `scan`
--               with the state `Seen` (the first pattern matched and the methods allowed).
--   Security    packages/validator/src/security.ts and the readings of headers.ts. Credentials:
--               compileSchemeCheck and the checks it builds. Decision: compileOperationSecurity and
--               checkSecurity, whose loop is `check_from`; a throw of resolveRef is `throws`.
--               QueryKeys: queryApiKeyNamesForSecurity.
--   Pointer     packages/core/src/json-pointer.ts: resolveJsonPointer, with `step` for one turn of
--               its loop, escapePointerSegment, pointerFromFragment and pointerFromRefFragment.
--   Errors      packages/core/src/errors.ts: createLeafError, createBranchError, walkErrors, whose
--               loop on a stack is `walk`, and collectLeaves. packages/core/src/http-status.ts:
--               httpStatusFor, allowHeaderFor.
--   Formats     packages/formats/src. Date: date.ts. Ip: ip.ts.
--   Severity    packages/check/src: severity.ts (severityFor, defaultSeverityFor, parseSeverityMap,
--               whose loop is `read_entries`), finding-key.ts (parseFindingKey), codes.ts (Codes).
--   Tokenizer   packages/stream-validator/src/tokenizer: tokenizer.ts, the events of handler.ts and the
--               errors of limits.ts. The parent has the state of JsonTokenizer. Bytes: tests on bytes,
--               NUMBER_RE, firstIllFormedUtf8, heldUtf8Prefix. Numbers, Strings and Escapes: the
--               scanners, from stepNumber to scanStringBody, each of which answers how many bytes it
--               takes. Machine: the constructor, the setters, the tests of the limits (`guard`) and
--               the states between tokens. Loop: write, whose loop is `run` with the turn `turn` and
--               the switch `dispatch`, and end. Outcomes, Tells, Bounds, Grammar: proofs.
--   Builder     packages/stream-validator/src/spine/value-builder.ts: ValueBuilder, whose containers
--               are cells of a heap; `handle` has its methods, driven by the tokenizer's events.
-- The other files under these prove what their names say; the Tests are runs and examples.
--
-- How the code is modelled. An object with names for keys is a list of entries in their order. A
-- thrown error is a value: `refused` of createRouter, `none` of resolveJsonPointer. An operation,
-- which the router only passes on, is a parameter, as are `resolveRef` of the document, which may
-- throw, the platform's `atob`, and its `toLowerCase` where names of headers are read. The router
-- compares the lowered method with the nine names of HTTP only, for which lowering ASCII is enough. A regular expression is the function that reads it from the left; the patterns
-- modelled here cannot backtrack. Array.prototype.sort is a stable insertion sort: its outcome is
-- determined by the comparator, which is a total order. The messages of errors keep their reasons
-- and not the sentence round them.
--
-- The tokenizer's offset is `baseOffset + i`, and a scan counts from the byte it begins at. The
-- platform's TextDecoder and the handler are parameters. A `Handler` has a function on its own state
-- and, for each event, the calls that it makes on the tokenizer before it returns: dispose,
-- setByteLimit, setSpanLimit, enableMemberCommas. `tell` delivers an event and makes the calls. After
-- dispose the outcome of the call is `disposed`, which stands for the tests of that flag: a disposed
-- tokenizer reports nothing more, and what the code still does to its cleared fields is never read.
-- A `silent` handler makes no calls; the builder is one. onByteLimit and onSpanLimit throw, as
-- handler.ts expects. What is thrown ends the run. Of a number the literal is kept and not
-- Number(raw). The own names of an object that the builder fills are in JavaScript's order, the array
-- indices first.
--
-- Bounds. Loops are structural recursion, without fuel, where a scan that moves on by more than one
-- unit carries the number of units to skip. The loop of walkErrors runs on fuel: the number of nodes
-- of the tree, each of which is popped once. The loop of `write` runs on fuel, 3 for each byte and 2
-- more: each turn takes a byte or moves to a state that costs less, and it is proved that this is
-- enough. Numbers are natural; where the source subtracts with a sign (the minute of the day in
-- UTC) the two signs are written out, and the builder's depth is kept as two counts.
--
-- Not modelled: the compiler of schemas, the spine and the engine of the streaming validator,
-- loading and resolution of documents, deserialization of parameters, durations, the checker's
-- rules, the command line and the adapters of frameworks.
pub mod Common
pub mod Router
pub mod Formats
pub mod Pointer
pub mod Security
pub mod Errors
pub mod Severity
pub mod Tokenizer
pub mod Builder
