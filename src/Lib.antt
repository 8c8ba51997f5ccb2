-- ===== src/Lib.antt =====
-- Kafka Manager: a model of the web client (web/src) and of the part of the server that selects
-- messages (internal/kafka/message), and the theorems that make them correct.
--
-- The client is a single page. web/src/App.tsx keeps the session, the clusters, the route and the
-- selected topic; its pages keep their own state, send requests to the server through
-- web/src/lib/api.ts, and raise notifications. Handlers are functions from the state before to the
-- state after; an `await` splits a handler in two, with the answer as an argument of the second
-- part; a request that is sent is a result. Orders of events are lists of events, and a run folds
-- them over the state, so the theorems hold for every interleaving of clicks, timers and answers.
--
-- The files, each with the code that it is about:
--   Base             numbers, texts (UTF-16 code units), lists, stable sorting, search in texts
--   Uri              `encodeURIComponent` and `decodeURIComponent` of ECMAScript
--   SearchParams     `URLSearchParams`
--   Types            web/src/lib/types.ts
--   Http             web/src/lib/api.ts (responses, and in Http/Calls what is sent), the requests of
--                    web/src/features/auth/LoginPage.tsx
--   Login            the page of web/src/features/auth/LoginPage.tsx
--   Markup           what components draw, as a list of items in the order of the document;
--                    Markup/Dialog: dialogs of web/src/components/Common.tsx
--   Confirm          web/src/components/confirmation-model.ts, `ConfirmDialog` of Common.tsx
--   Theme            web/src/theme/ThemeProvider.tsx, the switch of web/src/App.tsx
--   Overlay          `Dialog`, `Drawer` and `Tabs` of web/src/components/Common.tsx
--   ErrorBoundary    web/src/components/AppErrorBoundary.tsx
--   Feedback         web/src/components/feedback-model.ts, Feedback.tsx; what is drawn
--                    (Feedback/Screen)
--   Navigation       web/src/navigation: routes.ts (Routes), connection-state.ts (Connection),
--                    request-sequence.ts (Requests), sidebar-state.ts (Sidebar); what a browser
--                    makes of a pushed path (Routes/Dots)
--   Filters          web/src/pages/message-filters.ts
--   Messages         web/src/pages/MessagesPage.tsx: queries, stream and filter panel; `Producer` of
--                    it (Messages/Producer); `preview` and JsonViewer.tsx (Messages/Preview); the
--                    filters of the address (Messages/Address), of which Filters/Tests has examples;
--                    what the page draws (Messages/Screen)
--   Consumers        web/src/pages/consumers-model.ts; Consumers/Page: ConsumersPage.tsx, with the
--                    drawer over the page (Consumers/Page/Screen) and what both draw
--                    (Consumers/Page/Display)
--   Workspace        web/src/pages/TopicWorkspace.tsx, with `Configs` of it (Workspace/Configs);
--                    what it draws and what its controls do (Workspace/Screen)
--   JsonViewer       web/src/components/JsonViewer.tsx
--   Topics           web/src/pages/TopicsPage.tsx, and what it draws (Topics/Screen)
--   Dashboard        web/src/pages/DashboardPage.tsx; what it draws (Dashboard/Screen)
--   Audit            web/src/pages/AuditPage.tsx, and what it draws (Audit/Screen)
--   Settings         web/src/pages/SettingsPage.tsx, the fields of its form in Settings/Fields;
--                    what it draws (Settings/Screen)
--   Loader           what the pages that load a list have in common, as an interface
--   App              web/src/App.tsx: the state and its handlers; the topic of the address, with
--                    web/src/pages/topic-selection.ts (App/Selection); what is shown (App/Content);
--                    sidebar and top bar (App/Shell), and what they draw (App/Shell/Screen)
--   Server           internal/kafka/message of the server: service.go (Validation), filter.go
--                    (Matching, Collector), the loop of kafka_backend.go (Collector); the parameters
--                    of a query in internal/api/server.go (Parsing); logins in internal/api/auth.go
--                    (Auth) and tokens in internal/auth/session.go (Auth/Sessions)
-- A file below one of these holds its proofs; files named Tests hold runs and examples.
--
-- What the browser provides and depends on its locale or its own algorithms is a parameter:
-- `localeCompare`, `toLowerCase`, `JSON.parse`, `JSON.stringify`, `Number` and `String` of numbers,
-- `Date`, and the storage. Where a theorem needs more of a parameter than its type, it says so:
-- `localeCompare` is consistent, as ECMAScript asks of a comparator; `JSON.parse` and `Number`
-- invert `JSON.stringify` and `String` at the values written; a storage stores. Of the server's
-- libraries, JSON, floating-point numbers, `%q`, `strings.TrimSpace`, the reading of integers, Base64
-- and HMAC are parameters, and so is `VerifyPassword` of internal/auth/password.go, around Argon2:
-- trimming a trimmed text changes nothing, Base64 is read back as it is written, and so is JSON, for
-- claims if the account is valid Unicode and the expiry an `int64`. Which segments a browser takes
-- out of a path, and how it encodes and decodes one, is written out, as the standards have it.
--
-- Counts are natural numbers, for they never decrease below zero; lags and offsets are integers.
-- JavaScript's numbers are exact for these up to 2^53, and sums of lags are taken to stay below
-- that. All functions are total by structural recursion; `decimal` recurses on the number itself as
-- fuel, which is enough, since the number falls at each digit.
--
-- Not modelled: styles, the floating-point numbers of bars and trend lines, and the rest of the
-- server, which is written in Go: configuration, audit log, sampler, the rest of the HTTP interface,
-- and its calls of the Kafka client.
pub mod Base
pub mod Login
pub mod Markup
pub mod JsonViewer
pub mod Uri
pub mod Types
pub mod Http
pub mod Confirm
pub mod Theme
pub mod Feedback
pub mod Overlay
pub mod ErrorBoundary
pub mod Navigation
pub mod SearchParams
pub mod Filters
pub mod Messages
pub mod Consumers
pub mod Workspace
pub mod Topics
pub mod Dashboard
pub mod Audit
pub mod Settings
pub mod Loader
pub mod App
pub mod Server
