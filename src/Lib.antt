-- ===== src/Lib.antt =====
-- A verification library for ReleaseRadar, the rollout calendar: models of the Angular client under
-- frontend/src/app, of the prototype under design/project and of the mock receiver under mock-teams,
-- with theorems about them.
--
-- The parts, and the files that model them:
--
-- - Live (frontend/src/app/core/live.service.ts) is the client's connection to the server's events: a
--   state (status, socket, timers, backoff, revision), and one function for each operation, socket
--   callback and timer. An Event is one of these; `step` runs it and `run` a session of them. The
--   service tells Bus (core/refresh.bus.ts), whose ticks make the views load again. Sockets are the
--   numbers of the factory's calls, timers the moments at which they are due, in milliseconds.
-- - Calendar and Schedule (core/schedule-rules.ts): days as year, month and date, Easter, the
--   holidays of Bern, and the warnings for a day.
-- - Stage (core/stage.ts and the helpers of the same names in design/project/shell.jsx): stages,
--   delays, the dates of a cascade and the announcement policy. Delays and durations are whole hours,
--   moments are milliseconds.
-- - ListView (features/list/list-view/list-view.component.ts, and the list of
--   design/project/list-view.jsx): rows, filters, groups by day and counts.
-- - Filter (design/project/timeline.jsx): the timeline's filter and the popover that edits it.
-- - MockTeams (mock-teams/server.js): the receiver that stands for Teams in the end-to-end tests: the
--   check of a card, and the handler over the payloads received.
-- - Rollout (core/models/rollout.models.ts) has the data, Data (design/project/data.js) the prototype's.
-- - Detail (features/rollout-detail/rollout-detail.component.ts): the page of a rollout. Its state is
--   the component's signals, with the calls of the API that have no answer yet; Detail.Actions has the
--   handlers and what can happen, and an answer may come at any later moment.
-- - Auth (core/auth, app.config.ts, core/dialog.store.ts): the session, the interceptor, which stops Live
--   when the session expires, the start of the application, and the dialogs.
-- - MasterData (design/project/master-data.jsx): the editors of the master data, over what they share,
--   with the stages, the retries of a channel and the pair of a product.
-- - Timeline (features/timeline/timeline-view/timeline-view.component.ts and the geometry of
--   design/project/timeline.jsx): the columns, stages, cascades and locks that the timeline draws; the
--   browser's local time is a parameter, and Timeline/Steady has what holds where the clocks do not change.
-- - Execute (design/project/panels.jsx): the tasks' states on the panel of a rollout, and its locks.
-- - Routing (design/project/app.jsx): the hash, the navigation and the view that is shown.
-- - Create (features/create/create-lock-modal.component.ts): the form that creates or edits a lock.
-- - Tokens (design/project/docs.jsx): the API tokens of the docs view, with their form.
--   Create/Rollouts (features/create/create-rollout-modal.component.ts) is the form of a rollout.
-- - MasterView (features/master-data/master-data-view/master-data-view.component.ts): the page that
--   edits products and rollout types.
-- - LocksView (features/locks/locks-view/locks-view.component.ts and
--   features/contacts/contacts-view.component.ts): the list of locks, and the mark of the contacts.
-- - Shell (shared/layout/shell/shell.component.ts, app.routes.ts and
--   shared/a11y/focus-trap.directive.ts): the frame of the pages, the routes and the focus trap, with
--   what the browser does on Tab as a parameter.
-- - Contacts (ContactsCard of design/project/timeline.jsx): the contacts of the products.
--   Timeline/Prototype has what the prototype's timeline draws, ListView/Relative the texts of the list.
-- - MasterData/Store is what the editors promise: entries under their ids and one that is chosen.
-- - Template (renderTemplate of design/project/master-data.jsx): the variables of an announcement and
--   the escape of its text. Docs (design/project/docs.jsx): the documentation's contents; Tokens/Keys is
--   its tab of the API keys.
-- - Api (core/api/api.service.ts): the request of each operation, and of the views' calls. Detail/View
--   has what the page of a rollout shows, Timeline/Days the client's columns, Execute/Rows and
--   Execute/Dialogs what the prototype's panel and dialogs show, Timeline/Page and ListView/Prototype
--   the prototype's timeline page and its list.
-- Each part has child modules for its theorems, named for what they state, and a module Tests with
-- runs of the code. Prelude has the helpers: lists, Map, decimal texts, JSON values and integers.
--
-- Loops are structural recursion, so that no fuel is needed; `decimal` counts down from a bound that
-- is above its number. Not modelled: templates and markup, the Go backend,
-- and what the browser does (parsing JSON, the clock, sockets): its results are arguments.
mod Prelude
pub mod Bus
pub mod Live
pub mod Calendar
pub mod Schedule
pub mod Stage
pub mod ListView
pub mod Filter
pub mod MockTeams
pub mod Rollout
pub mod Data
pub mod Detail
pub mod Auth
pub mod MasterData
pub mod Timeline
pub mod Execute
pub mod Routing
pub mod Create
pub mod Tokens
pub mod MasterView
pub mod LocksView
pub mod Shell
pub mod Contacts
pub mod Template
pub mod Docs
pub mod Api
