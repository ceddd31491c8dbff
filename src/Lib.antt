-- ===== src/Lib.antt =====
-- The dashboard of BlockOps: a frontend that operates one Minecraft server through an HTTP API.
--
-- The program's parts and their files. Paths are relative to frontend/src of the repository, unless
-- they start with frontend or packages.
--
-- lib/api: Api.Error is api-error.ts, Api.Client is api.ts with one request built, sent and read,
-- Api.ServerPath is server-path.ts and the addresses that features/backups/api and
-- features/settings/api build from identifiers. `fetch`, the JSON values and how they are written are
-- parameters.
--
-- features/auth: Auth.Permissions is permissions.ts, Auth.Schemas and Auth.Session.Schema are
-- auth-schemas.ts, Auth.Form is auth-form.tsx, Auth.Boundary is authentication-boundary.tsx, and
-- Auth.Session is auth-api.ts and auth-hooks.ts over a cache of two queries, with the getters that
-- app/bootstrap.tsx gives to lib/api.
--
-- features/console: Console.Lines is console-lines.ts, Console.Stream is console-stream.ts as a
-- state machine whose events are those of sockets and timers, Console.Hook is
-- hooks/use-console-stream.ts, Console.Schema is the schema of commands in console-schema.ts,
-- Console.CommandForm is components/console-command-form.tsx, Console.Output is
-- components/console-output.tsx, and Console.Page is console-page.tsx, which puts the others together;
-- Console.Page.View is what it renders.
--
-- features/players: Players.Schema is player-schema.ts and player-action-copy.ts, Players.Row is
-- components/player-row.tsx, Players.Page is players-page.tsx with its dialog and its form, and
-- Players.View is what they render.
--
-- features/overview, features/backups, features/settings and features/worlds: Overview.Page,
-- Backups.Page, Settings.Schema, Settings.Users, Settings.NewUser, Settings.Integration and Worlds,
-- one state machine per page or form: its state is the React state, its events are the clicks on the
-- controls that are rendered and enabled, and the answers of the server. Overview.Data and
-- Backups.Catalog are the data of their schemas, Overview.Components, Overview.View,
-- Backups.View, Settings.View and Worlds.View what the pages render.
--
-- features/audit: Audit is audit-filters.ts and the effect of audit-page.tsx, Audit.Paging is
-- audit-query.ts and get-audit-events.ts over an infinite query, and Audit.View is what the page
-- renders.
--
-- formatters.ts: Formatters has sizes and durations of natural numbers. The loop over the units has
-- as much fuel as there are units, which is enough.
--
-- app: Shell is routing/routes.ts, the route modules and the sidebar, Shell.Theme is
-- providers/theme-provider.tsx with its storage, Shell.Frame is the menu of shell/app-shell.tsx with
-- its timers and the focus, and Shell.View is what the shell renders.
--
-- packages/ui/src: Ui has a tree for what the shared elements render: texts, buttons with what they
-- call, announcements and dialogs. Its `clicks` are the calls of all enabled controls, its
-- `in_dialogs` those of the open dialogs alone, to which a modal dialog restricts the user.
--
-- frontend/dev.ts: Dev.Proxy is the address and the headers of a request that is passed on, and
-- Dev.Tunnel is one WebSocket from the dialling of the API on, as a state machine over the events of
-- both sockets.
--
-- What the parts stand on. Js holds what the code uses of JavaScript: strings as lists of UTF-16
-- units, their UTF-8 length, their conversion to scalar values, `encodeURIComponent`,
-- `URLSearchParams`, which converts what it is given, and numbers as text, whose digits have one unit
-- of fuel more than the number, which is enough. Zod and Query are interfaces of
-- the packages zod and @tanstack/react-query: the operations that the source calls, with their
-- documented behaviour as laws; Zod.Direct, Query.Simple and Query.SimplePages meet them. A mutation
-- follows one call: after a reset, or after another call, a late answer does not reach its callbacks.
--
-- A callback that the source passes to `mutate` reads the variables of the render that made it: the
-- state of a page then has a field that holds what the last call captured.
--
-- Not modelled: the classes and icons of the elements, and the cards and tables of packages/ui, which
-- only carry classes; the formats of dates, which are those of Intl; polling and the invalidation of
-- queries, which the query client does; the limits in the schemas of answers; what the screens
-- before a sign-in render; frontend/build.ts, which calls the bundler and writes
-- files; and the backend, which is in another language.
pub mod Prelude
pub mod Js
pub mod Zod
pub mod Query
pub mod Api
pub mod Auth
pub mod Console
pub mod Dev
pub mod Players
pub mod Overview
pub mod Backups
pub mod Settings
pub mod Worlds
pub mod Ui
pub mod Shell
pub mod Audit
pub mod Formatters
