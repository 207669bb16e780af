-- ===== src/Lib.antt =====
-- A verification library for the web client of VortexFlow (frontend/src), a control plane for fleets
-- of Vector instances. The client lets an operator design the topology of a fleet, that is sources,
-- remap stages, routes and sinks that name each other by id, fill in forms for the components, and
-- send the result to the API.
--
-- The files and the code they model:
-- - Common and its children: shared helpers. Lists, dictionaries in insertion order (the `Map` and the
--   plain objects of the source, without the order that JavaScript gives to keys that are numbers),
--   texts with `split`, `join`, `trim`, `includes`, `endsWith`, slugs, decimal numbers.
-- - Types: the records of frontend/src/lib/types.ts. A config value of `unknown` type is a parameter.
-- - Wiring (frontend/src/lib/wiring.ts): `resolve`, `feeds` and `fed_by` (fedBy), who feeds whom in a
--   fleet. Wiring.Mirror has the proofs.
-- - Canvas (frontend/src/components/topology/FleetTopologyCanvas.tsx): the handlers that change the
--   wiring. `on_connect` (onConnect) draws an edge, `unwire_edge` (unwireEdge) and `on_edges_delete`
--   (onEdgesDelete) delete edges, `insert_remap` (insertRemap) puts a stage into one. The state is the
--   snapshot of the fleet with the message that is flashed; a handler takes a function that tells
--   whether the server accepts a write, and patches the snapshot where it does. Canvas.Cycle is
--   `wouldCycle`: the `while` loop over a stack runs on fuel, two more than the number of inputs of all
--   stages in the map: a round pops one id, and the inputs of a stage are pushed at most once.
--   Canvas.Graphs, Canvas.Patched and Canvas.Acyclic say what one write does to the graph of the
--   stages.
-- - FleetTopology (frontend/src/lib/fleetTopology.ts): `build_fleet_flow_graph` (buildFleetFlowGraph),
--   the nodes and the edges that are drawn. The layout of dagre is the parameter `place`. Its children
--   relate the drawn edges to the nodes (Ends) and to the handlers of the canvas (Names, Wired).
-- - Api (frontend/src/lib/api.ts): the interceptors of the HTTP client. The asynchronous handler of
--   errors is cut at its one `await` into `on_error` and `on_reply`, and a run is a list of events: an
--   error arrives, or a refresh is answered. Responses without an error pass the client unchanged and
--   are not modelled, nor is what axios does with a request that is sent again: its next failure is an
--   event of its own.
-- - Catalog (frontend/src/lib/catalog.ts): which keys are secret, the merge of the curated and the
--   generated catalog, and what a form saves (`coerce_field_values`). Catalog.Yaml and Catalog.Preview
--   are the YAML preview (`nest_dot_keys`, `object_to_yaml`, `generate_yaml`), Catalog.Curated the
--   curated entries, and Catalog.Form is `valuesFromConfig`, the state of a form, of
--   frontend/src/components/catalog/ComponentConfigForm.tsx. The numbers of JavaScript
--   (`Number(v)`, `===` and `String(n)` on them) and `JSON.stringify` are parameters; arrays hold
--   texts, and lower case is that of ASCII letters.
-- - Session: the choice of the active fleet (frontend/src/lib/fleet.tsx), the guarded delete
--   (frontend/src/lib/deleteGuard.ts) and the catalog that is loaded from the server
--   (frontend/src/lib/useCatalog.ts). The calls of the API and the answer of the user are arguments;
--   loads are a list of events, a call starts or an answer arrives, which may overlap.
-- - Tap (frontend/src/components/shared/LiveTap.tsx): the hook `useTapStream`. Each call of `start`
--   is a run; the part of it between two `await`s is one action (`on_response`, `on_read` of
--   Tap.Steps), and so are the calls of the user and the effects of React. `JSON.parse`, the clock and
--   `encodeURIComponent` are parameters.
-- - Channels (frontend/src/components/settings/NotificationsTab.tsx): `form_from_channel`
--   (formFromChannel) and `build_payload` (buildPayload). `parseInt` and `JSON.parse` are parameters.
-- - Routes (frontend/src/components/routes/RouteEditor.tsx): `generate_route_yaml` (generateRouteYaml)
--   with `key_of` (uniqueSlugger), whose loop runs on one round more than there are keys in use: as many
--   keys are tried, which are distinct, so one is free. Routes.Branches has the edits of the branches.
-- - Dashboard (frontend/src/pages/Dashboard.tsx): the summary of the fleets and the checks of the
--   instances as actions on the state of the page (`act` of Dashboard.Board), the health of a fleet,
--   and the counts of a row and of the rollout.
-- - CatalogGen (frontend/src/lib/catalogGen.ts): `schema_to_catalog` (schemaToCatalog), the catalog made
--   of the JSON schema of Vector, with all its functions, on any JSON value. A function may throw a
--   `TypeError`, and `mergeObject` and `visit`, which call themselves as deep as the schema goes, may
--   overflow a stack of `stack` nested calls (Outcome); `emitField` goes down two levels at most, and the
--   loops of `deref` and `normalize` have the bounds of the code. CatalogGen.Calm and CatalogGen.Nested say
--   what overflows, CatalogGen.Reached which values are met, CatalogGen.Emitted, Made and Sorted what is
--   made. `localeCompare` is a parameter.
-- - ConfigForm (frontend/src/components/catalog/ComponentConfigForm.tsx): the form of a component. Inputs of
--   the user, answers of the server and timers are actions on `ConfigFormState`, in any order; `press_save` is
--   the button with `save_to_fleet` (saveToFleet) up to its request. ConfigForm.Managed is about the fields
--   that a stored certificate provides.
-- - Library (frontend/src/pages/Transforms.tsx): the bundle of `exportAll` and `import_file` (importFile), up
--   to what it sends, counts and shows. `JSON.parse`, `JSON.stringify` and `String` are parameters.
-- - StageEditor (frontend/src/components/transforms/StageEditor.tsx): the form of a remap stage and
--   `save_stage` (save) up to its request. StageEditor.Cyclic compares it with the canvas.
-- - Tap.Inferred (frontend/src/components/shared/LiveTap.tsx): `infer_fields` (inferFields), the fields of a sample of events.
-- - Each Tests module runs the definitions on small inputs.
--
-- The parts meet in four places. The ids of drawn nodes are read back by `parseNodeId` of the canvas;
-- the canvas and the editor of a stage write the inputs that `Wiring` reads; the configs that `Catalog`
-- builds are what a component of the fleet holds; and a component that `CatalogGen` makes is what
-- `ConfigForm` opens.
--
-- Not modelled: the backend (backend/app, Python), the agent (agent, Go), contracts, docker and
-- scripts, which are other programs; the generated catalog (frontend/src/lib/catalog.generated.ts),
-- which a script writes; and the pages and panels of the client, which draw what the modelled parts
-- compute. Login and logout (lib/auth.tsx) and the live topology of an instance (lib/topology.ts) of frontend/src
-- are not modelled either.
mod Common
pub mod Types
pub mod Wiring
pub mod Canvas
pub mod FleetTopology
pub mod Api
pub mod Catalog
pub mod Session
pub mod Tap
pub mod Channels
pub mod Routes
pub mod Dashboard
pub mod CatalogGen
pub mod ConfigForm
pub mod Library
pub mod StageEditor
