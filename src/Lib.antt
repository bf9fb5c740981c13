-- ===== src/Lib.antt =====
-- A verification library for the browser client of qToggleServer (qtoggleserver/frontend/js).
--
-- The client is a single page application. It downloads the history of ports in pieces and caches
-- it (common/history-download-manager.js), and lets its user lay out widgets on dashboard panels
-- (dashboard/panel.js, dashboard/widgets/widget.js). It polls the server for events, which complete
-- what its forms wait for (api/notifications.js), processes them in bulks with messages for the user
-- (events.js), and keeps a cache of ports, slave devices and preferences (cache.js). Its user logs
-- in (auth.js, api/auth.js), backs up, restores and updates devices (common/, api/provisioning.js)
-- and sets the values of ports (api/ports.js).
--
-- Base passes shared names on: tests on numbers (Base/Test), arrays as lists (Base/Lists),
-- things in flight (Base/Pick), objects as dictionaries (Base/Dict), signed numbers (Base/Int).
--
-- History models common/history-download-manager.js. History/Interval is `class Interval`, with
-- one function for each method (`getSlice` is `get_slice`, and so on) and each loop a recursion on
-- the samples. History/Manager is `_addInterval`, `_findGaps` and `_getCachedSamples`;
-- History/Manager/Samples is `addSample`, History/Manager/Purge is `purge`, and
-- History/Manager/Download is `_download`, `_downloadAndCache` and `fetch`. The array `_intervals`
-- is a list that each function takes and returns; a loop over `pos` is a recursion on the list.
-- Timestamps are whole numbers. `purge` can write `null` into the array, so there its elements are
-- optional, and a read of a field of `null` is the outcome `type_error`; the other functions take
-- arrays without `null`. `_download` asks the server, which is a parameter with its answers
-- to the requests of one fetch. Its fuel counts pages, and a fuel above the length of the range in
-- milliseconds is enough; the fuel of `purge` is twice the length of the array and two.
--
-- Dashboard/Panel models the grid of dashboard/panel.js (`verifyWidgetLayout`, `findWidgetPlace`,
-- `_rectsOverlap`, `setSelectedWidget`, `removeWidget`, the limits of the options form), and
-- Dashboard/Panel/Drag the five `handleMove` functions of the layout controls of
-- dashboard/widgets/widget.js. Positions and sizes are whole cells; the cell under the pointer,
-- which the source computes from the geometry of the page, is an argument. The last loop of
-- `findWidgetPlace` takes fuel, and a fuel above the height of the widget is enough.
-- `ArrayUtils.sortKey` of the qui package is a parameter that sorts.
--
-- Dashboard/Stored is `toJSON` and `fromJSON` of groups (dashboard/group.js), panels and widgets,
-- with `makeWidget`, `_makeWidgetId` and `getPanelsRec`. A property that is missing or null is
-- `none`; each class of widgets has its own `configToJSON` and `configFromJSON`, which are fields of
-- the class, and a widget whose `fromJSON` throws is left out. The tree of groups and panels is a mutual data type, and so is its JSON. The place for a widget without
-- position, the hashes that `generate` returns and the table of classes are parameters; the hashes
-- that are tried are a list, and one that is new is enough.
--
-- Dashboard/Registry is the registry of widget classes of dashboard/widgets/widgets.js, which gives
-- Dashboard/Stored its table of classes.
--
-- Notifications/Listen is the listening mechanism of api/notifications.js: `wait`, `startListening`,
-- `stopListening` and the variables of the module, as a step function on actions (a request
-- succeeds or fails, a timer ends, listening starts or stops). Notifications/Expected is the
-- expected events: `expectEvent`, `unexpectEvent`, `waitExpectedEvent`, `handleServerEvent`,
-- `fakeServerEvent` and `cleanupExpectedEvents`, which return the promises that they settle.
-- `ObjectUtils.filter` and `ObjectUtils.findKey` of the qui package are parameters.
--
-- Cache is the part of cache.js for slave devices: the cases of `updateFromEvent` for them, the
-- fake events that `loadSlaveDevices` makes of a new list of devices, and `getSlaveDevice`. The
-- events are processed one after the other, without others between them.
-- `ObjectUtils.fromEntries` and `ObjectUtils.deepEquals` are parameters.
--
-- Cache/Ports is the same for ports, `loadPorts` and `getPort`: there the value of a port and the
-- time of its last synchronization are apart from its other attributes. The clock is an argument.
--
-- Cache/Prefs is `getPrefs` and `setPrefs`, on values that are null, objects or leaves (all that
-- is not an object of key and value pairs, such as arrays). `ObjectUtils.isObject` is a parameter;
-- a path is the list of its parts.
--
-- Auth is auth.js and api/auth.js in one record: credentials, cookies, access level and the two
-- conditions that the listener of auth.js fulfills. The hash of a password is a parameter.
--
-- Api/Errors is `APIError.fromHTTPResponse` of api/base.js, with the table of known errors of
-- api/constants.js in Api/Constants; translation and formatting of texts are parameters. Api/Calls
-- is `setSlaveName` and `apiCall` up to the request, and what follows when a call fails. Api/Ports is
-- the functions of api/ports.js that change ports: the call, and the event that they expect
-- (Notifications/Expected).
--
-- Device/Wait is common/wait-device-mixin.js, with conditions numbered as they are made, and
-- Device/Firmware is common/update-firmware-form.js: `validate`, `applyData`, `fetchAndUpdate` and
-- `poll`, for which the answers of the device, or their absence, are a list.
--
-- Device/Provisioning is the endpoints of backups of api/provisioning.js, and Device/Operation,
-- Device/Restore and Device/Backup are the forms of common/restore-form.js and common/backup-form.js,
-- down to the requests of Api/Calls. What an endpoint meets when its turn comes is a parameter: the
-- answer of the device, the name of the main device, and whether the form was closed before. Which
-- errors name the field that they are about, and whether JSON data are null, are parameters.
--
-- Utils/Netmask is `netmaskFromLen` and `netmaskToLen` of utils.js on the bit patterns of 32-bit
-- integers, with a netmask as the list of its four parts; 32 rounds are enough for its loop.
-- Utils/Names is `nameToId` on lists of character codes, with `toLowerCase` a parameter.
-- Utils/Samples is `decimate` and `movingAverage`, whose comparisons of two points by a field are
-- parameters; the numbers, with their sum and their quotient, are parameters of `movingAverage`.
--
-- Cache/State puts the whole cache in one record, with the main device and the need to reload:
-- `updateFromEvent` with all its cases, which calls those of Cache and Cache/Ports, `loadDevice`,
-- `load`, `reload` and the callback of `init`. What it asks of the other parts is a list of effects.
--
-- Events is events.js. Events/Attributes is the events and the attributes that are compared,
-- Events/Messages is `showMessageFromEvents`, Events/Bulk is the event listener of `init` and
-- `processEventsBulk` on the cache of Cache/State, and Events/Status is `updateStatusIcon` and the
-- three callbacks. What they call (toasts, sections, the progress message) is a list of calls, and a
-- run is a list of what happens, in any order. No loop needs fuel. The functions of the qui package
-- and the configuration are the record Env.
--
-- Samples has the concrete functions with which tests fill the parameters.
--
-- Not modelled: HTML, styles and animations, the qui package, the forms and pages that only put
-- these together, translations and the build. The server itself (Python) is outside this library.
pub mod Base
pub mod Api
pub mod Auth
pub mod Cache
pub mod Dashboard
pub mod Device
pub mod Events
pub mod History
pub mod Notifications
pub mod Samples
pub mod Utils
