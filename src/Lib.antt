-- ===== src/Lib.antt =====
-- Air-quality monitoring: a model of the network's own logic and its theorems.
--
-- Sensor nodes send a thirteen-byte payload by LoRaWAN. ChirpStack passes it on by MQTT as a
-- JSON envelope; the ingestion service decodes it, computes the US-EPA index, stores a row,
-- refreshes a cache and publishes an event. The API serves the sensor registry and the readings,
-- and the dashboard shows them on its own copy of the index scale.
--
-- Which file models which part:
-- Codec (packages/telemetry-codec/src/index.ts): Codec/Uplink has decodeUplink and encodeUplink,
--   Codec/Downlink the commands to a node with their range checks, Codec/ConfigReport the report
--   a node sends back, Codec/Errors what they throw, Codec/Words the DataView accessors.
-- Domain (packages/domain/src/aqi.ts, types.ts): Domain/Aqi has calculateAqi, aqiCategory and
--   the two breakpoint tables.
-- Contracts (packages/contracts/src): Contracts/Reading and Contracts/Events have the zod
--   schemas that ingestion parses with, Contracts/Registration those of the registry's requests.
-- Ingestion (services/ingestion/src/ingestion/ingestion.service.ts): Ingestion/State has the
--   stores the service writes (the readings table with its primary key, the two Redis caches,
--   the channel, the counters) and Ingestion/Handler has handleUplink and handleConfigReport as
--   steps on that state; what was written before an error stays written. Ingestion/Invariant,
--   Delivery, Redelivery and Admission have what holds of these.
-- Api (apps/api/src): Api/Sensors has SensorsService over the sensors table of
--   packages/db/src/relational/schema.ts, Api/Guard the AdminApiKeyGuard of auth/, and
--   Api/Overview the snapshot of overview/overview.controller.ts. Api/History has both hourly
--   histories, of a device and of the network or a neighbourhood, with placeKey.
--   Api/Sensors/Refinement states the contract of the registry, a map from devices to rows, and
--   answers requests by both; Api/Sensors/Requests has its routes behind the checks of their
--   bodies, and Api/Health the probes of health/health.controller.ts. Api/Readings has the
--   windows, the latest values and the relay of sensors/sensors.controller.ts and
--   realtime/realtime.gateway.ts over the stores that ingestion writes; Api/Readings/EndToEnd
--   composes ingestion, the API and the dashboard.
-- Dashboard (apps/dashboard/src): Dashboard/Aqi has lib/aqi.ts, the categories and the second
--   implementation of the index; Dashboard/Model the types of types.ts; Dashboard/Stats the
--   status, averages and groups of lib/stats.ts, and Dashboard/Stats/MapLimit its worker pool as
--   a step relation; Dashboard/Services toReading and getReadings of
--   services/http-sensor-service.ts; Dashboard/Store applyReading, syncLatest and loadReadings
--   of stores/air.ts, Dashboard/Store/Connection its onConnection with the polling timers
--   (Connection/Arming: its runs), Dashboard/Store/Series loadCitySeries and loadPlaceSeries
--   with their concurrent requests, and Dashboard/Store/Lifecycle load, start, retry and stop,
--   as step relations, and Dashboard/Store/Clock syncClock; Dashboard/Export the CSV of
--   lib/export.ts, with an independent reader of such files in Dashboard/Export/Reader, and
--   Dashboard/Sorting composables/useSort.ts; Dashboard/Stats/Series toSeries, hourOfDayProfile
--   and levelCounts, Dashboard/Store/Derived what the store derives (cityTrend, getRow) and its
--   hourly histories, Dashboard/Services/Client the requests, sensors and buckets of
--   services/http-sensor-service.ts, Dashboard/Places slugify and the Arabic names of
--   lib/places.ts, Dashboard/Prefs composables/usePrefs.ts with the device's storage,
--   Dashboard/Locale the names of composables/useLocale.ts, and Dashboard/Views the scripts of
--   views/ and components/ (the history of a sensor, the issues of the network, the trends, the
--   chart's bands, the table of sensors, the map, the numbers of the other views);
--   Dashboard/Mock the histories of mock/; Dashboard/Metrics, Dashboard/Config and
--   Dashboard/Format the metrics and ramps, resolveConfig and the numbers of lib/metrics.ts,
--   lib/config.ts and lib/format.ts.
-- Simulator (services/simulator/src): Simulator/Gateway has the packet forwarder of gateway.ts
--   with its frames and the promises that wait for a downlink, Simulator/Lora the frames of
--   lorawan.ts, Simulator/Rest and Simulator/Provisioning chirpstack.ts and the credentials file
--   of index.ts, Simulator/Join its loops joinDevice and provisionWithRetry, and Simulator/Node
--   a node with its timer and its queue.
-- Db (packages/db/src): Db/Fixtures has fixtures.ts and Db/Seed the inserts of seed.ts, which
--   update a row that is there.
-- Base holds what these share: Boolean tests, lists, results, steps with state and errors and
--   what holds of a step that returns (Base/Triples), integers, rounding, averages, maps with
--   text keys, keys of names (Base/Slugs) and rows grouped by a number (Base/Groups).
--
-- Numbers. A JavaScript number that the code reads from the wire or compares with a table is an
-- exact count of hundredths, `Hundredths`; the wire's own resolution is a tenth or a hundredth.
-- A mean is kept as its sum and its count. Math.round is `round_div`, which rounds a half up,
-- and Math.trunc on the positive values met here is the quotient. Floating-point error is not
-- modelled. Integers of the wire are ℤ or ℕ with their range written out, and bytes are natural
-- numbers below 256. A moment is a count of milliseconds since 1970; a date before that is not
-- expressed. All functions are total by structural recursion. The loop of provisionWithRetry has
-- no bound of its own and takes fuel; thirty turns are enough, as its theorem shows. The loop of
-- a mock's history takes as many turns as there are milliseconds left, and one more.
--
-- Parameters. What the code takes from outside is a field of `Ingestion.State.Env` (the parsing
-- of the envelope, base64, Date.parse, the clocks, and whether the database and Redis answer),
-- of `Api.Sensors.Host` (trim, toLowerCase, the clock and the default uuid), of
-- `Api.Guard.Platform` (trim, Buffer.from, crypto.timingSafeEqual), of
-- `Dashboard.Services.Platform` (toLowerCase, Date.parse), of `Simulator.Lora.LoraPacket` (the
-- library lora-packet), of `Simulator.Rest.Network` (the login, fetch, the random bytes, JSON)
-- or of `Simulator.Join.JoinWorld`, of `Dashboard.Export.Writer` (String, toISOString) or of
-- `Dashboard.Config.UrlPlatform` (the replacements in a URL), of `Dashboard.Places.TextPlatform`
-- (trim, toLowerCase, the classes of letters, digits and spaces), of
-- `Dashboard.Services.Client.Statuses` (response.ok and the text of a status), of
-- `Dashboard.Views.Table.SearchPlatform`, of `Contracts.Registration.Strings` (trim,
-- toLowerCase, length and the moment of a text that zod accepts), of `Db.Seed.Defaults` (the
-- default uuid and now()), or an argument (a cached reading, a task, the clock, the hour of a
-- moment, what fetch or a probe reports, the mock's reading at a moment). Theorems that need a
-- law of these state it as a hypothesis.
--
-- Not modelled: SQL beyond select, insert and update by key and the grouping of the hourly
-- history, the aggregate behind readings_hourly, the expiry of a Redis key, the HTTP and MQTT
-- connections, logs, the firmware, the start-up of the services, the dashboard's templates,
-- layers of maps, canvas and translations. The interleaving of two uplinks at their awaits is
-- not modelled either: an uplink is one step. A command to the database or to Redis that fails
-- is taken to have changed nothing: a command that timed out at the client and was carried out
-- all the same is not modelled.
pub mod Base
pub mod Codec
pub mod Domain
pub mod Contracts
pub mod Ingestion
pub mod Api
pub mod Dashboard
pub mod Simulator
pub mod Db
