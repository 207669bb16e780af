-- ===== src/Catalog/Curated/FileSinks.antt =====
-- frontend/src/lib/catalog.ts: curated sinks to files and brokers. `of_nat` reads a number that is written in the source.
use vortex_flow.Common.{ℕ, true, false, none, some, [], ◌∷◌}
use vortex_flow.Catalog.{missing, text, CatalogComponent, string_field, select_field}
use vortex_flow.Catalog.Fields.{catalog_field, catalog_component}

abbrev pub file_sink : {N : Type 0} → (ℕ → N) → CatalogComponent N
file_sink of_nat =
    catalog_component "file" "File" "Write events to files on the local filesystem." "File & System"
      ((catalog_field "path" "File path template" string_field true missing
          (some "/var/log/vector/{{ host }}.log")
          (some "Supports handlebars templates using event fields.") [] none)
        ∷ (catalog_field "encoding.codec" "Encoding" select_field false (text "json") none none
            (("json", "JSON") ∷ ("text", "Plain text (.message field)") ∷ ("logfmt", "logfmt") ∷ [])
            none)
        ∷ (catalog_field "compression" "Compression" select_field false (text "none") none none
            (("none", "None") ∷ ("gzip", "gzip") ∷ ("zstd", "zstd") ∷ []) none)
        ∷ [])

abbrev pub console_sink : {N : Type 0} → (ℕ → N) → CatalogComponent N
console_sink of_nat =
    catalog_component "console" "Console" "Print events to stdout or stderr." "File & System" (
      (catalog_field "target" "Target" select_field false (text "stdout") none none
        (("stdout", "stdout") ∷ ("stderr", "stderr") ∷ []) none)
      ∷ (catalog_field "encoding.codec" "Encoding" select_field false (text "json") none none
          (("json", "JSON") ∷ ("text", "Plain text") ∷ ("logfmt", "logfmt") ∷ []) none)
      ∷ [])

abbrev pub http_sink : {N : Type 0} → (ℕ → N) → CatalogComponent N
http_sink of_nat =
    catalog_component "http" "HTTP" "Send events to an HTTP endpoint via POST." "Network" (
      (catalog_field "uri" "Endpoint URL" string_field true missing
        (some "https://ingest.example.com/logs") none [] none)
      ∷ (catalog_field "method" "HTTP method" select_field false (text "post") none none
          (("post", "POST") ∷ ("put", "PUT") ∷ ("patch", "PATCH") ∷ []) none)
      ∷ (catalog_field "encoding.codec" "Encoding" select_field false (text "json") none none
          (("json", "JSON") ∷ ("ndjson", "NDJSON") ∷ ("text", "Plain text") ∷ []) none)
      ∷ (catalog_field "auth.strategy" "Auth strategy" select_field false (text "") none none
          (("", "None") ∷ ("basic", "Basic auth") ∷ ("bearer", "Bearer token") ∷ []) none)
      ∷ [])

abbrev pub kafka_sink : {N : Type 0} → (ℕ → N) → CatalogComponent N
kafka_sink of_nat =
    catalog_component "kafka" "Apache Kafka" "Publish events to a Kafka topic." "Messaging" (
      (catalog_field "bootstrap_servers" "Bootstrap servers" string_field true missing
        (some "broker1:9092,broker2:9092") none [] none)
      ∷ (catalog_field "topic" "Topic" string_field true missing (some "logs.production") none []
          none)
      ∷ (catalog_field "encoding.codec" "Encoding" select_field false (text "json") none none
          (("json", "JSON") ∷ ("text", "Plain text") ∷ []) none)
      ∷ (catalog_field "compression" "Compression" select_field false (text "none") none none
          (("none", "None") ∷ ("gzip", "gzip") ∷ ("lz4", "lz4") ∷ ("snappy", "snappy") ∷ []) none)
      ∷ [])

abbrev pub nats_sink : {N : Type 0} → (ℕ → N) → CatalogComponent N
nats_sink of_nat = catalog_component "nats" "NATS" "Publish events to a NATS subject." "Messaging" (
    (catalog_field "url" "NATS URL" string_field true (text "nats://localhost:4222")
      (some "nats://localhost:4222") none [] none)
    ∷ (catalog_field "subject" "Subject" string_field true missing (some "logs.output") none []
        none)
    ∷ (catalog_field "encoding.codec" "Encoding" select_field false (text "json") none none
        (("json", "JSON") ∷ ("text", "Plain text") ∷ []) none)
    ∷ [])

abbrev pub redis_sink : {N : Type 0} → (ℕ → N) → CatalogComponent N
redis_sink of_nat =
    catalog_component "redis" "Redis" "Push events to a Redis list or publish to a channel."
      "Messaging"
      ((catalog_field "url" "Redis URL" string_field true (text "redis://localhost:6379")
          (some "redis://localhost:6379") none [] none)
        ∷ (catalog_field "key" "List / channel key" string_field true missing (some "vector-output")
            none [] none)
        ∷ (catalog_field "data_type" "Data type" select_field false (text "list") none none
            (("list", "List (RPUSH)") ∷ ("channel", "Pub/Sub channel (PUBLISH)") ∷ []) none)
        ∷ [])
