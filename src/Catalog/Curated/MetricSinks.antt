-- ===== src/Catalog/Curated/MetricSinks.antt =====
-- frontend/src/lib/catalog.ts: curated sinks to stores of metrics and logs. `of_nat` reads a number that is written in the source.
use vortex_flow.Common.{ℕ, true, false, none, some, [], ◌∷◌}
use vortex_flow.Catalog.{
  missing, text, flag, CatalogComponent, string_field, boolean_field, select_field,
}
use vortex_flow.Catalog.Fields.{catalog_field, catalog_component}

abbrev pub clickhouse_sink : {N : Type 0} → (ℕ → N) → CatalogComponent N
clickhouse_sink of_nat =
    catalog_component "clickhouse" "ClickHouse" "Insert events into a ClickHouse table." "Analytics"
      ((catalog_field "endpoint" "ClickHouse HTTP URL" string_field true
          (text "http://localhost:8123") (some "http://localhost:8123") none [] none)
        ∷ (catalog_field "table" "Table name" string_field true missing (some "logs") none [] none)
        ∷ (catalog_field "database" "Database" string_field false (text "default") (some "default")
            none [] none)
        ∷ (catalog_field "compression" "Compression" select_field false (text "gzip") none none
            (("none", "None") ∷ ("gzip", "gzip") ∷ []) none)
        ∷ [])

abbrev pub prometheus_remote_write_sink : {N : Type 0} → (ℕ → N) → CatalogComponent N
prometheus_remote_write_sink of_nat =
    catalog_component "prometheus_remote_write" "Prometheus Remote Write"
      "Send metrics to any Prometheus remote_write compatible endpoint (VictoriaMetrics, Thanos, Cortex…)."
      "Metrics"
      ((catalog_field "endpoint" "Remote write endpoint" string_field true missing
          (some "http://localhost:8428/api/v1/write") none [] none)
        ∷ (catalog_field "auth.strategy" "Auth" select_field false (text "") none none
            (("", "None") ∷ ("basic", "Basic auth") ∷ ("bearer", "Bearer token") ∷ []) none)
        ∷ [])

abbrev pub prometheus_exporter_sink : {N : Type 0} → (ℕ → N) → CatalogComponent N
prometheus_exporter_sink of_nat =
    catalog_component "prometheus_exporter" "Prometheus Exporter"
      "Expose metrics on an HTTP endpoint for Prometheus to scrape." "Metrics"
      ((catalog_field "address" "Listen address" string_field false (text "0.0.0.0:9598")
          (some "0.0.0.0:9598") none [] none)
        ∷ [])

abbrev pub splunk_hec_logs_sink : {N : Type 0} → (ℕ → N) → CatalogComponent N
splunk_hec_logs_sink of_nat =
    catalog_component "splunk_hec_logs" "Splunk HEC"
      "Send logs to Splunk via the HTTP Event Collector." "Observability"
      ((catalog_field "endpoint" "Splunk HEC endpoint" string_field true missing
          (some "https://splunk.example.com:8088") none [] none)
        ∷ (catalog_field "token" "HEC token" string_field true missing
            (some "xxxxxxxx-xxxx-xxxx-xxxx-xxxxxxxxxxxx") none [] none)
        ∷ (catalog_field "default_token" "Index" string_field false missing (some "main")
            (some "Splunk index to write to (optional).") [] none)
        ∷ (catalog_field "tls.verify_certificate" "Verify TLS" boolean_field false (flag true) none
            none [] none)
        ∷ [])

abbrev pub datadog_logs_sink : {N : Type 0} → (ℕ → N) → CatalogComponent N
datadog_logs_sink of_nat =
    catalog_component "datadog_logs" "Datadog Logs" "Send logs to the Datadog Logs API."
      "Observability"
      ((catalog_field "default_api_key" "API key" string_field true missing
          (some "xxxxxxxxxxxxxxxxxxxxxxxxxxxxxxxx") none [] none)
        ∷ (catalog_field "site" "Datadog site" select_field false (text "datadoghq.com") none none
            (("datadoghq.com", "US1 (datadoghq.com)")
              ∷ ("us3.datadoghq.com", "US3")
              ∷ ("us5.datadoghq.com", "US5")
              ∷ ("datadoghq.eu", "EU (datadoghq.eu)")
              ∷ [])
            none)
        ∷ (catalog_field "encoding.codec" "Encoding" select_field false (text "json") none none
            (("json", "JSON") ∷ ("text", "Plain text") ∷ []) none)
        ∷ [])

abbrev pub new_relic_sink : {N : Type 0} → (ℕ → N) → CatalogComponent N
new_relic_sink of_nat =
    catalog_component "new_relic" "New Relic" "Send logs, metrics, or traces to New Relic."
      "Observability"
      ((catalog_field "license_key" "License key" string_field true missing
          (some "xxxxxxxxxxxxxxxxxxxxxxxxxxxxxxxxxxxxxxxx") none [] none)
        ∷ (catalog_field "api" "API endpoint" select_field false (text "logs") none none
            (("logs", "Logs")
              ∷ ("metrics", "Metrics")
              ∷ ("events", "Events")
              ∷ ("traces", "Traces")
              ∷ [])
            none)
        ∷ (catalog_field "region" "Region" select_field false (text "us") none none
            (("us", "US") ∷ ("eu", "EU") ∷ []) none)
        ∷ [])

abbrev pub vector_sink : {N : Type 0} → (ℕ → N) → CatalogComponent N
vector_sink of_nat =
    catalog_component "vector" "Vector (forward)" "Forward events to another Vector instance."
      "Pipeline"
      ((catalog_field "address" "Target address" string_field true missing
          (some "aggregator.internal:9000") none [] none)
        ∷ (catalog_field "version" "Protocol version" select_field false (text "2") none none
            (("2", "v2 (recommended)") ∷ ("1", "v1 (legacy)") ∷ []) none)
        ∷ (catalog_field "compression" "Compression" boolean_field false (flag true) none
            (some "Enable zstd compression on the wire.") [] none)
        ∷ [])
