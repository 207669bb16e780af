-- ===== src/Catalog/Curated.antt =====
-- frontend/src/lib/catalog.ts: the curated catalog.
mod FileSources
mod CloudSources
mod FileSinks
mod CloudSinks
mod MetricSinks
use vortex_flow.Common.{ℕ, String, false, true, none, some, List, [], ◌∷◌, ◌++◌, map}
use vortex_flow.Catalog.{
  missing, text, flag, number, CatalogComponent, CatalogField, number_field, select_field,
  boolean_field,
}
use vortex_flow.Catalog.Fields.{catalog_field}
pub use FileSources.{
  file_source, stdin_source, journald_source, docker_logs_source, kubernetes_logs_source,
  syslog_source, socket_source, http_server_source, kafka_source,
}
pub use CloudSources.{
  nats_source, redis_source, aws_s3_source, gcp_pubsub_source, prometheus_scrape_source,
  internal_metrics_source, splunk_hec_source, vector_source,
}
pub use FileSinks.{file_sink, console_sink, http_sink, kafka_sink, nats_sink, redis_sink}
pub use CloudSinks.{
  aws_s3_sink, aws_cloudwatch_logs_sink, gcp_cloud_storage_sink, azure_blob_sink,
  elasticsearch_sink, loki_sink,
}
pub use MetricSinks.{
  clickhouse_sink, prometheus_remote_write_sink, prometheus_exporter_sink, splunk_hec_logs_sink,
  datadog_logs_sink, new_relic_sink, vector_sink,
}

abbrev pub curated_sources : {N : Type 0} → (ℕ → N) → List (CatalogComponent N)
curated_sources of_nat =
    file_source of_nat
    ∷ stdin_source of_nat
    ∷ journald_source of_nat
    ∷ docker_logs_source of_nat
    ∷ kubernetes_logs_source of_nat
    ∷ syslog_source of_nat
    ∷ socket_source of_nat
    ∷ http_server_source of_nat
    ∷ kafka_source of_nat
    ∷ nats_source of_nat
    ∷ redis_source of_nat
    ∷ aws_s3_source of_nat
    ∷ gcp_pubsub_source of_nat
    ∷ prometheus_scrape_source of_nat
    ∷ internal_metrics_source of_nat
    ∷ splunk_hec_source of_nat
    ∷ vector_source of_nat
    ∷ []

abbrev pub raw_sinks : {N : Type 0} → (ℕ → N) → List (CatalogComponent N)
raw_sinks of_nat =
    file_sink of_nat
    ∷ console_sink of_nat
    ∷ http_sink of_nat
    ∷ kafka_sink of_nat
    ∷ nats_sink of_nat
    ∷ redis_sink of_nat
    ∷ aws_s3_sink of_nat
    ∷ aws_cloudwatch_logs_sink of_nat
    ∷ gcp_cloud_storage_sink of_nat
    ∷ azure_blob_sink of_nat
    ∷ elasticsearch_sink of_nat
    ∷ loki_sink of_nat
    ∷ clickhouse_sink of_nat
    ∷ prometheus_remote_write_sink of_nat
    ∷ prometheus_exporter_sink of_nat
    ∷ splunk_hec_logs_sink of_nat
    ∷ datadog_logs_sink of_nat
    ∷ new_relic_sink of_nat
    ∷ vector_sink of_nat
    ∷ []

abbrev pub sink_reliability_fields : {N : Type 0} → (ℕ → N) → List (CatalogField N)
sink_reliability_fields of_nat =
    (catalog_field "buffer.max_events" "Buffer max events" number_field false (number (of_nat 500))
      none
      (some
        "In-flight events held in the memory buffer before the when-full policy applies. (Disk buffers arrive with instance data_dir support.)")
      [] (some "Reliability"))
    ∷ (catalog_field "buffer.when_full" "When buffer is full" select_field false (text "block") none
        (some "Block preserves data by slowing the source; drop_newest sheds events.")
        (("block", "Block — apply backpressure upstream")
          ∷ ("drop_newest", "Drop newest — shed load")
          ∷ [])
        (some "Reliability"))
    ∷ (catalog_field "acknowledgements.enabled" "End-to-end acknowledgements" boolean_field false
        (flag false) none
        (some
          "Hold the source ack until this sink confirms delivery — prevents data loss on crash for capable sources.")
        [] (some "Reliability"))
    ∷ (catalog_field "healthcheck.enabled" "Healthcheck on boot" boolean_field false (flag true)
        none (some "Vector verifies the sink is reachable when the config loads.") []
        (some "Reliability"))
    ∷ []

abbrev pub with_fields :
    {N : Type 0} → List (CatalogField N) → CatalogComponent N → CatalogComponent N
with_fields more c = record {
  component_type = c.component_type;
  name = c.name;
  description = c.description;
  category = c.category;
  fields = c.fields ++ more;
  generated = c.generated;
}

abbrev pub curated_sinks : {N : Type 0} → (ℕ → N) → List (CatalogComponent N)
curated_sinks of_nat = map (with_fields (sink_reliability_fields of_nat)) (raw_sinks of_nat)
