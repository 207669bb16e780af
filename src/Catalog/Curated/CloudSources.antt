-- ===== src/Catalog/Curated/CloudSources.antt =====
-- frontend/src/lib/catalog.ts: curated sources of brokers, clouds and metrics. `of_nat` reads a number that is written in the source.
use vortex_flow.Common.{ℕ, true, false, none, some, [], ◌∷◌}
use vortex_flow.Catalog.{
  missing, text, number, CatalogComponent, string_field, number_field, array_field, select_field,
}
use vortex_flow.Catalog.Fields.{catalog_field, catalog_component}

abbrev pub nats_source : {N : Type 0} → (ℕ → N) → CatalogComponent N
nats_source of_nat =
    catalog_component "nats" "NATS" "Subscribe to subjects on a NATS server." "Messaging" (
      (catalog_field "url" "NATS URL" string_field true (text "nats://localhost:4222")
        (some "nats://localhost:4222") none [] none)
      ∷ (catalog_field "subject" "Subject" string_field true missing (some "logs.>") none [] none)
      ∷ (catalog_field "queue" "Queue group" string_field false missing (some "vector-consumers")
          (some "Optional NATS queue group for load balancing.") [] none)
      ∷ [])

abbrev pub redis_source : {N : Type 0} → (ℕ → N) → CatalogComponent N
redis_source of_nat =
    catalog_component "redis" "Redis" "Read events from a Redis list or channel." "Messaging" (
      (catalog_field "url" "Redis URL" string_field true (text "redis://localhost:6379")
        (some "redis://localhost:6379") none [] none)
      ∷ (catalog_field "key" "List / channel key" string_field true missing (some "vector-logs")
          none [] none)
      ∷ (catalog_field "data_type" "Data type" select_field false (text "list") none none
          (("list", "List (BLPOP)") ∷ ("channel", "Pub/Sub channel") ∷ []) none)
      ∷ [])

abbrev pub aws_s3_source : {N : Type 0} → (ℕ → N) → CatalogComponent N
aws_s3_source of_nat =
    catalog_component "aws_s3" "Amazon S3"
      "Receive S3 event notifications via SQS and download the objects." "Cloud"
      ((catalog_field "region" "AWS region" string_field true missing (some "us-east-1") none []
          none)
        ∷ (catalog_field "sqs.queue_url" "SQS queue URL" string_field true missing
            (some "https://sqs.us-east-1.amazonaws.com/123456789/my-queue") none [] none)
        ∷ [])

abbrev pub gcp_pubsub_source : {N : Type 0} → (ℕ → N) → CatalogComponent N
gcp_pubsub_source of_nat =
    catalog_component "gcp_pubsub" "GCP Pub/Sub" "Subscribe to a Google Cloud Pub/Sub subscription."
      "Cloud"
      ((catalog_field "project" "GCP project ID" string_field true missing (some "my-project") none
          [] none)
        ∷ (catalog_field "subscription" "Subscription name" string_field true missing
            (some "my-subscription") none [] none)
        ∷ [])

abbrev pub prometheus_scrape_source : {N : Type 0} → (ℕ → N) → CatalogComponent N
prometheus_scrape_source of_nat =
    catalog_component "prometheus_scrape" "Prometheus Scrape"
      "Scrape metrics from Prometheus /metrics endpoints." "Metrics"
      ((catalog_field "endpoints" "Endpoints" array_field true missing
          (some "http://localhost:9090/metrics") (some "One URL per line.") [] none)
        ∷ (catalog_field "scrape_interval_secs" "Scrape interval (seconds)" number_field false
            (number (of_nat 15)) none none [] none)
        ∷ [])

abbrev pub internal_metrics_source : {N : Type 0} → (ℕ → N) → CatalogComponent N
internal_metrics_source of_nat =
    catalog_component "internal_metrics" "Vector Internal Metrics"
      "Emit Vector's own internal performance metrics." "Metrics"
      ((catalog_field "scrape_interval_secs" "Scrape interval (seconds)" number_field false
          (number (of_nat 5)) none none [] none)
        ∷ [])

abbrev pub splunk_hec_source : {N : Type 0} → (ℕ → N) → CatalogComponent N
splunk_hec_source of_nat =
    catalog_component "splunk_hec" "Splunk HEC"
      "Receive events from the Splunk HTTP Event Collector protocol." "Observability"
      ((catalog_field "address" "Listen address" string_field false (text "0.0.0.0:8088")
          (some "0.0.0.0:8088") none [] none)
        ∷ (catalog_field "valid_tokens" "Valid HEC tokens" array_field false missing
            (some "my-splunk-token") (some "One token per line. Leave empty to accept any token.")
            [] none)
        ∷ [])

abbrev pub vector_source : {N : Type 0} → (ℕ → N) → CatalogComponent N
vector_source of_nat =
    catalog_component "vector" "Vector (receive)"
      "Receive events forwarded from another Vector instance." "Pipeline"
      ((catalog_field "address" "Listen address" string_field true (text "0.0.0.0:9000")
          (some "0.0.0.0:9000") none [] none)
        ∷ (catalog_field "version" "Protocol version" select_field false (text "2") none none
            (("2", "v2 (recommended)") ∷ ("1", "v1 (legacy)") ∷ []) none)
        ∷ [])
