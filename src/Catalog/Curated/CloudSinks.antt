-- ===== src/Catalog/Curated/CloudSinks.antt =====
-- frontend/src/lib/catalog.ts: curated sinks to clouds and stores. `of_nat` reads a number that is written in the source.
use vortex_flow.Common.{ℕ, true, false, none, some, [], ◌∷◌}
use vortex_flow.Catalog.{
  missing, text, flag, CatalogComponent, string_field, boolean_field, array_field, select_field,
  textarea_field,
}
use vortex_flow.Catalog.Fields.{catalog_field, catalog_component}

abbrev pub aws_s3_sink : {N : Type 0} → (ℕ → N) → CatalogComponent N
aws_s3_sink of_nat =
    catalog_component "aws_s3" "Amazon S3" "Write event batches to Amazon S3 objects." "Cloud" (
      (catalog_field "bucket" "S3 bucket" string_field true missing (some "my-log-archive") none []
        none)
      ∷ (catalog_field "region" "AWS region" string_field true missing (some "us-east-1") none []
          none)
      ∷ (catalog_field "key_prefix" "Key prefix" string_field false (text "logs/")
          (some "logs/{{ host }}/") (some "Supports handlebars templates.") [] none)
      ∷ (catalog_field "encoding.codec" "Encoding" select_field false (text "json") none none
          (("json", "JSON") ∷ ("ndjson", "NDJSON") ∷ ("text", "Plain text") ∷ []) none)
      ∷ (catalog_field "compression" "Compression" select_field false (text "gzip") none none
          (("none", "None") ∷ ("gzip", "gzip") ∷ ("zstd", "zstd") ∷ []) none)
      ∷ [])

abbrev pub aws_cloudwatch_logs_sink : {N : Type 0} → (ℕ → N) → CatalogComponent N
aws_cloudwatch_logs_sink of_nat =
    catalog_component "aws_cloudwatch_logs" "CloudWatch Logs"
      "Send log events to Amazon CloudWatch Logs." "Cloud"
      ((catalog_field "region" "AWS region" string_field true missing (some "us-east-1") none []
          none)
        ∷ (catalog_field "group_name" "Log group name" string_field true missing
            (some "/app/production") none [] none)
        ∷ (catalog_field "stream_name" "Log stream name" string_field true missing
            (some "{{ host }}") (some "Supports handlebars templates.") [] none)
        ∷ (catalog_field "encoding.codec" "Encoding" select_field false (text "json") none none
            (("json", "JSON") ∷ ("text", "Plain text") ∷ []) none)
        ∷ [])

abbrev pub gcp_cloud_storage_sink : {N : Type 0} → (ℕ → N) → CatalogComponent N
gcp_cloud_storage_sink of_nat =
    catalog_component "gcp_cloud_storage" "GCS" "Write event batches to Google Cloud Storage."
      "Cloud"
      ((catalog_field "bucket" "GCS bucket" string_field true missing (some "my-log-archive") none
          [] none)
        ∷ (catalog_field "key_prefix" "Key prefix" string_field false (text "logs/") (some "logs/")
            none [] none)
        ∷ (catalog_field "encoding.codec" "Encoding" select_field false (text "ndjson") none none
            (("json", "JSON") ∷ ("ndjson", "NDJSON") ∷ ("text", "Plain text") ∷ []) none)
        ∷ [])

abbrev pub azure_blob_sink : {N : Type 0} → (ℕ → N) → CatalogComponent N
azure_blob_sink of_nat =
    catalog_component "azure_blob" "Azure Blob Storage" "Write event batches to Azure Blob Storage."
      "Cloud"
      ((catalog_field "connection_string" "Connection string" string_field true missing
          (some "DefaultEndpointsProtocol=https;AccountName=...")
          (some "Azure Storage connection string.") [] none)
        ∷ (catalog_field "container_name" "Container name" string_field true missing (some "logs")
            none [] none)
        ∷ (catalog_field "blob_prefix" "Blob prefix" string_field false (text "vector/")
            (some "vector/") none [] none)
        ∷ (catalog_field "encoding.codec" "Encoding" select_field false (text "ndjson") none none
            (("json", "JSON") ∷ ("ndjson", "NDJSON") ∷ ("text", "Plain text") ∷ []) none)
        ∷ [])

abbrev pub elasticsearch_sink : {N : Type 0} → (ℕ → N) → CatalogComponent N
elasticsearch_sink of_nat =
    catalog_component "elasticsearch" "Elasticsearch"
      "Index events into Elasticsearch or OpenSearch." "Analytics"
      ((catalog_field "endpoints" "Endpoints" array_field true missing
          (some "http://localhost:9200") (some "One URL per line.") [] none)
        ∷ (catalog_field "index" "Index" string_field false (text "vector-%Y.%m.%d")
            (some "vector-%Y.%m.%d") (some "Supports strftime date formatting.") [] none)
        ∷ (catalog_field "auth.strategy" "Auth strategy" select_field false (text "none") none none
            (("none", "None") ∷ ("basic", "Basic auth") ∷ ("aws", "AWS SigV4") ∷ []) none)
        ∷ (catalog_field "tls.verify_certificate" "Verify TLS" boolean_field false (flag true) none
            none [] none)
        ∷ [])

abbrev pub loki_sink : {N : Type 0} → (ℕ → N) → CatalogComponent N
loki_sink of_nat =
    catalog_component "loki" "Grafana Loki" "Push log streams to Grafana Loki." "Observability" (
      (catalog_field "endpoint" "Loki endpoint" string_field true (text "http://localhost:3100")
        (some "http://localhost:3100") none [] none)
      ∷ (catalog_field "labels" "Labels" textarea_field false missing
          (some "host = \"{{ host }}\"\napp = \"myapp\"")
          (some "Key = value pairs, one per line. Values support templates.") [] none)
      ∷ (catalog_field "encoding.codec" "Encoding" select_field false (text "json") none none
          (("json", "JSON") ∷ ("text", "Plain text (.message)") ∷ ("logfmt", "logfmt") ∷ []) none)
      ∷ (catalog_field "auth.strategy" "Auth" select_field false (text "") none none
          (("", "None") ∷ ("basic", "Basic auth") ∷ ("bearer", "Bearer token") ∷ []) none)
      ∷ [])
