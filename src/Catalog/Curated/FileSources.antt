-- ===== src/Catalog/Curated/FileSources.antt =====
-- frontend/src/lib/catalog.ts: curated sources of files, hosts and sockets. `of_nat` reads a number that is written in the source.
use vortex_flow.Common.{ℕ, true, false, none, some, [], ◌∷◌}
use vortex_flow.Catalog.{
  missing, text, flag, number, CatalogComponent, string_field, number_field, boolean_field,
  array_field, select_field, textarea_field,
}
use vortex_flow.Catalog.Fields.{catalog_field, catalog_component}

abbrev pub file_source : {N : Type 0} → (ℕ → N) → CatalogComponent N
file_source of_nat =
    catalog_component "file" "File" "Tail one or more files on the local filesystem."
      "File & System"
      ((catalog_field "include" "Include paths" array_field true missing (some "/var/log/app/*.log")
          (some "One glob pattern per line.") [] none)
        ∷ (catalog_field "exclude" "Exclude paths" array_field false missing
            (some "/var/log/app/*.gz") (some "Patterns to exclude (optional).") [] none)
        ∷ (catalog_field "read_from" "Read from" select_field false (text "beginning") none none
            (("beginning", "Beginning") ∷ ("end", "End (tail)") ∷ []) none)
        ∷ (catalog_field "multiline.mode" "Multiline mode" select_field false (text "") none
            (some "Aggregate log lines that span multiple lines.")
            (("", "Disabled")
              ∷ ("continue_through", "Continue through")
              ∷ ("halt_before", "Halt before")
              ∷ ("halt_with", "Halt with")
              ∷ [])
            none)
        ∷ [])

abbrev pub stdin_source : {N : Type 0} → (ℕ → N) → CatalogComponent N
stdin_source of_nat =
    catalog_component "stdin" "Standard Input"
      "Read lines from standard input (stdin). Useful for piped input." "File & System"
      ((catalog_field "host_key" "Host key field" string_field false (text "host") none
          (some "Field name to store the hostname.") [] none)
        ∷ [])

abbrev pub journald_source : {N : Type 0} → (ℕ → N) → CatalogComponent N
journald_source of_nat =
    catalog_component "journald" "systemd Journal" "Collect log entries from the systemd journal."
      "File & System"
      ((catalog_field "units" "Units (filter)" array_field false missing (some "nginx.service")
          (some "Limit to specific systemd units. Leave empty to collect all.") [] none)
        ∷ (catalog_field "include_matches" "Include matches" textarea_field false missing
            (some "_SYSTEMD_UNIT=nginx.service") (some "Journal field match filters, one per line.")
            [] none)
        ∷ (catalog_field "since_now" "Start from now" boolean_field false (flag false) none
            (some "If true, only collect entries logged after Vector starts.") [] none)
        ∷ [])

abbrev pub docker_logs_source : {N : Type 0} → (ℕ → N) → CatalogComponent N
docker_logs_source of_nat =
    catalog_component "docker_logs" "Docker Logs"
      "Collect logs from Docker containers via the Docker API." "Containers"
      ((catalog_field "include_containers" "Include containers" array_field false missing
          (some "my-app") (some "Container names or IDs to include. Leave empty for all.") [] none)
        ∷ (catalog_field "exclude_containers" "Exclude containers" array_field false missing
            (some "vector") (some "Container names or IDs to exclude.") [] none)
        ∷ (catalog_field "docker_host" "Docker host" string_field false
            (text "unix:///var/run/docker.sock") none (some "Docker socket or API URL.") [] none)
        ∷ [])

abbrev pub kubernetes_logs_source : {N : Type 0} → (ℕ → N) → CatalogComponent N
kubernetes_logs_source of_nat =
    catalog_component "kubernetes_logs" "Kubernetes Logs"
      "Collect logs from Kubernetes pods. Typically runs as a DaemonSet." "Containers"
      ((catalog_field "extra_label_selector" "Label selector" string_field false missing
          (some "app=frontend") (some "Kubernetes label selector to filter pods.") [] none)
        ∷ (catalog_field "extra_namespace_label_selector" "Namespace selector" string_field false
            missing (some "environment=production") (some "Filter pods by namespace label.") []
            none)
        ∷ (catalog_field "self_node_name" "Node name env var" string_field false
            (text "${NODE_NAME}") none (some "Environment variable holding the current node name.")
            [] none)
        ∷ [])

abbrev pub syslog_source : {N : Type 0} → (ℕ → N) → CatalogComponent N
syslog_source of_nat =
    catalog_component "syslog" "Syslog" "Listen for syslog messages over UDP, TCP, or Unix socket."
      "Network"
      ((catalog_field "mode" "Mode" select_field true (text "udp") none none
          (("udp", "UDP") ∷ ("tcp", "TCP") ∷ ("unix", "Unix socket") ∷ []) none)
        ∷ (catalog_field "address" "Listen address" string_field false (text "0.0.0.0:514")
            (some "0.0.0.0:514") none [] none)
        ∷ (catalog_field "max_length" "Max message length (bytes)" number_field false
            (number (of_nat 102400)) none none [] none)
        ∷ [])

abbrev pub socket_source : {N : Type 0} → (ℕ → N) → CatalogComponent N
socket_source of_nat =
    catalog_component "socket" "TCP / UDP Socket" "Listen for events on a TCP or UDP socket."
      "Network"
      ((catalog_field "mode" "Mode" select_field true (text "tcp") none none
          (("tcp", "TCP") ∷ ("udp", "UDP") ∷ ("unix", "Unix stream") ∷ []) none)
        ∷ (catalog_field "address" "Listen address" string_field true (text "0.0.0.0:9000")
            (some "0.0.0.0:9000") none [] none)
        ∷ [])

abbrev pub http_server_source : {N : Type 0} → (ℕ → N) → CatalogComponent N
http_server_source of_nat =
    catalog_component "http_server" "HTTP Server"
      "Accept log events over HTTP. Accepts POST requests with a JSON body." "Network"
      ((catalog_field "address" "Listen address" string_field true (text "0.0.0.0:8080")
          (some "0.0.0.0:8080") none [] none)
        ∷ (catalog_field "path" "HTTP path" string_field false (text "/") (some "/logs") none []
            none)
        ∷ (catalog_field "encoding.codec" "Encoding" select_field false (text "json") none none
            (("json", "JSON") ∷ ("ndjson", "NDJSON") ∷ ("text", "Plain text") ∷ []) none)
        ∷ [])

abbrev pub kafka_source : {N : Type 0} → (ℕ → N) → CatalogComponent N
kafka_source of_nat =
    catalog_component "kafka" "Apache Kafka" "Consume messages from one or more Kafka topics."
      "Messaging"
      ((catalog_field "bootstrap_servers" "Bootstrap servers" string_field true missing
          (some "broker1:9092,broker2:9092") none [] none)
        ∷ (catalog_field "topics" "Topics" array_field true missing (some "logs.production")
            (some "One topic name per line.") [] none)
        ∷ (catalog_field "group_id" "Consumer group ID" string_field true (text "vector") none none
            [] none)
        ∷ (catalog_field "auto_offset_reset" "Auto offset reset" select_field false
            (text "earliest") none none (("earliest", "Earliest") ∷ ("latest", "Latest") ∷ []) none)
        ∷ [])
