-- ===== src/Swarm/Contracts/Tables.antt =====
-- The tables of backend/swarm_contracts that the code loads: the state machines of the object
-- kinds, the ontology's relations, the resource of each task type, and the object types.
use da_swarm.Base.{String, List, [], ◌∷◌}

abbrev pub candidate_transitions : List (String × List String)
candidate_transitions =
    ("DISCOVERED", "NORMALIZED" ∷ "ARCHIVED" ∷ "FAILED" ∷ [])
    ∷ ("NORMALIZED", "DEDUPED" ∷ "ARCHIVED" ∷ "FAILED" ∷ [])
    ∷ ("DEDUPED", "ANALYZING" ∷ "ARCHIVED" ∷ "FAILED" ∷ [])
    ∷ ("ANALYZING", "ANALYZED" ∷ "FAILED" ∷ [])
    ∷ ("ANALYZED", "ROUTED" ∷ "HELD" ∷ "ARCHIVED" ∷ "FAILED" ∷ [])
    ∷ (
      "ROUTED",
      "SYNTHESIS_QUEUED" ∷ "PUBLISH_QUEUED" ∷ "REVIEW_PENDING" ∷ "HELD" ∷ "ARCHIVED" ∷ "FAILED"
          ∷ [],
    )
    ∷ (
      "HELD",
      "ROUTED" ∷ "SYNTHESIS_QUEUED" ∷ "PUBLISH_QUEUED" ∷ "REVIEW_PENDING" ∷ "ARCHIVED" ∷ [],
    )
    ∷ ("SYNTHESIS_QUEUED", "COMPOSED" ∷ "FAILED" ∷ [])
    ∷ ("COMPOSED", "PUBLISH_QUEUED" ∷ "HELD" ∷ "ARCHIVED" ∷ "FAILED" ∷ [])
    ∷ ("PUBLISH_QUEUED", "PUBLISHED" ∷ "HELD" ∷ "FAILED" ∷ [])
    ∷ ("PUBLISHED", [])
    ∷ ("ARCHIVED", [])
    ∷ ("FAILED", "ANALYZING" ∷ "ROUTED" ∷ "SYNTHESIS_QUEUED" ∷ "PUBLISH_QUEUED" ∷ "ARCHIVED" ∷ [])
    ∷ ("REVIEW_PENDING", "PUBLISH_QUEUED" ∷ "SYNTHESIS_QUEUED" ∷ "HELD" ∷ "ARCHIVED" ∷ [])
    ∷ []

abbrev pub composition_transitions : List (String × List String)
composition_transitions =
    ("DRAFT", "RENDER_QUEUED" ∷ "REJECTED" ∷ "ARCHIVED" ∷ [])
    ∷ ("RENDER_QUEUED", "RENDERING" ∷ "FAILED" ∷ [])
    ∷ ("RENDERING", "REVIEW" ∷ "FAILED" ∷ [])
    ∷ ("REVIEW", "APPROVED" ∷ "REJECTED" ∷ "RENDER_QUEUED" ∷ [])
    ∷ ("APPROVED", "PUBLISH_QUEUED" ∷ "ARCHIVED" ∷ [])
    ∷ ("PUBLISH_QUEUED", "PUBLISHED" ∷ "FAILED" ∷ [])
    ∷ ("PUBLISHED", [])
    ∷ ("REJECTED", [])
    ∷ ("ARCHIVED", [])
    ∷ ("FAILED", "RENDER_QUEUED" ∷ "REVIEW" ∷ "ARCHIVED" ∷ [])
    ∷ []

abbrev pub task_transitions : List (String × List String)
task_transitions =
    ("QUEUED", "CLAIMED" ∷ "CANCELLED" ∷ [])
    ∷ ("CLAIMED", "RUNNING" ∷ "QUEUED" ∷ "CANCELLED" ∷ [])
    ∷ ("RUNNING", "SUCCEEDED" ∷ "WAITING_RETRY" ∷ "FAILED" ∷ "CANCELLED" ∷ [])
    ∷ ("WAITING_RETRY", "QUEUED" ∷ "DEAD_LETTER" ∷ "CANCELLED" ∷ [])
    ∷ ("FAILED", "WAITING_RETRY" ∷ "DEAD_LETTER" ∷ [])
    ∷ ("SUCCEEDED", [])
    ∷ ("CANCELLED", [])
    ∷ ("DEAD_LETTER", [])
    ∷ []

abbrev pub alert_transitions : List (String × List String)
alert_transitions =
    ("OPEN", "ACKNOWLEDGED" ∷ "RESOLVED" ∷ [])
    ∷ ("ACKNOWLEDGED", "OPEN" ∷ "RESOLVED" ∷ [])
    ∷ ("RESOLVED", [])
    ∷ []

abbrev pub account_transitions : List (String × List String)
account_transitions =
    ("ACTIVE", "PAUSED" ∷ "DEGRADED" ∷ "DISABLED" ∷ [])
    ∷ ("PAUSED", "ACTIVE" ∷ "DISABLED" ∷ [])
    ∷ ("DEGRADED", "ACTIVE" ∷ "PAUSED" ∷ "DISABLED" ∷ [])
    ∷ ("DISABLED", [])
    ∷ []

-- The machines of 06_STATE_MACHINES.yaml: the initial status and the transitions of each kind.
pub record Machine : Type 0 where
  pub initial : String
  pub transitions : List (String × List String)
  pub terminal : List String

abbrev pub states : List (String × Machine)
states =
    (
      "Candidate",
      record {
        initial = "DISCOVERED";
        transitions = candidate_transitions;
        terminal = "PUBLISHED" ∷ "ARCHIVED" ∷ [];
      },
    )
    ∷ (
      "Composition",
      record {
        initial = "DRAFT";
        transitions = composition_transitions;
        terminal = "PUBLISHED" ∷ "REJECTED" ∷ "ARCHIVED" ∷ [];
      },
    )
    ∷ (
      "Task",
      record {
        initial = "QUEUED";
        transitions = task_transitions;
        terminal = "SUCCEEDED" ∷ "CANCELLED" ∷ "DEAD_LETTER" ∷ [];
      },
    )
    ∷ (
      "Alert",
      record { initial = "OPEN"; transitions = alert_transitions; terminal = "RESOLVED" ∷ [] },
    )
    ∷ (
      "Account",
      record { initial = "ACTIVE"; transitions = account_transitions; terminal = "DISABLED" ∷ [] },
    )
    ∷ []

-- The kinds of object that an edge may join (17_ONTOLOGY_RELATION_CONTRACTS.yaml).
pub record Relation : Type 0 where
  pub sources : List String
  pub targets : List String

abbrev pub relations : List (String × Relation)
relations =
    ("FOUND_BY", record { sources = "Candidate" ∷ []; targets = "AgentRun" ∷ "Source" ∷ [] })
    ∷ (
      "SOURCED_FROM",
      record { sources = "Candidate" ∷ "MediaAsset" ∷ []; targets = "Source" ∷ "Creator" ∷ [] },
    )
    ∷ ("HAS_ATOM", record { sources = "Candidate" ∷ []; targets = "ContentAtom" ∷ [] })
    ∷ (
      "MEMBER_OF_TREND",
      record { sources = "Candidate" ∷ "ContentAtom" ∷ []; targets = "TrendCluster" ∷ [] },
    )
    ∷ (
      "MATCHES_ACCOUNT",
      record {
        sources = "Candidate" ∷ "Composition" ∷ "TrendCluster" ∷ [];
        targets = "Account" ∷ [];
      },
    )
    ∷ ("ROUTED_TO", record { sources = "Candidate" ∷ "Composition" ∷ []; targets = "Account" ∷ [] })
    ∷ (
      "DERIVED_FROM",
      record {
        sources = "Composition" ∷ "MediaAsset" ∷ [];
        targets = "Candidate" ∷ "ContentAtom" ∷ "MediaAsset" ∷ [];
      },
    )
    ∷ ("USES_ATOM", record { sources = "Composition" ∷ []; targets = "ContentAtom" ∷ [] })
    ∷ (
      "GENERATED_BY",
      record {
        sources = "Composition" ∷ "MediaAsset" ∷ "Decision" ∷ [];
        targets = "AgentRun" ∷ "Worker" ∷ [];
      },
    )
    ∷ ("EXECUTED_BY", record { sources = "Task" ∷ "AgentRun" ∷ []; targets = "Worker" ∷ [] })
    ∷ ("PUBLISHED_AS", record { sources = "Candidate" ∷ "Composition" ∷ []; targets = "Post" ∷ [] })
    ∷ ("MEASURED_BY", record { sources = "Post" ∷ "Account" ∷ []; targets = "MetricSnapshot" ∷ [] })
    ∷ (
      "PART_OF_EXPERIMENT",
      record { sources = "Post" ∷ "Composition" ∷ "Account" ∷ []; targets = "Experiment" ∷ [] },
    )
    ∷ (
      "TRIGGERED",
      record {
        sources = "Alert" ∷ "Decision" ∷ "MetricSnapshot" ∷ "TrendCluster" ∷ [];
        targets = "Task" ∷ "Decision" ∷ "Experiment" ∷ [];
      },
    )
    ∷ (
      "CAUSED",
      record {
        sources = "Task" ∷ "Decision" ∷ "Alert" ∷ "Post" ∷ [];
        targets = "Task" ∷ "Decision" ∷ "Alert" ∷ "Post" ∷ [];
      },
    )
    ∷ (
      "UPDATED_MODEL",
      record {
        sources = "MetricSnapshot" ∷ "Experiment" ∷ "Decision" ∷ [];
        targets = "AudienceGenome" ∷ [];
      },
    )
    ∷ (
      "SIMILAR_TO",
      record {
        sources = "Candidate" ∷ "ContentAtom" ∷ "Composition" ∷ [];
        targets = "Candidate" ∷ "ContentAtom" ∷ "Composition" ∷ [];
      },
    )
    ∷ []

-- `task_to_resource` of 08_QUEUE_WORKER_CONTRACTS.yaml.
abbrev pub resources : List (String × String)
resources =
    ("DISCOVER", "browser")
    ∷ ("FETCH_METADATA", "io")
    ∷ ("NORMALIZE", "io")
    ∷ ("DEDUPLICATE", "cpu_media")
    ∷ ("ANALYZE_TEXT", "llm")
    ∷ ("ANALYZE_VIDEO", "gpu_media")
    ∷ ("EMBED", "gpu_media")
    ∷ ("TRANSCRIBE", "gpu_media")
    ∷ ("ATOMIZE", "gpu_media")
    ∷ ("CLUSTER", "cpu_media")
    ∷ ("ROUTE", "llm")
    ∷ ("COMPOSE", "llm")
    ∷ ("RENDER", "render")
    ∷ ("REVIEW", "llm")
    ∷ ("PUBLISH", "publisher")
    ∷ ("COLLECT_METRICS", "io")
    ∷ ("UPDATE_MODEL", "cpu_media")
    ∷ []

abbrev pub object_types : List String
object_types =
    "Candidate" ∷ "ContentAtom" ∷ "Composition" ∷ "Account" ∷ "AudienceGenome" ∷ "Source"
    ∷ "Creator" ∷ "TrendCluster" ∷ "ViralMotif" ∷ "Task" ∷ "AgentRun" ∷ "Worker" ∷ "Sandbox"
    ∷ "MediaAsset" ∷ "Post" ∷ "MetricSnapshot" ∷ "Experiment" ∷ "Alert" ∷ "Decision" ∷ "Annotation"
    ∷ "SavedInvestigation" ∷ []

-- `kind.upper()` of the object types.
abbrev pub upper_kinds : List (String × String)
upper_kinds =
    ("Candidate", "CANDIDATE")
    ∷ ("ContentAtom", "CONTENTATOM")
    ∷ ("Composition", "COMPOSITION")
    ∷ ("Account", "ACCOUNT")
    ∷ ("AudienceGenome", "AUDIENCEGENOME")
    ∷ ("Source", "SOURCE")
    ∷ ("Creator", "CREATOR")
    ∷ ("TrendCluster", "TRENDCLUSTER")
    ∷ ("ViralMotif", "VIRALMOTIF")
    ∷ ("Task", "TASK")
    ∷ ("AgentRun", "AGENTRUN")
    ∷ ("Worker", "WORKER")
    ∷ ("Sandbox", "SANDBOX")
    ∷ ("MediaAsset", "MEDIAASSET")
    ∷ ("Post", "POST")
    ∷ ("MetricSnapshot", "METRICSNAPSHOT")
    ∷ ("Experiment", "EXPERIMENT")
    ∷ ("Alert", "ALERT")
    ∷ ("Decision", "DECISION")
    ∷ ("Annotation", "ANNOTATION")
    ∷ ("SavedInvestigation", "SAVEDINVESTIGATION")
    ∷ []
