-- ===== src/Executor/Descriptors.antt =====
-- crates/avix-core/src/executor/tool_registration.rs: the descriptors of the tools of category 2.
use avix.Base.{
  String, ◌+++◌, List, [], ◌∷◌, Option, none, some, ◌≡◌, refl, string_eq, ◌==◌, if◌then◌else◌,
}
use avix.Base.Json.{
  Json, json_string, json_array, json_object, Items, no_items, item, Members, no_members, member,
  members_of,
}
use avix.Base.Dict.{Dict, get}

abbrev pub strings : List String → Items
strings [] = no_items
strings (s ∷ ss) = item (json_string s) (strings ss)

-- The properties of a schema, each with its type and its description
abbrev pub properties : List (String × String × String) → List (String × Json)
properties [] = []
properties ((name, type, description) ∷ rest) =
    (
      name,
      json_object
          (members_of (("type", json_string type) ∷ ("description", json_string description) ∷ [])),
    )
    ∷ properties rest

abbrev pub descriptor : String → String → List (String × String × String) → List String → Json
descriptor name description props required = json_object (
    members_of (
      ("name", json_string name)
      ∷ ("description", json_string description)
      ∷ (
        "input_schema",
        json_object (
            members_of (
              ("type", json_string "object")
              ∷ ("properties", json_object (members_of (properties props)))
              ∷ ("required", json_array (strings required))
              ∷ [])),
      )
      ∷ []))

-- The description, the properties and the required properties of each tool
abbrev pub Schema : Type 0
Schema = String × List (String × String × String) × List String

abbrev pub cat2_schemas : Dict String Schema
cat2_schemas =
    (
      "cap/request-tool",
      (
        "Request access to a tool not currently in the agent's CapabilityToken. This triggers a HIL capability_upgrade event.",
        (("tool", "string", "Name of the tool to request")
            ∷ ("reason", "string", "Why the agent needs this tool")
            ∷ ("urgency", "string", "Urgency level: low | medium | high")
            ∷ []),
        ("tool" ∷ "reason" ∷ "urgency" ∷ []),
      ),
    )
    ∷ (
      "cap/escalate",
      (
        "Proactively ask a human for guidance when the agent is uncertain how to proceed.",
        (("reason", "string", "Situation description")
            ∷ ("context", "string", "Relevant context")
            ∷ ("options", "array", "List of options for the human to choose from")
            ∷ []),
        ("reason" ∷ "context" ∷ "options" ∷ []),
      ),
    )
    ∷ ("cap/list", ("List the agent's currently granted tools and constraints.", ([]), ([])))
    ∷ (
      "job/watch",
      (
        "Subscribe to events from a long-running job and block until completion.",
        (("jobId", "string", "The job ID to watch")
            ∷ ("timeoutSec", "number", "Seconds to wait before timing out")
            ∷ []),
        ("jobId" ∷ "timeoutSec" ∷ []),
      ),
    )
    ∷ (
      "agent/spawn",
      (
        "Spawn a child agent to work on a sub-task. Requires agent:spawn capability.",
        (("agent", "string", "Agent name (must exist in /bin/)")
            ∷ ("goal", "string", "Goal for the child agent")
            ∷ ("capabilities", "array", "Requested capabilities (subset of parent's grants)")
            ∷ ("waitForResult", "boolean", "If true, block until child finishes")
            ∷ []),
        ("agent" ∷ "goal" ∷ "capabilities" ∷ "waitForResult" ∷ []),
      ),
    )
    ∷ (
      "agent/kill",
      (
        "Terminate a child agent by PID. Requires agent:spawn capability.",
        (("pid", "number", "PID of the child agent to terminate")
            ∷ ("reason", "string", "Reason for termination")
            ∷ []),
        ("pid" ∷ []),
      ),
    )
    ∷ (
      "agent/list",
      (
        "List agents currently running in this session, optionally filtered by status.",
        (("status", "string", "Optional filter: running | paused | waiting | all") ∷ []),
        ([]),
      ),
    )
    ∷ (
      "agent/wait",
      (
        "Block until a specific child agent completes.",
        (("pid", "number", "PID of the child agent to wait for")
            ∷ ("timeoutSec", "number", "Optional timeout in seconds (0 = wait forever)")
            ∷ []),
        ("pid" ∷ []),
      ),
    )
    ∷ (
      "agent/send-message",
      (
        "Send a message to another agent via its input pipe.",
        (("pid", "number", "Target agent PID") ∷ ("message", "string", "Message to send") ∷ []),
        ("pid" ∷ "message" ∷ []),
      ),
    )
    ∷ (
      "pipe/open",
      (
        "Open a streaming data channel to another agent.",
        (("targetPid", "number", "PID of the target agent")
            ∷ ("direction", "string", "out | bidirectional")
            ∷ ("bufferTokens", "number", "Optional buffer size in tokens")
            ∷ ("backpressure", "string", "Optional: block | drop | error")
            ∷ []),
        ("targetPid" ∷ "direction" ∷ []),
      ),
    )
    ∷ (
      "pipe/write",
      (
        "Write tokens into an open outbound pipe.",
        (("pipeId", "string", "The pipe identifier")
            ∷ ("content", "string", "Content to write into the pipe")
            ∷ []),
        ("pipeId" ∷ "content" ∷ []),
      ),
    )
    ∷ (
      "pipe/read",
      (
        "Read tokens from an open inbound pipe.",
        (("pipeId", "string", "The pipe identifier")
            ∷ ("maxTokens", "number", "Optional maximum tokens to read")
            ∷ ("timeoutMs", "number", "Optional timeout in milliseconds (0 = block indefinitely)")
            ∷ []),
        ("pipeId" ∷ []),
      ),
    )
    ∷ (
      "pipe/close",
      (
        "Close a pipe. The other end receives SIGPIPE.",
        (("pipeId", "string", "The pipe identifier") ∷ []),
        ("pipeId" ∷ []),
      ),
    )
    ∷ (
      "sys/tools",
      (
        "List tools available in the Avix runtime. Returns name, description, and state. Use namespace or keyword to filter. Call this to discover tools before requesting access.",
        (("namespace", "string", "Filter by namespace prefix e.g. 'fs', 'llm'")
            ∷ ("keyword", "string", "Filter by keyword in name or description")
            ∷ (
              "granted_only", "boolean",
              "If true, only show tools already in your capability token",
            )
            ∷ []),
        ([]),
      ),
    )
    ∷ []

abbrev pub described : String → Option Schema → Json
described name (some (description, props, required)) = descriptor name description props required
described name none = descriptor name ("Unknown Cat2 tool: " +++ name) [] []

unfoldable pub cat2_tool_descriptor : String → Json
cat2_tool_descriptor name = described name (get name cat2_schemas)

-- `t["name"].as_str()`, which is none on what is not an object.
abbrev pub member_of : String → Members → Option Json
member_of key no_members = none
member_of key (member k value rest) = if k == key then some value else member_of key rest

abbrev pub as_str : Option Json → Option String
as_str (some (json_string s)) = some s
as_str _ = none

unfoldable pub descriptor_name : Json → Option String
descriptor_name (json_object members) = as_str (member_of "name" members)
descriptor_name _ = none

pub descriptor_name-cat2_tool_descriptor :
    (name : String) → descriptor_name (cat2_tool_descriptor name) ≡ some name
unfolding descriptor_name cat2_tool_descriptor
descriptor_name-cat2_tool_descriptor name = named name (get name cat2_schemas)
  where
    named : (n : String) (found : Option Schema) → descriptor_name (described n found) ≡ some n
    named n none = refl
    named n (some (d, ps, rs)) = refl
