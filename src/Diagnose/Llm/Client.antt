-- ===== src/Diagnose/Llm/Client.antt =====
-- src/slidko/diagnose/llm.py: `AnthropicLLM`. The client of the service is an arbitrary function from a request to the
-- blocks of a response; `dumps` and `loads` are those of Python's `json`.
use slidko.Prelude.{ℕ, String, false, List, [], ◌∷◌}
use slidko.Result.{Result, ok, err, ◌>>=◌, stop_iteration}
use slidko.Json.{Json, text, boolean, dict_of, list_of}
use slidko.Diagnose.Llm.{Context}

abbrev default_model : String
default_model = "claude-opus-4-8"

pub record Request (F : Type 0) : Type 0 where
  pub model : String
  pub max_tokens : ℕ
  pub schema : Json F
  pub role : String
  pub content : String

-- A block of a response, by its type; another one has no text.
pub data Block : Type 0 where
  text_block : String → Block
  other_block : String → Block

-- `next(block.text for block in response.content if block.type == "text")`
unfoldable pub first_text : List Block → Result String
first_text [] = err stop_iteration
first_text (text_block s ∷ content) = ok s
first_text (other_block t ∷ content) = first_text content

module _ {F : Type 0} where
  abbrev of_type : String → Json F
  of_type t = dict_of (("type", text t) ∷ [])

  abbrev texts : List String → Json F
  texts ts = list_of (λ t. text t) ts

  abbrev pub instruction_proposal_schema : Json F
  instruction_proposal_schema = dict_of (
      ("type", text "object")
      ∷ (
        "properties",
        dict_of (
            ("action", of_type "string")
            ∷ ("target", of_type "string")
            ∷ ("parameters", of_type "object")
            ∷ ("expected_outcome_per_hypothesis", of_type "object")
            ∷ ("hazard_notes", of_type "string")
            ∷ (
              "executor",
              dict_of (("type", text "string") ∷ ("enum", texts ("human" ∷ "exerciser" ∷ [])) ∷ []),
            )
            ∷ ("citations", dict_of (("type", text "array") ∷ ("items", of_type "string") ∷ []))
            ∷ ("unknown", of_type "boolean")
            ∷ []),
      )
      ∷ (
        "required",
        texts (
            "action" ∷ "target" ∷ "parameters" ∷ "expected_outcome_per_hypothesis" ∷ "hazard_notes"
            ∷ "executor" ∷ "citations" ∷ []),
      )
      ∷ ("additionalProperties", boolean false)
      ∷ [])

  abbrev pub context_json : Context → Json F
  context_json context = dict_of (
      ("assertions", texts context.assertions)
      ∷ ("board_id", text context.board_id)
      ∷ ("tier", text context.tier)
      ∷ ("citable_docs", texts context.citable_docs)
      ∷ [])

  unfoldable pub render_context : (Json F → String) → Context → String
  render_context dumps context = dumps (context_json context)

  abbrev pub request : (Json F → String) → String → Context → Request F
  unfolding render_context
  request dumps model context = record {
    model = model;
    max_tokens = 4096;
    schema = instruction_proposal_schema;
    role = "user";
    content = render_context dumps context;
  }

  unfoldable pub propose_with_client :
      (Json F → String)
      → (String → Result (Json F))
      → (Request F → Result (List Block))
      → String
      → Context
      → Result (Json F)
  propose_with_client dumps loads create model context = do
    content ← create (request dumps model context)
    reply ← first_text content
    loads reply
