-- ===== src/Content.antt =====
-- toolbox/service.py and toolbox/program_runtime.py: what both make of tool arguments and of the content of
-- a call's result.
pub mod Redaction
use toolbox_mcp.Prelude.{String, Option, none, some, List, [], ◌∷◌, join_lines}
use toolbox_mcp.Json.{
  Json, null, bool, int, real, str, arr, obj, Items, nil, cons, Fields, end, field,
}
use toolbox_mcp.Host.{ContentBlock, text_content, other_content, CallToolResult}

unfoldable mutual
  -- `_redacted_argument_value`.
  pub redacted_value : Json → Json
  redacted_value null = null
  redacted_value (bool b) = str "[redacted]"
  redacted_value (int n) = str "[redacted]"
  redacted_value (real text) = str "[redacted]"
  redacted_value (str text) = str "[redacted]"
  redacted_value (arr items) = arr (redacted_items items)
  redacted_value (obj fields) = obj (redacted_fields fields)

  pub redacted_items : Items → Items
  redacted_items nil = nil
  redacted_items (cons value items) = cons (redacted_value value) (redacted_items items)

  pub redacted_fields : Fields → Fields
  redacted_fields end = end
  redacted_fields (field key value fields) =
      field key (redacted_value value) (redacted_fields fields)

unfoldable pub text_blocks : List ContentBlock → List String
text_blocks [] = []
text_blocks (text_content text ∷ blocks) = text ∷ text_blocks blocks
text_blocks (other_content ∷ blocks) = text_blocks blocks

unfoldable pub joined_or_none : List String → Option String
joined_or_none [] = none
joined_or_none (text ∷ texts) = some (join_lines (text ∷ texts))

-- `_joined_text_content`.
unfoldable pub joined_text_content : CallToolResult → Option String
unfolding text_blocks joined_or_none
joined_text_content result = joined_or_none (text_blocks result.content)
