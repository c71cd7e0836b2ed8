-- ===== src/Host.antt =====
-- What the program calls and does not implement: the clock, the JSON and hash libraries, and the
-- downstream MCP servers behind the stdio transport. Each answer may depend on how many interactions
-- came before it, so a host stands for every course that the outside world can take.
use toolbox_mcp.Prelude.{ℕ, String, Bool, Option, List}
use toolbox_mcp.Json.{Json, Fields}
use toolbox_mcp.Models.{Instant, Tool, ToolsetRecord, ToolsetTransport, Exception, Result}

-- A block of `CallToolResult.content`: `types.TextContent`, or a block of another class.
pub data ContentBlock : Type 0 where
  text_content : String → ContentBlock
  other_content : ContentBlock

pub record CallToolResult : Type 0 where
  pub content : List ContentBlock
  pub structured_content : Option Fields
  pub is_error : Bool

-- How an awaited downstream request ends; a timeout is `failed (timeout_error _)`.
pub data Reply (A : Type 0) : Type 0 where
  reply : A → Reply A
  failed : Exception → Reply A

pub record Host : Type 0 where
  -- `datetime.now(timezone.utc)`.
  pub clock : ℕ → Instant
  -- Start the server of a record, initialise the session and list its tools.
  pub bootstrap : ℕ → ToolsetRecord → Reply (List Tool)
  -- `session.list_tools()` of a live session.
  pub list_tools : ℕ → String → Reply (List Tool)
  -- `session.call_tool(name, arguments)` of a live session.
  pub call_tool : ℕ → String → String → Fields → Reply CallToolResult
  -- How the `close` command of a live runtime ends: the server's task may end with an error before it comes to
  -- the command, which then fails with that error.
  pub close : ℕ → String → Reply (Unit {0})
  -- `json.dumps(payload, sort_keys=True, separators=(",", ":"))`.
  pub dumps : Json → String
  -- `json.loads(text)`; `none` is the `JSONDecodeError`.
  pub loads : String → Option Json
  -- `hashlib.sha256(text.encode("utf-8")).hexdigest()`.
  pub hexdigest : String → String
  -- `character.isalnum()`, by code point.
  pub is_alnum : ℕ → Bool
  -- `character.isdigit()`, by code point.
  pub is_digit : ℕ → Bool
  -- `int(text)` of a text for which `text.isdigit()` holds; it may still raise, as for superscripts.
  pub int_of_digits : String → Result ℕ
  -- `ToolsetTransport.model_validate(payload)`.
  pub transport_of : Fields → Result ToolsetTransport
  -- How pydantic's `ValidationError` prints a failed check.
  pub validation_text : String → String
