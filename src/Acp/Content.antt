-- ===== src/Acp/Content.antt =====
-- rust/acp-types/src/content.rs: normalized content blocks and tool output.
use slight.Base.{ℕ, String, List, Option, none, some}
use slight.Base.Int.{ℤ}
use slight.Base.Text.{◌++◌}
use slight.Acp.External.{Externals}
use slight.Acp.Kinds.{ToolCallStatus}

pub record ResourceLinkSummary : Type 0 where
  pub uri : String
  pub name : String
  pub mime_type : Option String
  pub title : Option String
  pub description : Option String
  pub size : Option ℤ

pub data ResourceContent : Type 0 where
  -- uri, text, mime_type
  text : String → String → Option String → ResourceContent
  -- uri, data_base64, mime_type
  blob : String → String → Option String → ResourceContent

pub data NormalizedContent : Type 0 where
  text : String → NormalizedContent
  -- data_base64, mime_type, uri
  image : String → String → Option String → NormalizedContent
  -- data_base64, mime_type
  audio : String → String → NormalizedContent
  resource_link : ResourceLinkSummary → NormalizedContent
  resource : ResourceContent → NormalizedContent

link_fallback : ResourceLinkSummary → Option String → String
link_fallback link (some title) = title ++ (" (" ++ (link.uri ++ ")"))
link_fallback link none = link.name ++ (" (" ++ (link.uri ++ ")"))

pub text_fallback : NormalizedContent → String
unfolding link_fallback
text_fallback (NormalizedContent.text t) = t
text_fallback (image data_base64 mime_type uri) = ""
text_fallback (audio data_base64 mime_type) = ""
text_fallback (resource_link link) = link_fallback link link.title
text_fallback (resource (ResourceContent.text uri t mime_type)) = t
text_fallback (resource (blob uri data_base64 mime_type)) = uri

pub record DiffSummary : Type 0 where
  pub path : String
  pub old_text : Option String
  pub new_text : String

pub record TerminalRef : Type 0 where
  pub terminal_id : String

pub data NormalizedToolContent : Type 0 where
  content : NormalizedContent → NormalizedToolContent
  diff : DiffSummary → NormalizedToolContent
  terminal : TerminalRef → NormalizedToolContent

-- `line` is a `u32`.
pub record ToolLocation : Type 0 where
  pub path : String
  pub line : Option ℕ

-- Declared in rust/acp-types/src/lib.rs.
pub record ToolCallUpdate (X : Externals) : Type 0 where
  pub tool_call_id : String
  pub title : String
  pub kind : Option String
  pub status : ToolCallStatus
  pub detail : Option String
  pub content : List NormalizedToolContent
  pub locations : List ToolLocation
  pub raw_input : Option X.Value
  pub raw_output : Option X.Value
