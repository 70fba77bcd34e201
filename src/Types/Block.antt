-- ===== src/Types/Block.antt =====
-- rust/session-core/src/types.rs: content blocks. The code gives each block a random id; `new` takes
-- it as an argument.
use slight.Base.{String, Option, none, some}
use slight.Base.Int.{ℤ}
use slight.Acp.Content.{ResourceLinkSummary, ResourceContent, NormalizedContent}

pub data ContentKind : Type 0 where
  text code reasoning tool_result image audio resource_link resource_text resource_blob :
      ContentKind

pub record ContentBlock : Type 0 where
  pub id : String
  pub kind : ContentKind
  pub text : String
  pub language : Option String
  pub mime_type : Option String
  pub data_base64 : Option String
  pub uri : Option String
  pub name : Option String
  pub title : Option String
  pub description : Option String
  pub size : Option ℤ

abbrev pub new : String → ContentKind → String → ContentBlock
new id kind t = record {
  id = id;
  kind = kind;
  text = t;
  language = none;
  mime_type = none;
  data_base64 = none;
  uri = none;
  name = none;
  title = none;
  description = none;
  size = none;
}

abbrev pub text_block : String → String → ContentBlock
text_block id t = new id ContentKind.text t

abbrev pub reasoning_block : String → String → ContentBlock
reasoning_block id t = new id ContentKind.reasoning t

link_block : String → ResourceLinkSummary → ContentBlock
link_block id link = record (new id ContentKind.resource_link "") {
  uri = some link.uri;
  name = some link.name;
  mime_type = link.mime_type;
  title = link.title;
  description = link.description;
  size = link.size;
}

unfoldable pub from_normalized : String → NormalizedContent → ContentBlock
unfolding link_block
from_normalized id (NormalizedContent.text t) = new id ContentKind.text t
from_normalized id (NormalizedContent.image data_base64 mime_type uri) =
    record (new id ContentKind.image "") {
      mime_type = some mime_type;
      data_base64 = some data_base64;
      uri = uri;
    }
from_normalized id (NormalizedContent.audio data_base64 mime_type) =
    record (new id ContentKind.audio "") {
      mime_type = some mime_type;
      data_base64 = some data_base64;
    }
from_normalized id (NormalizedContent.resource_link link) = link_block id link
from_normalized id (NormalizedContent.resource (ResourceContent.text uri t mime_type)) =
    record (new id ContentKind.resource_text t) { uri = some uri; mime_type = mime_type }
from_normalized id (NormalizedContent.resource (ResourceContent.blob uri data_base64 mime_type)) =
    record (new id ContentKind.resource_blob "") {
      uri = some uri;
      mime_type = mime_type;
      data_base64 = some data_base64;
    }

-- A thought is shown as reasoning where its block is text.
as_reasoning_kind : ContentKind → ContentKind
as_reasoning_kind ContentKind.text = ContentKind.reasoning
as_reasoning_kind kind = kind

unfoldable pub as_reasoning : ContentBlock → ContentBlock
unfolding as_reasoning_kind
as_reasoning block = record block { kind = as_reasoning_kind block.kind }
