-- ===== src/Query/Render.antt =====
-- src/cranus/query/render.py, and what both query modes do to a source's id.
use cranus.Base.{◌++◌, Str, codes, is_empty, starts_with, if◌then◌else◌}

unfoldable pub watermark : Str → Str → Str
watermark session_id answer_text =
    if is_empty answer_text
    then answer_text
    else answer_text ++ (codes "\n\n— session " ++ session_id)

-- `"edge" if id.startswith("edge_") else "chunk"`
abbrev pub source_kind : Str → Str
source_kind id = if starts_with (codes "edge_") id then codes "edge" else codes "chunk"
