-- ===== src/Completion/Feed/Chunks.antt =====
-- A stream reads the same however its bytes are cut into chunks, and what is held of it is bounded.
use lite2api.Common.{◌≤◌, String, List, [], ◌∷◌, ◌++◌, Option, length}
use lite2api.Completion.Feed.{Bytes, StreamState, max_completion_event_bytes}

-- the chunks one after another
abbrev pub joined : List Bytes → Bytes
joined [] = []
joined (chunk ∷ chunks) = chunk ++ joined chunks

module _ {S : Type 0} (sse_event : Bytes → Bytes → S → S × Option String) where
  -- what is kept of an unfinished line and an unfinished event
  pub record Held (c : StreamState S) : Type 0 where
    pub line_held : length c.line ≤ max_completion_event_bytes
    pub data_held : length c.payload ≤ max_completion_event_bytes
