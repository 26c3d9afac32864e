-- ===== src/Completion/Feed.antt =====
-- response_completion.go: the bytes of an event stream, cut into lines and events. Bytes are
-- natural numbers.
use lite2api.Common.{
  ℕ, suc, ◌+◌, String, Bool, true, false, not, ◌&&◌, ◌||◌, List, [], ◌∷◌, ◌++◌, Option, none, some,
  length, is_empty, eqb, ltb, leb, ◌⊎◌, inl, inr, if◌then◌else◌,
}
pub mod Chunks

-- 1 << 20
abbrev pub max_completion_event_bytes : ℕ
max_completion_event_bytes = 1_048_576

abbrev pub Bytes : Type 0
Bytes = List ℕ

-- the fields of responseCompletion that a stream uses, with `data` as `payload`; `inner` is what sseEvent changes
pub record StreamState (S : Type 0) : Type 0 where
  pub line : Bytes
  pub payload : Bytes
  pub event : Bytes
  pub err : Option String
  pub inner : S

-- bytes.Equal
pub same_bytes : Bytes → Bytes → Bool
same_bytes [] [] = true
same_bytes [] (b ∷ bs) = false
same_bytes (a ∷ rest) [] = false
same_bytes (a ∷ rest) (b ∷ bs) = eqb a b && same_bytes rest bs

-- bytes.TrimSuffix at one byte
pub trim_suffix : ℕ → Bytes → Bytes
trim_suffix last [] = []
trim_suffix last (b ∷ bs) =
    let rest = trim_suffix last bs in if eqb b last && is_empty bs then [] else b ∷ rest

-- bytes.TrimPrefix at one byte
pub trim_prefix_byte : ℕ → Bytes → Bytes
trim_prefix_byte first [] = []
trim_prefix_byte first (b ∷ bs) = if eqb b first then bs else b ∷ bs

-- bytes.Cut at one byte: before it and after it
pub cut_bytes : ℕ → Bytes → Bytes × Bytes
cut_bytes sep [] = ([], [])
cut_bytes sep (b ∷ bs) =
    let rest = cut_bytes sep bs in if eqb b sep then ([], bs) else (b ∷ rest.0, rest.1)

abbrev event_field : Bytes
event_field = b'e' ∷ b'v' ∷ b'e' ∷ b'n' ∷ b't' ∷ []

abbrev data_field : Bytes
data_field = b'd' ∷ b'a' ∷ b't' ∷ b'a' ∷ []

abbrev pub too_long : String
too_long = "upstream event exceeds completion inspection limit"

-- `sse_event` is sseEvent, on the data and the name of an event that is not empty.
module _ {S : Type 0} (sse_event : Bytes → Bytes → S → S × Option String) where
  -- an empty line dispatches the event and forgets its data and its name
  pub end_event : StreamState S → StreamState S
  end_event c =
      let out = sse_event c.payload c.event c.inner in
      if is_empty c.payload
      then record c { event = [] }
      else record c { payload = []; event = []; err = out.1; inner = out.0 }

  pub add_data : Bytes → StreamState S → StreamState S
  add_data value c =
      if ltb max_completion_event_bytes (length c.payload + length value + 1)
      then record c { err = some too_long }
      else record c {
        payload = (if is_empty c.payload then [] else c.payload ++ b'\n' ∷ []) ++ value;
      }

  pub sse_field : Bytes → Bytes → StreamState S → StreamState S
  sse_field field value c =
      if same_bytes field event_field
      then record c { event = value }
      else if same_bytes field data_field
      then add_data value c
      else c

  pub sse_line : Bytes → StreamState S → StreamState S
  sse_line [] c = end_event c
  sse_line (b ∷ bs) c =
      let parts = cut_bytes b':' (b ∷ bs) in
      if eqb b b':' then c else sse_field parts.0 (trim_prefix_byte b' ' parts.1) c

  -- one byte of the loop in Feed
  pub feed_byte : ℕ → StreamState S → StreamState S
  feed_byte b c =
      if eqb b b'\n'
      then record (sse_line (trim_suffix b'\r' c.line) c) { line = [] }
      else if leb max_completion_event_bytes (length c.line)
      then record c { err = some too_long }
      else record c { line = c.line ++ b ∷ [] }

  -- Feed on a stream: nothing more is read behind an error
  pub feed : Bytes → StreamState S → StreamState S
  feed [] c = c
  feed (b ∷ bs) c = let rest = feed bs (feed_byte b c) in elim (c.err) [ none ↦ rest | some e ↦ c ]

  pub feed_all : List Bytes → StreamState S → StreamState S
  feed_all [] c = c
  feed_all (chunk ∷ chunks) c = feed_all chunks (feed chunk c)
