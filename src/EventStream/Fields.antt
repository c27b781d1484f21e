-- ===== src/EventStream/Fields.antt =====
-- super-engine-client/src/http_client: the fields of a block (internal/sse.rs) and the event that the
-- block is (v1/events.rs). The JSON reader is a parameter.
use super_engine.Prelude.{
  Bool, true, false, ◌&&◌, Option, none, some, List, [], ◌∷◌, ◌++◌, ◌==◌, nat_eq, is_empty,
  if◌then◌else◌, Text, text, split, strip_prefix, trim_start,
}

pub record SseFields : Type 0 where
  pub event : Option Text
  pub data_text : Text
  pub saw_comment : Bool

abbrev pub no_fields : SseFields
no_fields = record { event = none; data_text = []; saw_comment = false }

-- `trim_end_matches('\r')`
unfoldable pub trim_end_cr : Text → Text
trim_end_cr [] = []
trim_end_cr (c ∷ s) = let rest = trim_end_cr s in if c == 13 && is_empty rest then [] else c ∷ rest

abbrev joined_data : Text → Text → Text
joined_data [] line = line
joined_data (c ∷ s) line = (c ∷ s) ++ 10 ∷ line

abbrev with_data : SseFields → Option Text → SseFields
with_data f none = f
with_data f (some rest) = record f { data_text = joined_data f.data_text (trim_start rest) }

abbrev with_event : SseFields → Text → Option Text → SseFields
with_event f line none = with_data f (strip_prefix (text "data:") line)
with_event f line (some rest) = record f { event = some (trim_start rest) }

abbrev pub read_line : SseFields → Text → SseFields
read_line f [] = f
read_line f (c ∷ s) =
    if c == b':'
    then record f { saw_comment = true }
    else with_event f (c ∷ s) (strip_prefix (text "event:") (c ∷ s))

abbrev pub read_lines : SseFields → List Text → SseFields
read_lines f [] = f
read_lines f (line ∷ lines) = read_lines (read_line f (trim_end_cr line)) lines

unfoldable pub parse_fields : Text → SseFields
unfolding trim_end_cr strip_prefix trim_start split
parse_fields block = read_lines no_fields (split 10 block)

-- What the client uses of `serde_json`.
pub record Json (V : Type 0) : Type 0 where
  pub from_str : Text → Option V
  pub null : V

pub record WidgetEvent (V : Type 0) : Type 0 where
  pub name : Text
  pub payload : V

module _ {V : Type 0} where
  abbrev pub or_null : Json V → Option V → V
  or_null j none = j.null
  or_null j (some v) = v

  abbrev pub widget_event : Json V → SseFields → Option Text → Option (WidgetEvent V)
  widget_event j f (some name) =
      some (record { name = name; payload = or_null j (j.from_str f.data_text) })
  widget_event j f none =
      if f.saw_comment then some (record { name = text "keepalive"; payload = j.null }) else none

  unfoldable pub parse_widget_sse_block : Json V → Text → Option (WidgetEvent V)
  parse_widget_sse_block j block = widget_event j (parse_fields block) (parse_fields block).event
