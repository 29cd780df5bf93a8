-- ===== src/Http/A2aPost/Wire.antt =====
-- The lines that server/transport/handle-a2a-POST.go writes: an event of a stream is
-- `id: %d\ndata: %s\n\n`, and a reply the JSON of its encoder and a line end. JSON has no line end.
use gate4ai.Prelude.{ℕ, List, [], ◌∷◌, ◌++◌, String, ◌<>◌, show_ℕ}
use gate4ai.Http.A2aPost.{A2aItem, event}

unfoldable pub event_lines : ℕ → String → List String
event_lines n json = ("id: " <> show_ℕ n) ∷ ("data: " <> json) ∷ "" ∷ []

module _ (reply_json : A2aItem → String) where
  unfoldable pub item_lines : A2aItem → List String
  unfolding event_lines
  item_lines (event n json) = event_lines n json
  item_lines item = reply_json item ∷ []

  unfoldable pub wire_lines : List A2aItem → List String
  unfolding item_lines
  wire_lines [] = []
  wire_lines (item ∷ items) = item_lines item ++ wire_lines items
