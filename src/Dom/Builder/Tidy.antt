-- ===== src/Dom/Builder/Tidy.antt =====
-- The state of `DomBuilder` between two calls.
use xmlparser.Prelude.{range, suc, ◌≤◌, length, ◌≡◌}
use xmlparser.Options.{ParserOptions}
use xmlparser.Dom.Tidy.{TidyHeap}
use xmlparser.Dom.Builder.{DomBuilder}

-- The document is the first node of the heap, and all others are its own, counted and stored.
pub record Tidy (options : ParserOptions) (b : DomBuilder) : Type 0 where
  pub at_document : b.document.node ≡ 0
  pub heap : TidyHeap 0 b.heap
  pub size : length b.heap ≡ suc b.node_count
  pub stored : b.document.storage ≡ range 1 b.node_count
  pub bound : b.node_count ≤ options.max_dom_nodes
