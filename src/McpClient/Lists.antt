-- ===== src/McpClient/Lists.antt =====
-- The lists of a client session: `UpdateTools`, `GetTools` and their kin in
-- gateway/clients/mcpClient (tools.go, prompts.go, resources.go, resourcetemplates.go), and
-- `GetServerInfo`. The four differ in the field, the texts, and in what becomes of the channel
-- `done` after a failed initialization: `UpdateTools` closes it, the others do not.
pub mod Partial
use gate4ai.Jsonrpc.{error_text, Message}
use gate4ai.McpClient.{ClientSession, Listing, Awaited, initialized, waits, await}
use gate4ai.McpClient
use gate4ai.Prelude.{
  ◌+◌, ◌<◌, Bool, true, false, not, Option, none, some, List, [], ◌∷◌, ◌++◌, String, ◌<>◌, arith,
  if◌then◌else◌, set,
}

-- One of the four: its name in the texts of errors, and whether `done` is always closed.
pub record Kind : Type 0 where
  pub name : String
  pub closes_always : Bool

abbrev pub tools_kind : Kind
tools_kind = record { name = "tools"; closes_always = true }

abbrev pub prompts_kind : Kind
prompts_kind = record { name = "prompts"; closes_always = false }

abbrev pub resources_kind : Kind
resources_kind = record { name = "resources"; closes_always = false }

abbrev pub templates_kind : Kind
templates_kind = record { name = "resource templates"; closes_always = false }

pub data Got : Type 0 where
  got : List String → Got
  got_error : String → Got

-- `decode` reads the items of a page's result; nothing where that fails.
module _ (decode : String → Option (List String)) where
  items_of : Option (List String) → List String
  items_of none = []
  items_of (some items) = items

  page_result : Option String → List String
  unfolding items_of
  page_result none = []
  page_result (some raw) = items_of (decode raw)

  unfoldable pub page_items : Message → List String
  unfolding page_result
  page_items m = elim m.error [ some e ↦ [] | none ↦ page_result m.result ]

  -- The pages that the channel of `SendRequestSync` gives until it is closed.
  unfoldable pub all_items : List Message → List String
  all_items [] = []
  all_items (m ∷ more) = page_items m ++ all_items more

  -- An update: the list after it, and whether it has closed `done`. It waits where the
  -- initialization does.
  unfoldable pub update_listing : Kind → Awaited → List Message → Listing → Listing × Bool
  unfolding all_items
  update_listing kind (McpClient.failed e) pages l = (l, kind.closes_always)
  update_listing kind waits pages l = (l, false)
  update_listing kind initialized pages l =
      (record { items = all_items pages; is_initialized = true }, true)

  -- The end of the wait for `done` or for the context, which ends at some time.
  after_update : Kind → Listing × Bool → Got
  after_update kind (l, true) =
      if l.is_initialized then got l.items else got_error ("failed to initialize " <> kind.name)
  after_update kind (l, false) = got_error "context cancelled"

  -- `GetTools` and its kin. The context ends where the update does not, and not before it.
  unfoldable pub get_listing : Kind → Awaited → List Message → Listing → Listing × Got
  unfolding update_listing after_update
  get_listing kind init pages l =
      if l.is_initialized
      then (l, got l.items)
      else let r = update_listing kind init pages l in (r.0, after_update kind r)

info_of : Option String → Got
info_of none = got_error "internal error: server info not set after initialization"
info_of (some info) = got (info ∷ [])

-- `GetServerInfo` after `Open`, with the information as the one item.
unfoldable pub get_server_info : ClientSession → ClientSession × Got
unfolding info_of await
get_server_info s =
    let (t, init) = await s in
    (
      t,
      elim init [
        | McpClient.failed e ↦ got_error ("session initialization failed: " <> error_text e)
        | waits ↦ got_error "context cancelled"
        | initialized ↦ info_of t.server_info
      ],
    )
