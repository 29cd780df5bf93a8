-- ===== src/McpClient/Lists/Partial.antt =====
-- What a list of gateway/clients/mcpClient holds where a page of it failed.
use mathlib.Core.List.{append_assoc}
use gate4ai.Jsonrpc.{Message, RpcError}
use gate4ai.McpClient.{Listing, Awaited, initialized}
use gate4ai.McpClient.Lists.{Kind, Got, got, page_items, all_items, get_listing}
use gate4ai.Prelude.{
  ◌≡◌, refl, sym, ap, ◌∙◌, true, false, Option, some, List, [], ◌∷◌, ◌++◌, String,
}

module _ (decode : String → Option (List String)) where
  all_items-append :
      (xs ys : List Message)
      → all_items decode (xs ++ ys) ≡ all_items decode xs ++ all_items decode ys
  unfolding all_items
  all_items-append [] ys = refl
  all_items-append (m ∷ xs) ys =
      ap (λ zs. page_items decode m ++ zs) (all_items-append xs ys)
      ∙ sym (append_assoc (page_items decode m) (all_items decode xs) (all_items decode ys))

  all_items-error :
      (m : Message) (more : List Message) (e : RpcError)
      → m.error ≡ some e
      → all_items decode (m ∷ more) ≡ all_items decode more
  unfolding all_items page_items
  all_items-error m more e h = rw h refl

  -- A list that is fetched in pages, one of which is an error, has the items of the others, in their
  -- order. The caller is told of no error, and every later caller gets the same list, whatever the
  -- backend would then answer.
  pub get_listing_partial :
      (kind : Kind) (l : Listing) (before after : List Message) (m : Message) (e : RpcError)
      → l.is_initialized ≡ false
      → m.error ≡ some e
      → let items = all_items decode before ++ all_items decode after in
        let r : Listing × Got = get_listing decode kind initialized (before ++ m ∷ after) l in
        (r.1 ≡ got items)
        × ((init : Awaited) (pages : List Message)
            → get_listing decode kind init pages r.0 ≡ (r.0, got items))
  unfolding get_listing
  get_listing_partial kind l before after m e h p =
      let same =
        all_items-append before (m ∷ after)
        ∙ ap (λ zs. all_items decode before ++ zs) (all_items-error m after e p) in
      rw h (
        ap got same,
        λ init pages.
            ap
              (λ items. (
                record { items = all_items decode (before ++ m ∷ after); is_initialized = true },
                got items,
              ))
              same,
      )
