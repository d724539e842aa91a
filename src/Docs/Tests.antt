-- ===== src/Docs/Tests.antt =====
-- The documentation page.
use release_radar.Prelude.{◌≡◌, refl, String, none, some, List, [], ◌∷◌}
use release_radar.Prelude.Int.{ℤ, pos, negsuc}
use release_radar.Docs.{Anchor, keys, mcp, new_docs, open_tab, spy_from, on_scroll}

docs_code : Unit {0}
unfolding open_tab spy_from on_scroll
docs_code = tt

abbrev anchor : String → ℤ → Anchor
anchor id top = record { id = id; top = top }

abbrev behind : List Anchor
behind = anchor "overview" (negsuc 400) ∷ []

abbrev ahead : List Anchor
ahead = anchor "tokens" (pos 600) ∷ []

-- The tab of the keys has no section to begin with: its effect throws.
opened :
    (open_tab mcp new_docs ≡ some (record { tab = mcp; section = "mcp-overview" }))
    × (open_tab keys new_docs ≡ none)
unfolding docs_code
opened = (refl, refl)
