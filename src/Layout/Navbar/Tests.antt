-- ===== src/Layout/Navbar/Tests.antt =====
-- An instance of the theorem about Navbar.tsx on a page below the documentation.
use cloud_weave.Prelude.{◌+◌, ◌≤◌, ◌≡◌, count_of}
use cloud_weave.Html.{tag_count}
use cloud_weave.Layout.Navbar.{nav_items, is_active, view}
use cloud_weave.Layout.Navbar.Marked.{one_marked}

one_marked_example :
    let marked = count_of (λ item. is_active "/docs/cli" item.href) nav_items in
    (marked ≤ 1) × (tag_count "span" (view "/docs/cli") ≡ 4 + marked)
one_marked_example = one_marked "/docs/cli"
