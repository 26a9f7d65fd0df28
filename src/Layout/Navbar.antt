-- ===== src/Layout/Navbar.antt =====
-- documentation/components/layout/Navbar.tsx: the bar of links, for the path that the router gives. It raises no
-- event.
pub mod Marked
mod Tests
use cloud_weave.Prelude.{
  ℕ, zero, suc, ◌+◌, ◌-◌, ◌*◌, String, Bool, true, false, not, ◌&&◌, ◌||◌, Option, none, some, List,
  [], ◌∷◌, map, length, find?, get_or, get_elem?, leb, ltb, ◌==◌, if◌then◌else◌, show, cat, concat,
  join, until, beyond, same,
}
use cloud_weave.Html.{
  Attr, Node, prop, num, flag, fields, on, nothing, say, element, ◌&◌, each, each_from, when,
}
use cloud_weave.Ui.CodeBlock.Regex.{chars}
use cloud_weave.Ui.CodeBlock.Tokens.{starts_with}

pub record NavItem : Type 0 where
  pub href : String
  pub label : String

abbrev pub nav_items : List NavItem
nav_items =
    record { href = "/playground"; label = "Playground" }
    ∷ record { href = "/how-it-works"; label = "How It Works" }
    ∷ record { href = "/concepts"; label = "Concepts" }
    ∷ record { href = "/benchmarks"; label = "Benchmarks" }
    ∷ record { href = "/docs"; label = "Docs" }
    ∷ []

unfoldable pub vault_dial_glyph : List (Attr ⊥) → Node ⊥
vault_dial_glyph props =
    element "svg"
      (prop "viewBox" "0 0 28 28"
        ∷ prop "width" "24"
        ∷ prop "height" "24"
        ∷ prop "fill" "none"
        ∷ prop "stroke" "currentColor"
        ∷ prop "strokeWidth" "1.5"
        ∷ props)
      ((element "circle"
          (prop "cx" "14"
            ∷ prop "cy" "14"
            ∷ prop "r" "11.5"
            ∷ prop "stroke" "#7A1F2B"
            ∷ prop "strokeWidth" "1.5"
            ∷ [])
          nothing)
        & (element "circle"
            (prop "cx" "14"
              ∷ prop "cy" "14"
              ∷ prop "r" "8.5"
              ∷ prop "stroke" "#26262B"
              ∷ prop "strokeWidth" "1"
              ∷ prop "strokeDasharray" "2 3"
              ∷ [])
            nothing)
        & (element "circle"
            (prop "cx" "14"
              ∷ prop "cy" "14"
              ∷ prop "r" "3"
              ∷ prop "fill" "#7A1F2B"
              ∷ prop "stroke" "#000000"
              ∷ prop "strokeWidth" "1"
              ∷ [])
            nothing)
        & (element "line"
            (prop "x1" "14"
              ∷ prop "y1" "2.5"
              ∷ prop "x2" "14"
              ∷ prop "y2" "6.5"
              ∷ prop "stroke" "#7A1F2B"
              ∷ prop "strokeWidth" "2"
              ∷ prop "strokeLinecap" "round"
              ∷ [])
            nothing)
        & (element "line"
            (prop "x1" "25.5"
              ∷ prop "y1" "14"
              ∷ prop "x2" "21.5"
              ∷ prop "y2" "14"
              ∷ prop "stroke" "#A6A9AE"
              ∷ prop "strokeWidth" "1.5"
              ∷ [])
            nothing)
        & (element "line"
            (prop "x1" "14"
              ∷ prop "y1" "25.5"
              ∷ prop "x2" "14"
              ∷ prop "y2" "21.5"
              ∷ prop "stroke" "#A6A9AE"
              ∷ prop "strokeWidth" "1.5"
              ∷ [])
            nothing)
        & (element "line"
            (prop "x1" "2.5"
              ∷ prop "y1" "14"
              ∷ prop "x2" "6.5"
              ∷ prop "y2" "14"
              ∷ prop "stroke" "#A6A9AE"
              ∷ prop "strokeWidth" "1.5"
              ∷ [])
            nothing))

unfoldable pub github_icon : List (Attr ⊥) → Node ⊥
github_icon props =
    element "svg"
      (prop "viewBox" "0 0 24 24"
        ∷ prop "width" "16"
        ∷ prop "height" "16"
        ∷ prop "stroke" "currentColor"
        ∷ prop "strokeWidth" "2"
        ∷ prop "fill" "none"
        ∷ prop "strokeLinecap" "round"
        ∷ prop "strokeLinejoin" "round"
        ∷ props)
      ((element "path"
          (prop "d"
              "M15 22v-4a4.8 4.8 0 0 0-1-3.5c3 0 6-2 6-5.5.08-1.25-.27-2.48-1-3.5.28-1.15.28-2.35 0-3.5 0 0-1 0-3 1.5-2.64-.5-5.36-.5-8 0C6 2 5 2 5 2c-.3 1.15-.3 2.35 0 3.5A5.403 5.403 0 0 0 4 9c0 3.5 3 5.5 6 5.5-.39.49-.68 1.05-.85 1.65-.17.6-.22 1.23-.15 1.85v4"
            ∷ [])
          nothing)
        & (element "path" (prop "d" "M9 18c-4.51 2-5-2-7-2" ∷ []) nothing))

-- isActive, with `pathname.startsWith(href)`.
unfoldable pub is_active : String → String → Bool
is_active pathname href =
    same pathname href || (not (same href "/") && starts_with (chars pathname) (chars href))

unfoldable pub nav_link : String → NavItem → Node ⊥
unfolding is_active
nav_link pathname item =
    let is_active_here = is_active pathname item.href in
    element "Link"
      (prop "key" item.label
        ∷ prop "href" item.href
        ∷ prop "className" (
            cat
              "relative py-1 text-[13px] font-mono tracking-wide transition-colors hover:text-[#EDE8DF] "
              ((if is_active_here then "text-[#EDE8DF] font-bold" else "text-[#8B8B8F]")))
        ∷ [])
      ((say item.label)
        & (when is_active_here (
            element "span"
              (prop "className"
                  "absolute bottom-0 left-0 w-full h-[2px] bg-[#7A1F2B] rounded-full shadow-[0_0_8px_rgba(122,31,43,0.8)]"
                ∷ [])
              nothing)))

unfoldable pub view : String → Node ⊥
unfolding nav_link vault_dial_glyph github_icon
view pathname =
    element "header"
      (prop "className"
          "sticky top-0 z-50 w-full border-b border-[#26262B] bg-[#000000]/90 backdrop-blur-md transition-colors"
        ∷ [])
      (element "div"
        (prop "className"
            "w-full max-w-[1380px] mx-auto px-6 h-16 flex items-center justify-between"
          ∷ [])
        ((element "div" (prop "className" "flex items-center gap-8" ∷ []) (
            (element "Link"
              (prop "href" "/"
                ∷ prop "className"
                    "flex items-center gap-3 group transition-opacity hover:opacity-95"
                ∷ [])
              ((element "div"
                  (prop "className"
                      "flex h-8 w-8 items-center justify-center rounded-lg bg-[#19191C] border border-[#26262B] group-hover:border-[#7A1F2B]/60 transition-colors shadow-xs"
                    ∷ [])
                  (vault_dial_glyph (prop "className" "w-5 h-5 text-[#7A1F2B]" ∷ [])))
                & (element "div" (prop "className" "flex flex-col" ∷ []) (
                    (element "span"
                      (prop "className"
                          "text-[17px] font-serif font-bold tracking-tight text-[#EDE8DF]"
                        ∷ [])
                      (say "CloudWeave"))
                    & (element "span"
                        (prop "className"
                            "text-[9px] font-mono tracking-widest text-[#8B8B8F] uppercase -mt-0.5"
                          ∷ [])
                        (say "Object Storage"))))))
            & (element "nav"
                (prop "className" "hidden lg:flex items-center gap-7 text-sm font-medium" ∷ [])
                (each nav_items (nav_link pathname)))))
          & (element "div" (prop "className" "flex items-center gap-4" ∷ []) (
              (element "a"
                (prop "href" "https://github.com/jhanvi857/CloudWeave"
                  ∷ prop "target" "_blank"
                  ∷ prop "rel" "noreferrer"
                  ∷ prop "className"
                      "hidden sm:flex items-center gap-1.5 text-xs font-mono text-[#8B8B8F] hover:text-[#EDE8DF] transition-colors px-2 py-1"
                  ∷ [])
                ((github_icon (prop "className" "w-4 h-4 text-[#8B8B8F]" ∷ []))
                  & (element "span" [] (say "GitHub"))))
              & (element "Link"
                  (prop "href" "/docs"
                    ∷ prop "className"
                        "inline-flex justify-center items-center h-9 px-4 text-xs font-mono font-semibold bg-[#7A1F2B] text-[#EDE8DF] hover:bg-[#912735] transition-all rounded-md shadow-xs gap-1.5 cursor-pointer active:scale-98"
                    ∷ [])
                  ((element "span" [] (say "Quickstart"))
                    & (element "ArrowRight" (prop "className" "w-3.5 h-3.5 stroke-[2.5]" ∷ [])
                        nothing)))))))
