-- ===== src/Layout/Search.antt =====
-- documentation/components/layout/SearchModal.tsx: what the search finds, its keys, and what it shows.
-- A text in lower case is the list of its code points.
pub mod Items
pub mod Found
mod Tests
use Prim.Native.Char.{Char, code}
use Prim.Native.String
use cloud_weave.Prelude.{
  ℕ, ◌+◌, String, Bool, true, false, ◌&&◌, ◌||◌, List, [], ◌∷◌, map, keep, length, leb, ◌==◌, same,
  if◌then◌else◌, cat,
}
use cloud_weave.Html.{Node, prop, flag, on, on_value, nothing, say, element, ◌&◌, each}
use cloud_weave.Layout.Search.Items.{SearchItem, search_items}

abbrev pub codes : String → List ℕ
codes String.[] = []
codes (String.◌∷◌ c s) = code c ∷ codes s

-- The lower case of a letter of ASCII and of the Kelvin sign, the only other letter whose lower case
-- is a letter of ASCII. Every other letter keeps its code here: no text of the items holds it or its
-- lower case, so which items are found is the same.
unfoldable pub lower : ℕ → ℕ
lower c = if leb 65 c && leb c 90 then c + 32 else if c == 8490 then 107 else c

-- `s.toLowerCase()`
unfoldable pub to_lower_case : String → List ℕ
unfolding lower
to_lower_case s = map lower (codes s)

abbrev pub is_prefix : List ℕ → List ℕ → Bool
is_prefix [] s = true
is_prefix (d ∷ p) [] = false
is_prefix (d ∷ p) (c ∷ s) = (c == d) && is_prefix p s

-- `s.includes(p)`
unfoldable pub includes : List ℕ → List ℕ → Bool
includes [] p = is_prefix p []
includes (c ∷ s) p = is_prefix p (c ∷ s) || includes s p

unfoldable pub is_found : String → SearchItem → Bool
unfolding includes to_lower_case
is_found query item =
    includes (to_lower_case item.title) (to_lower_case query)
    || (includes (to_lower_case item.description) (to_lower_case query)
        || includes (to_lower_case item.category) (to_lower_case query))

unfoldable pub filtered : String → List SearchItem
unfolding is_found
filtered query = keep (is_found query) search_items

-- What a click or the field for the query can raise; `stop` is the click that is kept from the page
-- behind. A selected item is passed to onSelect, and the modal is closed.
pub data Event : Type 0 where
  stop close : Event
  select set_query : String → Event

-- The calls that go to the parent.
pub data Call : Type 0 where
  on_close : Call
  on_select : String → Call

-- The query after an event, and the calls that it makes.
unfoldable pub handle : Event → String → String × List Call
handle stop query = (query, [])
handle close query = (query, on_close ∷ [])
handle (select id) query = (query, on_select id ∷ on_close ∷ [])
handle (set_query q) query = (q, [])

pub record Key : Type 0 where
  pub key : String
  pub meta_key : Bool
  pub ctrl_key : Bool

-- handleKeyDown
unfoldable pub handle_key_down : Key → Bool → String → String × List Call
handle_key_down e is_open query =
    let after_k : String × List Call =
      if (e.meta_key || e.ctrl_key) && same e.key "k"
      then if is_open then (query, on_close ∷ []) else ("", [])
      else (query, []) in
    if same e.key "Escape" && is_open then (after_k.0, on_close ∷ after_k.1) else after_k

unfoldable pub no_results : String → Node Event
no_results query =
    element "div" (prop "className" "py-12 text-center text-sm text-[#64748B]" ∷ []) (
      (say "No results found for “")
      & (element "span" (prop "className" "text-[#0077B6] font-medium" ∷ []) (say query))
      & (say "”"))

unfoldable pub result : SearchItem → Node Event
result item =
    element "button"
      (prop "key" item.id
        ∷ on "onClick" (select item.id)
        ∷ prop "className"
            "w-full flex items-start gap-3.5 p-3 rounded-xl text-left hover:bg-[#CAF0F8]/50 transition-colors group cursor-pointer"
        ∷ [])
      ((element "div"
          (prop "className"
              "mt-0.5 flex h-8 w-8 shrink-0 items-center justify-center rounded-lg border border-[#0077B6]/20 bg-[#CAF0F8] text-[#0077B6] group-hover:bg-[#0077B6] group-hover:text-white transition-colors"
            ∷ [])
          (element item.icon (prop "className" "w-4 h-4" ∷ []) nothing))
        & (element "div" (prop "className" "flex-1 min-w-0" ∷ []) (
            (element "div" (prop "className" "flex items-center gap-2" ∷ []) (
              (element "span" (prop "className" "font-bold text-sm text-[#03045E]" ∷ [])
                (say item.title))
              & (element "span"
                  (prop "className"
                      "text-[10px] font-mono font-medium px-1.5 py-0.5 rounded bg-[#F1F5F9] text-[#64748B]"
                    ∷ [])
                  (say item.category))))
            & (element "p" (prop "className" "text-xs text-[#64748B] line-clamp-1 mt-0.5" ∷ [])
                (say item.description))))
        & (element "ArrowRight"
            (prop "className"
                "w-4 h-4 text-[#94A3B8] group-hover:text-[#0077B6] self-center shrink-0 transition-colors"
              ∷ [])
            nothing))

unfoldable pub search_box : String → Node Event
search_box query =
    element "div"
      (prop "className" "flex items-center gap-3 px-4 py-3.5 border-b border-[#E2E8F0] bg-[#F8FAFC]"
        ∷ [])
      ((element "Search" (prop "className" "w-5 h-5 text-[#0077B6]" ∷ []) nothing)
        & (element "input"
            (prop "type" "text"
              ∷ prop "value" query
              ∷ on_value "onChange" set_query
              ∷ prop "placeholder" "Search concepts, playground simulations, benchmarks..."
              ∷ prop "className"
                  "w-full bg-transparent text-sm text-[#03045E] placeholder-[#94A3B8] outline-hidden font-medium"
              ∷ flag "autoFocus" true
              ∷ [])
            nothing)
        & (element "button"
            (on "onClick" close
              ∷ prop "className"
                  "rounded p-1 text-[#64748B] hover:bg-[#E2E8F0] hover:text-[#0077B6] cursor-pointer"
              ∷ [])
            (element "X" (prop "className" "w-4 h-4" ∷ []) nothing)))

unfoldable pub results : String → Node Event
unfolding no_results result
results query =
    element "div" (prop "className" "max-h-96 overflow-y-auto p-2 divide-y divide-[#F1F5F9]" ∷ [])
      (if length (filtered query) == 0 then no_results query else each (filtered query) result)

unfoldable pub footer : Node Event
footer =
    element "div"
      (prop "className"
          "flex items-center justify-between px-4 py-2.5 bg-[#F8FAFC] border-t border-[#E2E8F0] text-[11px] font-mono text-[#64748B]"
        ∷ [])
      ((element "div" (prop "className" "flex items-center gap-3" ∷ []) (
          (element "span" [] (
            (element "kbd"
              (prop "className" "px-1.5 py-0.5 rounded border border-[#CBD5E1] bg-white text-[10px]"
                ∷ [])
              (say "↑"))
            & (say " ")
            & (element "kbd"
                (prop "className"
                    "px-1.5 py-0.5 rounded border border-[#CBD5E1] bg-white text-[10px]"
                  ∷ [])
                (say "↓"))
            & (say " Navigate")))
          & (element "span" [] (
              (element "kbd"
                (prop "className"
                    "px-1.5 py-0.5 rounded border border-[#CBD5E1] bg-white text-[10px]"
                  ∷ [])
                (say "ESC"))
              & (say " Close")))))
        & (element "span" (prop "className" "text-[#0077B6] font-bold" ∷ [])
            (say "CloudWeave Engine")))

unfoldable pub view : Bool → String → Node Event
unfolding search_box results footer
view is_open query =
    if is_open
    then (element "div"
        (prop "className"
            "fixed inset-0 z-50 flex items-start justify-center pt-20 p-4 bg-[#03045E]/20 backdrop-blur-xs"
          ∷ [])
        (element "div"
          (prop "className"
              "w-full max-w-xl rounded-2xl border border-[#CBD5E1] bg-white shadow-2xl overflow-hidden animate-in fade-in zoom-in-95 duration-150"
            ∷ on "onClick" stop
            ∷ [])
          ((search_box query) & (results query) & (footer))))
    else nothing
